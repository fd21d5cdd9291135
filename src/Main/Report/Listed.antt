-- ===== src/Main/Report/Listed.antt =====
-- What the report of a scan lists.
use server_space_manager_ai.Prelude.{
  ℕ, zero, suc, ◌+◌, ◌-◌, ◌≡◌, refl, ap, sym, ◌∙◌, String, true, false, ◌&&◌, Option, List, [], ◌∷◌,
  ◌++◌, arith, cat, join, map, ltb, leb, str_eq, length, select, take, if◌then◌else◌,
}
use server_space_manager_ai.Prelude.Int.{ℤ, pos, leb_ℤ}
use server_space_manager_ai.Prelude.Floats.{Floats}
use server_space_manager_ai.Prelude.Sorting.{Sorter, IsTop, take_sort-IsTop, by_desc-IsWeakOrder}
use server_space_manager_ai.Store.{Sample, Db}
use server_space_manager_ai.Api.Dashboard.{Snapshot, larger}
use server_space_manager_ai.Alert.Rules.{OrphanItem, bigger}
use server_space_manager_ai.Main.Bars.{Prints, size_text}
use server_space_manager_ai.Main.Report.{
  Queries, shown_alerts, alert_lines, disk_section, section, picked, top_text, add_top,
  anomaly_section, orphan_rows, total_of, orphan_text, orphan_section, build_scan_report,
}

abbrev more_line : (ℕ → String) → ℕ → List String
more_line count n = join ("\n• (+" ∷ count n ∷ " more)" ∷ []) ∷ []

-- what is said of the entries after the first `k` of `n`
abbrev pub more_than : (ℕ → String) → ℕ → ℕ → List String
more_than count k n = if ltb k n then more_line count (n - k) else []

more_than_next :
    (count : ℕ → String) (k n : ℕ) → more_than count (suc k) (suc n) ≡ more_than count k n
more_than_next count k n = ground arith

more_than_all : (count : ℕ → String) (n : ℕ) → more_line count (suc n) ≡ more_than count 0 (suc n)
more_than_all count n = ground arith

-- The loop over the alerts shows the first five and the number of the others.
alert_lines_from :
    (count : ℕ → String) (i k : ℕ) (alerts : List String)
    → i + k ≡ 5
    → alert_lines count i alerts
      ≡ map (cat "\n• ") (take k alerts) ++ more_than count k (length alerts)
unfolding alert_lines
alert_lines_from count i zero [] h = refl
alert_lines_from count i (suc k) [] h = ground arith
alert_lines_from count i zero (a ∷ rest) h =
    let past : leb 5 i ≡ true = ground (arith, h) in rw past (more_than_all count (length rest))
alert_lines_from count i (suc k) (a ∷ rest) h =
    let before : leb 5 i ≡ false = ground (arith, h) in
    rw before (
      ap (◌∷◌ (cat "\n• " a)) (
        alert_lines_from count (i + 1) k rest (omega (arith, h))
        ∙ ap (λ (ls : List String). map (cat "\n• ") (take k rest) ++ ls)
            (sym (more_than_next count k (length rest)))))

-- the samples of a kind, of at least `n` bytes
abbrev pub of_kind : String → ℤ → List Sample → List Sample
of_kind kind n = select (λ s. str_eq s.kind kind && leb_ℤ n s.bytes)

module _ (F : Floats) (P : Prints F) (sorter : Sorter) where
  -- the section of a list
  abbrev pub top_section : String → List Sample → List String
  top_section title ss = section F P (join ("\n\n*" ∷ title ∷ ":*" ∷ [])) (map (top_text F P) ss)

  -- the section of the orphan volumes, of which it names a few
  abbrev pub orphans_shown : List OrphanItem → List OrphanItem → List String
  orphans_shown os named =
      if ltb 0 (length os)
      then "\n\n*Orphan volumes:* "
        ∷ P.count (length os)
        ∷ ", "
        ∷ size_text F P (total_of F P (pos 0) os)
        ∷ " total"
        ∷ map (orphan_text F P) named
      else []

  -- A report: what each of its lists holds.
  pub record IsReport (q : Queries) (snap : Snapshot) (store : Option Db) (now : ℕ)
      (report : String) : Type 0 where
    pub logs : List Sample
    pub volumes : List Sample
    pub binds : List Sample
    pub files : List Sample
    pub named : List OrphanItem
    pub logs_top : IsTop larger 5 (of_kind "container_log" (pos 0) snap.samples) logs
    pub volumes_top : IsTop larger 5 (of_kind "volume" (pos 0) snap.samples) volumes
    pub binds_top : IsTop larger 5 (of_kind "bind_mount" (pos 104857600) snap.samples) binds
    pub files_top : IsTop larger 5 (of_kind "big_file" (pos 0) snap.samples) files
    pub named_top : IsTop bigger 3 (orphan_rows F P snap.samples) named
    pub text :
        let alerts = shown_alerts snap.alerts in
        report
        ≡ join (
            (P.count snap.sample_count
              ∷ " samples, "
              ∷ P.count (length snap.alerts)
              ∷ " alerts"
              ∷ [])
            ++ (disk_section F P sorter q store now snap.samples
                ++ (top_section "Top container logs" logs
                    ++ (top_section "Top volumes" volumes
                        ++ (top_section "Top bind mounts" binds
                            ++ (top_section "Biggest files" files
                                ++ (anomaly_section F P sorter q store now
                                    ++ (orphans_shown (orphan_rows F P snap.samples) named
                                        ++ section F P "\n\n*Alerts:*" (
                                            map (cat "\n• ") (take 5 alerts)
                                            ++ more_than P.count 5 (length alerts))))))))))

  picked-IsTop :
      (samples : List Sample) (kind : String) (n : ℕ) (min_bytes : ℤ)
      → IsTop larger n (of_kind kind min_bytes samples) (picked F P sorter samples kind n min_bytes)
  unfolding picked
  picked-IsTop samples kind n min_bytes =
      take_sort-IsTop larger n (of_kind kind min_bytes samples) sorter
        (by_desc-IsWeakOrder (λ (s : Sample). s.bytes))

  -- Whatever the snapshot, the store and which of its queries fail: the report lists the five largest container logs,
  -- volumes, bind mounts of at least 100 MiB and files, the largest first, or all if there are
  -- fewer; counts the orphan volumes and names the three largest; and shows the first five alerts
  -- that do not mention orphan volumes, with the number of the others.
  pub build_scan_report-IsReport :
      (q : Queries) (snap : Snapshot) (store : Option Db) (now : ℕ)
      → IsReport q snap store now (build_scan_report F P sorter q snap store now)
  unfolding build_scan_report add_top orphan_section
  build_scan_report-IsReport q snap store now = record {
    logs = picked F P sorter snap.samples "container_log" 5 (pos 0);
    volumes = picked F P sorter snap.samples "volume" 5 (pos 0);
    binds = picked F P sorter snap.samples "bind_mount" 5 (pos 104857600);
    files = picked F P sorter snap.samples "big_file" 5 (pos 0);
    named = take 3 (sorter.sort bigger (orphan_rows F P snap.samples));
    logs_top = picked-IsTop snap.samples "container_log" 5 (pos 0);
    volumes_top = picked-IsTop snap.samples "volume" 5 (pos 0);
    binds_top = picked-IsTop snap.samples "bind_mount" 5 (pos 104857600);
    files_top = picked-IsTop snap.samples "big_file" 5 (pos 0);
    named_top =
        take_sort-IsTop bigger 3 (orphan_rows F P snap.samples) sorter
          (by_desc-IsWeakOrder (λ (o : OrphanItem). o.bytes));
    text = rw (alert_lines_from P.count 0 5 (shown_alerts snap.alerts) refl) refl;
  }
