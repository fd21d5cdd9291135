-- ===== src/Main/Report.antt =====
-- cmd/ssm/main.go: buildScanReport. The JSON in `Extra` is an argument.
pub mod Listed
use text.Mathlib.Text.{find?}
use server_space_manager_ai.Prelude.{
  ℕ, ◌+◌, ◌-◌, String, Bool, true, false, not, ◌&&◌, Option, none, some, List, [], ◌∷◌, ◌++◌, cat,
  join, map, ltb, leb, str_eq, length, select, take, if◌then◌else◌,
}
use server_space_manager_ai.Prelude.Int.{ℤ, pos, ltb_ℤ, leb_ℤ, add64, sub64}
use server_space_manager_ai.Prelude.Dict.{Dict, get}
use server_space_manager_ai.Prelude.Floats.{Floats}
use server_space_manager_ai.Prelude.Sorting.{Sorter}
use server_space_manager_ai.Store.{Sample, Db}
use server_space_manager_ai.Store.Growth.{growth_since}
use server_space_manager_ai.Store.Growth.Deltas.{deltas_of, delta_at}
use server_space_manager_ai.Store.Anomalies.{AnomalyRow, day, baseline_anomalies}
use server_space_manager_ai.Api.Dashboard.{Snapshot, larger}
use server_space_manager_ai.Alert.Rules.{OrphanItem, bigger}
use server_space_manager_ai.Main.Bars.{Prints, size_text, signed_human_bytes, usage_bar}

-- strings.Contains
abbrev pub has_text : Option ℕ → Bool
has_text none = false
has_text (some i) = true

abbrev pub mentions_orphans : String → Bool
mentions_orphans a = has_text (find? a "orphan volumes")

-- the alerts that the report shows: the orphan rollup has its own section
abbrev pub shown_alerts : List String → List String
shown_alerts = select (λ a. not (mentions_orphans a))

-- `for i, a := range alerts`, with `i` entries done
unfoldable pub alert_lines : (ℕ → String) → ℕ → List String → List String
alert_lines count i [] = []
alert_lines count i (a ∷ rest) =
    let later = alert_lines count (i + 1) rest in
    if leb 5 i
    then join ("\n• (+" ∷ count (length (a ∷ rest)) ∷ " more)" ∷ []) ∷ []
    else cat "\n• " a ∷ later

-- Which of its queries succeed: GrowthSince, and BaselineAnomalies for a kind.
pub record Queries : Type 0 where
  pub reads_growth : Bool
  pub reads_anomalies : String → Bool

module _ (F : Floats) (P : Prints F) where
  open F use {Float, of_int, mul, div, lt, le}

  -- A row of the section *Disk*.
  pub record FsRow : Type 0 where
    pub path : String
    pub used : Float
    pub free : Float
    pub total : Float
    pub pct : Float
    pub delta24h : ℤ

  abbrev fs_row : Dict ℤ → Sample → Option (ℤ × ℤ) → List FsRow
  fs_row deltas s none = []
  fs_row deltas s (some (total, avail)) =
      let used = of_int (sub64 total avail) in
      if ltb_ℤ (pos 0) total
      then record {
        path = s.label;
        used = used;
        free = of_int avail;
        total = of_int total;
        pct = div (mul (of_int (pos 100)) used) (of_int total);
        delta24h = delta_at (get deltas s.key);
      }
        ∷ []
      else []

  unfoldable pub fs_rows : Dict ℤ → List Sample → List FsRow
  unfolding get
  fs_rows deltas [] = []
  fs_rows deltas (s ∷ ss) =
      let rest = fs_rows deltas ss in
      if not (str_eq s.kind "fs") then rest else fs_row deltas s (P.decode_fs s.extra) ++ rest

  abbrev fs_text : FsRow → String
  fs_text f = join (
      "\n• `"
      ∷ f.path
      ∷ "`  "
      ∷ usage_bar F P f.pct
      ∷ "  "
      ∷ P.whole f.pct
      ∷ "%"
      ∷ "\n    used "
      ∷ size_text F P (P.truncate f.used)
      ∷ " · free "
      ∷ size_text F P (P.truncate f.free)
      ∷ " · total "
      ∷ size_text F P (P.truncate f.total)
      ∷ " · "
      ∷ signed_human_bytes F P f.delta24h
      ∷ "/24h"
      ∷ [])

  abbrev pub section : String → List String → List String
  section title [] = []
  section title (l ∷ ls) = title ∷ l ∷ ls

  unfoldable pub disk_section : Sorter → Queries → Option Db → ℕ → List Sample → List String
  unfolding deltas_of fs_rows usage_bar signed_human_bytes
  disk_section sorter q none now samples =
      section "\n\n*Disk:*" (map fs_text (sorter.sort (λ a b. lt b.pct a.pct) (fs_rows [] samples)))
  disk_section sorter q (some db) now samples =
      let rows = growth_since sorter "fs" (now - day) 100 db in
      let deltas = if q.reads_growth then deltas_of rows [] else [] in
      section "\n\n*Disk:*"
        (map fs_text (sorter.sort (λ a b. lt b.pct a.pct) (fs_rows deltas samples)))

  -- addTop: the samples that it lists, and their lines
  unfoldable pub picked : Sorter → List Sample → String → ℕ → ℤ → List Sample
  picked sorter samples kind n min_bytes =
      take n
        (sorter.sort larger (select (λ s. str_eq s.kind kind && leb_ℤ min_bytes s.bytes) samples))

  abbrev pub top_text : Sample → String
  top_text s = join ("\n• `" ∷ s.label ∷ "` — " ∷ size_text F P s.bytes ∷ [])

  unfoldable pub add_top : Sorter → List Sample → String → String → ℕ → ℤ → List String
  unfolding picked
  add_top sorter samples title kind n min_bytes =
      section (join ("\n\n*" ∷ title ∷ ":*" ∷ []))
        (map top_text (picked sorter samples kind n min_bytes))

  -- the loop over the kinds
  unfoldable pub anomalies_in : Queries → Db → ℕ → List String → List (AnomalyRow F)
  anomalies_in q db now [] = []
  anomalies_in q db now (k ∷ ks) =
      let rest = anomalies_in q db now ks in
      let rows = baseline_anomalies F k 7 (of_int (pos 3)) (pos 52428800) 5 now db in
      if q.reads_anomalies k then rows ++ rest else rest

  abbrev anomaly_text : AnomalyRow F → String
  anomaly_text a = join (
      "\n• `"
      ∷ a.label
      ∷ "` +"
      ∷ size_text F P a.last24h_delta
      ∷ " ("
      ∷ (if le (of_int (pos 999)) a.ratio then "new" else cat (P.tenth a.ratio) "x")
      ∷ ")"
      ∷ [])

  unfoldable pub anomaly_section : Sorter → Queries → Option Db → ℕ → List String
  unfolding anomalies_in
  anomaly_section sorter q none now = []
  anomaly_section sorter q (some db) now =
      let kinds = "container_log" ∷ "volume" ∷ "host_path" ∷ "bind_mount" ∷ "image" ∷ [] in
      section "\n\n*Anomalies (24h vs baseline):*" (
        map anomaly_text
          (take 5 (sorter.sort (λ a b. lt b.ratio a.ratio) (anomalies_in q db now kinds))))

  -- the loop over the orphan volumes
  unfoldable pub orphan_rows : List Sample → List OrphanItem
  orphan_rows [] = []
  orphan_rows (s ∷ ss) =
      let rest = orphan_rows ss in
      if str_eq s.kind "orphan_volume"
      then record { label = s.label; bytes = s.bytes } ∷ rest
      else rest

  abbrev pub total_of : ℤ → List OrphanItem → ℤ
  total_of n [] = n
  total_of n (o ∷ os) = total_of (add64 n o.bytes) os

  abbrev pub orphan_text : OrphanItem → String
  orphan_text o = join ("\n• `" ∷ o.label ∷ "` (" ∷ size_text F P o.bytes ∷ ")" ∷ [])

  unfoldable pub orphan_section : Sorter → List Sample → List String
  unfolding orphan_rows
  orphan_section sorter samples =
      let os = orphan_rows samples in
      if ltb 0 (length os)
      then "\n\n*Orphan volumes:* "
        ∷ P.count (length os)
        ∷ ", "
        ∷ size_text F P (total_of (pos 0) os)
        ∷ " total"
        ∷ map orphan_text (take 3 (sorter.sort bigger os))
      else []

  -- buildScanReport, where the store is `none` if there is none
  unfoldable pub build_scan_report : Sorter → Queries → Snapshot → Option Db → ℕ → String
  unfolding disk_section add_top anomaly_section orphan_section alert_lines
  build_scan_report sorter q snap store now = join (
      (P.count snap.sample_count ∷ " samples, " ∷ P.count (length snap.alerts) ∷ " alerts" ∷ [])
      ++ (disk_section sorter q store now snap.samples
          ++ (add_top sorter snap.samples "Top container logs" "container_log" 5 (pos 0)
              ++ (add_top sorter snap.samples "Top volumes" "volume" 5 (pos 0)
                  ++ (add_top sorter snap.samples "Top bind mounts" "bind_mount" 5 (pos 104857600)
                      ++ (add_top sorter snap.samples "Biggest files" "big_file" 5 (pos 0)
                          ++ (anomaly_section sorter q store now
                              ++ (orphan_section sorter snap.samples
                                  ++ section "\n\n*Alerts:*"
                                      (alert_lines P.count 0 (shown_alerts snap.alerts))))))))))
