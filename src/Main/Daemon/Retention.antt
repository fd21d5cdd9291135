-- ===== src/Main/Daemon/Retention.antt =====
-- What a scan leaves in the tables when it deletes old rows.
use server_space_manager_ai.Prelude.{
  ℕ, ◌≤◌, ◌≡◌, inl, inr, not, true, some, some-injective, none-ne-some, List, arith, ltb, All-map,
  select-All, subst, Option-cases,
}
use server_space_manager_ai.Prelude.Int.{ℤ, pos, ltb_ℤ}
use server_space_manager_ai.Prelude.Floats.{Floats}
use server_space_manager_ai.Prelude.Sorting.{Sorter}
use server_space_manager_ai.Store.{Sample, Finding, Db, insert, prune}
use server_space_manager_ai.Alert.Rules.{Rules, Texts, evaluate}
use server_space_manager_ai.Config.{Config}
use server_space_manager_ai.Scanner.BigFiles.{HeapPackage}
use server_space_manager_ai.Scanner.Host as Host
use server_space_manager_ai.Main.Bars.{Prints}
use server_space_manager_ai.Main.Scan.{
  Machine, DbCalls, cutoff, prune_old, Scanned, conclude, run_scan,
}
use server_space_manager_ai.Main.Scan.Restart.{cutoff-le}
use server_space_manager_ai.Main.Daemon.Rows.{Holds, persist_fired-Holds}

-- No row of the tables is before `c`.
abbrev pub IsSince : ℕ → Db → Type 0
IsSince c = Holds (λ s. c ≤ s.taken_at) (λ f. c ≤ f.created_at)

prune-IsSince : (c : ℕ) (db : Db) → IsSince c (prune true true c db).1
unfolding prune
prune-IsSince c db = (
  All-map (λ (s : Sample) (h : not (ltb s.taken_at c) ≡ true). ground (arith, h)) _
      (select-All (λ (s : Sample). not (ltb s.taken_at c)) db.samples),
  All-map (λ (f : Finding) (h : not (ltb f.created_at c) ≡ true). ground (arith, h)) _
      (select-All (λ (f : Finding). not (ltb f.created_at c)) db.findings),
)

prune_old-IsSince :
    (calls : DbCalls) (now : ℕ) (days : ℤ) (db : Db)
    → ltb_ℤ (pos 0) days ≡ true
    → calls.deletes_samples ≡ true
    → calls.deletes_findings ≡ true
    → IsSince (cutoff now days) (prune_old calls now days db)
unfolding prune_old
prune_old-IsSince calls now days db h first second =
    rw (h, first, second) (prune-IsSince (cutoff now days) db)

module _ (F : Floats) (T : Texts F) (P : Prints F) (heap : HeapPackage) (sorter : Sorter) where
  conclude-IsSince :
      (cfg : Config F) (rules : Rules F) (calls : DbCalls) (now report_at : ℕ)
      (samples : List Sample) (db : Db)
      → ltb_ℤ (pos 0) cfg.retention_days ≡ true
      → calls.deletes_samples ≡ true
      → calls.deletes_findings ≡ true
      → IsSince
          (cutoff now cfg.retention_days)
          (conclude F T P heap sorter cfg rules calls now report_at samples db).db
  unfolding conclude
  conclude-IsSince cfg rules calls now report_at samples db h first second =
      persist_fired-Holds _ _ calls now (evaluate F T sorter rules samples).1 _
        (λ msg. cutoff-le now cfg.retention_days)
        (prune_old-IsSince calls now cfg.retention_days (insert calls.inserts samples db).1 h first
          second)

  -- If a configuration keeps its rows for some days and the two deletes of a scan succeed, then
  -- after the scan no sample and no finding is older than those days, whatever was stored and
  -- whatever other calls fail.
  pub run_scan-IsSince :
      (m : Machine) (cfg : Config F) (rules : Rules F) (calls : DbCalls) (now report_at : ℕ)
      (db : Db) (w : Scanned)
      → ltb_ℤ (pos 0) cfg.retention_days ≡ true
      → calls.deletes_samples ≡ true
      → calls.deletes_findings ≡ true
      → run_scan F T P heap sorter m cfg rules calls now report_at db ≡ some w
      → IsSince (cutoff now cfg.retention_days) w.db
  unfolding run_scan
  run_scan-IsSince m cfg rules calls now report_at db w h first second returns =
      elim (Option-cases (Host.scan heap sorter m.host m.host_scanner now)) [
        | inl e ↦ absurd (none-ne-some w (rw (run_scan, e) at returns))
        | inr (host, e) ↦
            subst (λ (v : Scanned). IsSince (cutoff now cfg.retention_days) v.db)
              (some-injective _ w (rw (run_scan, e) at returns))
              (conclude-IsSince cfg rules calls now report_at _ db h first second)
      ]
