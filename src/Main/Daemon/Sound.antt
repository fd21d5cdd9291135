-- ===== src/Main/Daemon/Sound.antt =====
-- What holds of the database and the snapshot in every state of the program.
use server_space_manager_ai.Prelude.{
  ℕ, ◌≤◌, ◌≡◌, refl, sym, subst, inl, inr, Bool, true, false, some, some-injective, none-ne-some,
  String, List, [], ◌∷◌, ◌++◌, arith, length, ltb, ◌==◌, ==_iff, All, All-map, All-append,
  All-select, select, select-All, if◌then◌else◌, Option-cases,
}
use server_space_manager_ai.Prelude.Floats.{Floats}
use server_space_manager_ai.Prelude.Sorting.{Sorter}
use server_space_manager_ai.Store.{Sample, Db, newest, latest_of, latest_scan}
use server_space_manager_ai.Store.Scans.{latest_of_batch}
use server_space_manager_ai.Alert.Rules.{Rules, Texts, evaluate}
use server_space_manager_ai.AiReview.{
  review_kinds, gather, allowlist, Verdicts, failed, idle, reviewed, Review, persisted, run_review,
}
use server_space_manager_ai.AiReview.Grounded.{IsOutcome, run_review-IsReview}
use server_space_manager_ai.Config.{Config}
use server_space_manager_ai.Api.Dashboard.{Snapshot}
use server_space_manager_ai.Scanner.BigFiles.{HeapPackage}
use server_space_manager_ai.Scanner.Host as Host
use server_space_manager_ai.Main.Scan.Restart.{docker_samples-AreStamped}
use server_space_manager_ai.Scanner.Stamps.{scan-AreStamped, IsStamped}
use server_space_manager_ai.Main.Bars.{Prints}
use server_space_manager_ai.Main.Scan.{
  docker_samples, restored_from, Machine, DbCalls, Scanned, conclude, run_scan, restore,
  snapshot_of,
}
use server_space_manager_ai.Main.Daemon.{
  or_no_snapshot, Daemon, scans, reviews, restarts, Reach, start, next,
}
use server_space_manager_ai.Main.Daemon.Rows.{
  IsPast, past-le, insert-Holds, prune_old-Holds, persist_fired-Holds, rule_finding-IsDecision,
  verdict-IsDecision,
}

-- A snapshot that holds one scan, whole, not after `t`.
pub record IsShown (t : ℕ) (snap : Snapshot) : Type 0 where
  pub counted : snap.sample_count ≡ length snap.samples
  pub stamped : All (IsStamped snap.taken_at) snap.samples
  pub past : snap.taken_at ≤ t

shown-le : (t u : ℕ) (snap : Snapshot) → t ≤ u → IsShown t snap → IsShown u snap
shown-le t u snap le h = record {
  counted = h.counted;
  stamped = h.stamped;
  past = omega (arith, h.past);
}

snapshot-IsShown :
    (t now : ℕ) (samples : List Sample) (fired : List String)
    → All (IsStamped now) samples
    → now ≤ t
    → IsShown t (snapshot_of now samples fired)
snapshot-IsShown t now samples fired h le = record { counted = refl; stamped = h; past = le }

-- What a restart shows are the rows with one time.
restored_from-IsShown :
    (t n : ℕ) (rows : List Sample)
    → All (IsStamped n) rows
    → All (λ s. s.taken_at ≤ t) rows
    → IsShown t (or_no_snapshot (restored_from (rows, latest_of 0 rows)))
unfolding latest_of
restored_from-IsShown t n [] h le = record { counted = refl; stamped = tt; past = omega arith }
restored_from-IsShown t n (x ∷ xs) h le =
    let first : (if ltb 0 x.taken_at then x.taken_at else 0) ≡ n = ground (arith, h.0) in
    let same = latest_of_batch (if ltb 0 x.taken_at then x.taken_at else 0) n xs h.1 first in
    subst (λ (u : ℕ). IsShown t (snapshot_of u (x ∷ xs) [])) (sym same)
      (snapshot-IsShown t n (x ∷ xs) [] h (rw h.0 at le.0))

restore-IsShown :
    (t : ℕ) (readable : Bool) (db : Db)
    → All (λ s. s.taken_at ≤ t) db.samples
    → IsShown t (or_no_snapshot (restore readable db))
unfolding restore latest_scan
restore-IsShown t false db h = record { counted = refl; stamped = tt; past = omega arith }
restore-IsShown t true db h =
    let n = newest db.samples in
    restored_from-IsShown t n (select (λ x. x.taken_at == n) db.samples)
      (All-map (λ x e. (==_iff x.taken_at n).0 e) _ (select-All (λ x. x.taken_at == n) db.samples))
      (All-select (λ s. s.taken_at ≤ t) _ db.samples h)

pub record IsSound (d : Daemon) : Type 0 where
  pub shown : IsShown d.now d.snap
  pub rows : IsPast d.now d.db

reviewed-IsPast :
    (t : ℕ) (allow : List String) (db : Db) (now : ℕ) (r : Review) (v : Verdicts)
    → now ≤ t
    → IsOutcome allow db now r v
    → IsPast t db
    → IsPast t r.db
reviewed-IsPast t allow db now r (failed e) le h k = rw h.0 k
reviewed-IsPast t allow db now r idle le h k = rw h.0 k
reviewed-IsPast t allow db now r (reviewed out) le h k =
    let grades = All-map (λ f g. g.1) out h.verdicts in
    let new = verdict-IsDecision t now out le grades in
    (
      rw h.stored.0 k.0,
      elim h.stored.1 [
        | inl e ↦ rw e (All-append _ db.findings (persisted now out) k.1 new)
        | inr e ↦ rw e k.1
      ],
    )

module _ (F : Floats) (T : Texts F) (P : Prints F) (heap : HeapPackage) (sorter : Sorter)
    (cfg : Config F) (rules : Rules F) where
  conclude-IsSound :
      (calls : DbCalls) (t report_at end : ℕ) (samples : List Sample) (db : Db)
      → All (IsStamped t) samples
      → t ≤ end
      → IsPast end db
      → let w = conclude F T P heap sorter cfg rules calls t report_at samples db in
        IsSound (record { db = w.db; snap = w.snapshot; now = end })
  unfolding conclude
  conclude-IsSound calls t report_at end samples db h le k =
      let fired = (evaluate F T sorter rules samples).1 in
      record {
        shown = snapshot-IsShown end t samples fired h le;
        rows =
            persist_fired-Holds _ _ calls t fired _ (λ msg. (le, rule_finding-IsDecision t msg))
              (prune_old-Holds _ _ calls t cfg.retention_days _ (
                insert-Holds _ _ calls.inserts samples db
                  (All-map (λ s (e : s.taken_at ≡ t). rw e le) samples h) k));
      }

  run_scan-IsSound :
      (m : Machine) (calls : DbCalls) (t report_at end : ℕ) (db : Db) (w : Scanned)
      → t ≤ end
      → IsPast end db
      → run_scan F T P heap sorter m cfg rules calls t report_at db ≡ some w
      → IsSound (record { db = w.db; snap = w.snapshot; now = end })
  unfolding run_scan
  run_scan-IsSound m calls t report_at end db w le k returns =
      elim (Option-cases (Host.scan heap sorter m.host m.host_scanner t)) [
        | inl e ↦ elim (none-ne-some w (rw (run_scan, e) at returns)) [ ]
        | inr (host, e) ↦
            let samples = host ++ docker_samples cfg.docker m t m.docker in
            let found =
              conclude-IsSound calls t report_at end samples db
                (All-append (IsStamped t) _ _
                  (scan-AreStamped t heap m.host m.host_scanner sorter host e)
                  (docker_samples-AreStamped cfg.docker m t m.docker))
                le k in
            subst (λ (v : Scanned). IsSound (record { db = v.db; snap = v.snapshot; now = end }))
              (some-injective _ w (rw (run_scan, e) at returns)) found
      ]

  -- From an empty database, whatever scans, reviews and restarts end one after the other, each
  -- started no later than it ends: the snapshot counts its samples, which all have its time, which
  -- is past; no row of the tables is from the future; each finding is a warning of the rules or
  -- one of the model, graded info, warn or crit.
  pub Reach-IsSound : (d : Daemon) → Reach F T P heap sorter cfg rules d → IsSound d
  Reach-IsSound d start = record {
    shown = record { counted = refl; stamped = tt; past = omega arith };
    rows = (tt, tt);
  }
  Reach-IsSound e (next r (scans d m calls t report_at end w later le returns)) =
      run_scan-IsSound m calls t report_at end d.db w le
        (past-le d.now end d.db later (Reach-IsSound d r).rows) returns
  Reach-IsSound e (next r (reviews d calls end later le)) =
      let seen = gather F sorter calls d.db review_kinds in
      let before = Reach-IsSound d r in
      let rows =
        reviewed-IsPast end (allowlist F seen.0 seen.1) d.db calls.ended
          (run_review F sorter calls d.db) _ le (run_review-IsReview F sorter calls d.db)
          (past-le d.now end d.db later before.rows) in
      record { shown = shown-le d.now end d.snap later before.shown; rows = rows }
  Reach-IsSound e (next r (restarts d readable)) =
      let before = Reach-IsSound d r in
      record { shown = restore-IsShown d.now readable d.db before.rows.0; rows = before.rows }
