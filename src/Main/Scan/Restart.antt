-- ===== src/Main/Scan/Restart.antt =====
-- A scan, and the restart after it.
use server_space_manager_ai.Prelude.{
  ℕ, ◌≤◌, ◌<◌, ◌≡◌, refl, ap, sym, ◌∙◌, not, Bool, true, false, Option, none, some, String, List,
  [], ◌∷◌, ◌++◌, arith, All, All-append, select, select-append, ltb, is_empty, if◌then◌else◌,
  Bool-cases, inl, inr,
}
use mathlib.Core.List.{append-nil, map}
use server_space_manager_ai.Prelude.Int.{ℤ, pos, negsuc, ltb_ℤ}
use server_space_manager_ai.Prelude.Floats.{Floats}
use server_space_manager_ai.Prelude.Sorting.{Sorter}
use server_space_manager_ai.Store.{Sample, Db, insert, insert_findings, prune, latest_scan}
use server_space_manager_ai.Store.Scans.{succeeds, insert_atomic, latest_scan-insert}
use server_space_manager_ai.Alert.Rules.{Rules, Message, Texts, evaluate}
use server_space_manager_ai.Config.{Config, DockerCfg, scan_reports_enabled}
use server_space_manager_ai.Alert.Rules.Sent.{is_full, message_of, evaluate-sent}
use server_space_manager_ai.Scanner.BigFiles.{HeapPackage}
use server_space_manager_ai.Scanner.Stamps.{IsStamped, scan-AreStamped, docker-AreStamped}
use server_space_manager_ai.Scanner.Docker.{Answers}
use server_space_manager_ai.Scanner.Host.Biggest.{IsRooted, scan-ShowsBiggest}
use server_space_manager_ai.Main.Bars.{Prints}
use server_space_manager_ai.Main.Scan.{
  Machine, DbCalls, cutoff, prune_old, persist_fired, report_message, Scanned, docker_samples,
  snapshot_of, restored_from, conclude, run_scan, restore,
}

persist_fired-samples :
    (calls : DbCalls) (now : ℕ) (fired : List String) (db : Db)
    → (persist_fired calls now fired db).samples ≡ db.samples
unfolding persist_fired insert_findings
persist_fired-samples calls now fired db = ground arith

-- The samples that a prune at `c` keeps.
abbrev recent : ℕ → List Sample → List Sample
recent c = select (λ x. not (ltb x.taken_at c))

recent-AreStamped :
    (c now : ℕ) (xs : List Sample) → c ≤ now → All (IsStamped now) xs → recent c xs ≡ xs
recent-AreStamped c now [] le h = refl
recent-AreStamped c now (x ∷ xs) le h = ground (arith, recent-AreStamped c now xs le h.1)

recent_older :
    (c now : ℕ) (xs : List Sample)
    → All (λ x. x.taken_at < now) xs
    → All (λ x. x.taken_at < now) (recent c xs)
recent_older c now [] h = tt
recent_older c now (x ∷ xs) h = ground (arith, recent_older c now xs h.1)

pub cutoff-le : (now : ℕ) (days : ℤ) → cutoff now days ≤ now
cutoff-le now (pos d) = omega arith
cutoff-le now (negsuc d) = omega arith

prune-samples :
    (first second : Bool) (c : ℕ) (db : Db)
    → (prune first second c db).1.samples ≡ (if first then recent c db.samples else db.samples)
unfolding prune
prune-samples true true c db = refl
prune-samples true false c db = refl
prune-samples false second c db = refl

-- Whether a scan's prune takes samples.
abbrev prunes : DbCalls → ℤ → Bool
prunes calls days = if ltb_ℤ (pos 0) days then calls.deletes_samples else false

prune_old-samples :
    (calls : DbCalls) (now : ℕ) (days : ℤ) (db : Db)
    → (prune_old calls now days db).samples
      ≡ (if prunes calls days then recent (cutoff now days) db.samples else db.samples)
unfolding prune_old
prune_old-samples calls now days db = elim (Bool-cases (ltb_ℤ (pos 0) days)) [
  | inl h ↦ rw h (prune-samples calls.deletes_samples calls.deletes_findings _ db)
  | inr h ↦ rw h refl
]

-- Pruning at or before the time of a scan keeps the scan, and what it does to older samples does
-- not depend on it.
prune_old-append :
    (calls : DbCalls) (now : ℕ) (days : ℤ) (db : Db) (xs : List Sample)
    → All (IsStamped now) xs
    → (prune_old calls now days (record db { samples = db.samples ++ xs })).samples
      ≡ (prune_old calls now days db).samples ++ xs
prune_old-append calls now days db xs h =
    let c = cutoff now days in
    let kept = recent-AreStamped c now xs (cutoff-le now days) h in
    let both = select-append (λ (x : Sample). not (ltb x.taken_at c)) db.samples xs in
    elim (Bool-cases (prunes calls days)) [
      | inl p ↦ rw (prune_old-samples, p, both, kept, prune_old-samples calls now days db, p) refl
      | inr p ↦ rw (prune_old-samples, p, prune_old-samples calls now days db, p) refl
    ]

prune_old_older :
    (calls : DbCalls) (now : ℕ) (days : ℤ) (db : Db)
    → All (λ x. x.taken_at < now) db.samples
    → All (λ x. x.taken_at < now) (prune_old calls now days db).samples
prune_old_older calls now days db h =
    let kept = recent_older (cutoff now days) now db.samples h in
    elim (Bool-cases (prunes calls days)) [
      | inl p ↦ rw (prune_old-samples, p) kept
      | inr p ↦ rw (prune_old-samples, p) h
    ]

-- restore looks at the samples only.
restore-samples : (a b : Db) → a.samples ≡ b.samples → restore true a ≡ restore true b
unfolding restore latest_scan
restore-samples a b e = rw e refl

-- What a restart shows after a scan that wrote `samples` at `now` beside older ones.
restore-append :
    (db : Db) (samples : List Sample) (now : ℕ)
    → 0 < now
    → All (λ y. y.taken_at < now) db.samples
    → All (IsStamped now) samples
    → restore true (record db { samples = db.samples ++ samples })
      ≡ (if is_empty samples then restore true db else some (snapshot_of now samples []))
unfolding restore
restore-append db [] now p older batch =
    restore-samples (record db { samples = db.samples ++ [] }) db (append-nil db.samples)
restore-append db (x ∷ xs) now p older batch =
    ap restored_from (latest_scan-insert db x xs now p older batch)

-- Whether a scan is found again: it has a sample, and every call of its insert succeeds.
abbrev pub is_found : DbCalls → List Sample → Bool
is_found calls samples = if succeeds calls.inserts samples then not (is_empty samples) else false

unless :
    {A : Type 0} (b : Bool) (x y z : A) → x ≡ (if b then y else z) → x ≡ (if not b then z else y)
unless true x y z e = e
unless false x y z e = e

restore-insert :
    (calls : DbCalls) (now : ℕ) (days : ℤ) (fired : List String) (samples : List Sample) (db : Db)
    → 0 < now
    → All (λ y. y.taken_at < now) db.samples
    → All (IsStamped now) samples
    → restore true (
        persist_fired calls now fired
          (prune_old calls now days (insert calls.inserts samples db).1))
      ≡ (if is_found calls samples
          then some (snapshot_of now samples [])
          else restore true (prune_old calls now days db))
restore-insert calls now days fired samples db p older batch =
    elim (Bool-cases (succeeds calls.inserts samples)) [
      | inl h ↦
          let written = record db { samples = db.samples ++ samples } in
          let old = prune_old calls now days db in
          rw (insert_atomic calls.inserts samples db, h)
            (restore-samples (persist_fired calls now fired (prune_old calls now days written))
                (record old { samples = old.samples ++ samples })
                (persist_fired-samples calls now fired _
                  ∙ prune_old-append calls now days db samples batch)
              ∙ unless (is_empty samples) _ _ _ (
                  restore-append old samples now p (prune_old_older calls now days db older) batch))
      | inr h ↦
          rw (insert_atomic calls.inserts samples db, h)
            (restore-samples _ _ (persist_fired-samples calls now fired _))
    ]

with_report :
    (b : Bool) (a m : List Message) (r : Message)
    → a ≡ m
    → (if b then a ++ r ∷ [] else a) ≡ m ++ (if b then r ∷ [] else [])
with_report true a m r e = ap (λ (x : List Message). x ++ r ∷ []) e
with_report false a m r e = e ∙ sym (append-nil m)

pub docker_samples-AreStamped :
    (cfg : DockerCfg) (m : Machine) (now : ℕ) (o : Option Answers)
    → All (IsStamped now) (docker_samples cfg m now o)
docker_samples-AreStamped cfg m now none = tt
docker_samples-AreStamped cfg m now (some answers) =
    docker-AreStamped now m.files m.marshal cfg answers

module _ (F : Floats) (T : Texts F) (P : Prints F) (heap : HeapPackage) (sorter : Sorter) where
  -- What a scan hands to the notifier: a message for each filesystem at a threshold, and the report.
  abbrev pub sent_by : Config F → Rules F → DbCalls → ℕ → ℕ → Scanned → List Message
  sent_by cfg rules calls now report_at w =
      map (message_of F T rules) (select (is_full F T rules) w.snapshot.samples)
      ++ (if scan_reports_enabled cfg.telegram
          then report_message F T P heap sorter calls.queries now report_at w.snapshot w.db ∷ []
          else [])

  conclude-sent :
      (cfg : Config F) (rules : Rules F) (calls : DbCalls) (now report_at : ℕ)
      (samples : List Sample) (db : Db)
      → let w = conclude F T P heap sorter cfg rules calls now report_at samples db in
        w.sent ≡ sent_by cfg rules calls now report_at w
  unfolding conclude
  conclude-sent cfg rules calls now report_at samples db =
      with_report (scan_reports_enabled cfg.telegram) _ _ _ (evaluate-sent F T rules sorter samples)

  -- For configured paths that are rooted, a positive time of the scan and stored samples all
  -- before it, whichever inserts, deletes and queries of the scan fail: a scan of the host and Docker
  -- ends, its snapshot has the time of the scan, the notifier is given one message for each
  -- filesystem at a threshold, in order, and then the report if reports are on, and a restart after it
  -- that can read the samples shows the same snapshot without its alerts if the insert of the samples
  -- succeeded and there are any, and else what a restart after only the prune would show.
  pub restore-run_scan :
      (m : Machine) (cfg : Config F) (rules : Rules F) (calls : DbCalls) (now report_at : ℕ)
      (db : Db)
      → All (λ r. IsRooted r.clean) m.host_scanner.paths
      → 0 < now
      → All (λ y. y.taken_at < now) db.samples
      → (w : Scanned) × (run_scan F T P heap sorter m cfg rules calls now report_at db ≡ some w)
        × (w.snapshot.taken_at ≡ now)
        × (w.sent ≡ sent_by cfg rules calls now report_at w)
        × (restore true w.db ≡ (
            if is_found calls w.snapshot.samples
            then some (record w.snapshot { alerts = [] })
            else restore true (prune_old calls now cfg.retention_days db)))
  unfolding run_scan conclude
  restore-run_scan m cfg rules calls now report_at db rooted p older =
      let host = scan-ShowsBiggest heap sorter m.host m.host_scanner now rooted in
      let samples = host.samples ++ docker_samples cfg.docker m now m.docker in
      let batch =
        All-append (IsStamped now) _ _
          (scan-AreStamped now heap m.host m.host_scanner sorter host.samples host.returns)
          (docker_samples-AreStamped cfg.docker m now m.docker) in
      let fired = (evaluate F T sorter rules samples).1 in
      (
        conclude F T P heap sorter cfg rules calls now report_at samples db,
        rw (run_scan, host.returns) refl,
        refl,
        conclude-sent cfg rules calls now report_at samples db,
        restore-insert calls now cfg.retention_days fired samples db p older batch,
      )
