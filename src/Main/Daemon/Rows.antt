-- ===== src/Main/Daemon/Rows.antt =====
-- What the operations on the tables keep of their rows.
use server_space_manager_ai.Prelude.{
  ℕ, ◌≤◌, ◌≡◌, ◌⊎◌, refl, inl, inr, Bool, true, false, String, List, [], ◌∷◌, arith, map, length,
  ltb, All, All-map, All-append, All-select, map-All, Bool-cases,
}
use server_space_manager_ai.Prelude.Int.{ℤ, pos, ltb_ℤ}
use server_space_manager_ai.Store.{
  Sample, Finding, Db, Outcome, transact, insert, insert_findings, prune,
}
use server_space_manager_ai.Store.Scans.{transact_atomic}
use server_space_manager_ai.AiReview.{persisted}
use server_space_manager_ai.AiReview.Parse.{Verdict}
use server_space_manager_ai.AiReview.Grounded.{IsGrade}
use server_space_manager_ai.Main.Scan.{DbCalls, prune_old, rule_finding, persist_fired}

-- A finding that one of the two sources can make.
abbrev pub IsDecision : Finding → Type 0
IsDecision f =
    ((f.source ≡ "rules") × (f.severity ≡ "warn"))
    ⊎ ((f.source ≡ "ai_review")
        × ((f.severity ≡ "info") ⊎ ((f.severity ≡ "warn") ⊎ (f.severity ≡ "crit"))))

-- The predicates on rows that the operations on the database keep.
module _ (S : Sample → Type 0) (G : Finding → Type 0) where
  abbrev pub Holds : Db → Type 0
  Holds db = All S db.samples × All G db.findings

  pub transact-All :
      {A : Type 0} (Q : A → Type 0) (o : Outcome A) (rows table : List A)
      → All Q rows
      → All Q table
      → All Q (transact o rows table).1
  transact-All Q o rows table h k = elim (transact_atomic o rows table) [
    | inl e ↦ rw e (All-append Q table rows k h)
    | inr e ↦ rw e k
  ]

  pub insert-Holds :
      (o : Outcome Sample) (samples : List Sample) (db : Db)
      → All S samples
      → Holds db
      → Holds (insert o samples db).1
  unfolding insert
  insert-Holds o samples db h k = (transact-All S o samples db.samples h k.0, k.1)

  pub insert_findings-Holds :
      (o : Outcome Finding) (fs : List Finding) (db : Db)
      → All G fs
      → Holds db
      → Holds (insert_findings o fs db).1
  unfolding insert_findings
  insert_findings-Holds o [] db h k = k
  insert_findings-Holds o (f ∷ fs) db h k = (k.0, transact-All G o (f ∷ fs) db.findings h k.1)

  prune-Holds :
      (first second : Bool) (c : ℕ) (db : Db) → Holds db → Holds (prune first second c db).1
  unfolding prune
  prune-Holds true true c db k = (All-select S _ db.samples k.0, All-select G _ db.findings k.1)
  prune-Holds true false c db k = (All-select S _ db.samples k.0, k.1)
  prune-Holds false second c db k = k

  pub prune_old-Holds :
      (calls : DbCalls) (now : ℕ) (days : ℤ) (db : Db)
      → Holds db
      → Holds (prune_old calls now days db)
  unfolding prune_old
  prune_old-Holds calls now days db k = elim (Bool-cases (ltb_ℤ (pos 0) days)) [
    | inl h ↦ rw h (prune-Holds calls.deletes_samples calls.deletes_findings _ db k)
    | inr h ↦ rw h k
  ]

  pub persist_fired-Holds :
      (calls : DbCalls) (now : ℕ) (fired : List String) (db : Db)
      → ((msg : String) → G (rule_finding now msg))
      → Holds db
      → Holds (persist_fired calls now fired db)
  unfolding persist_fired
  persist_fired-Holds calls now fired db h k = elim (Bool-cases (ltb 0 (length fired))) [
    | inl e ↦ rw e (
        insert_findings-Holds calls.inserts_findings (map (rule_finding now) fired) db
          (map-All G (rule_finding now) h fired) k)
    | inr e ↦ rw e k
  ]

-- The rows of a table that are not after `t`.
abbrev pub IsPast : ℕ → Db → Type 0
IsPast t = Holds (λ s. s.taken_at ≤ t) (λ f. (f.created_at ≤ t) × IsDecision f)

pub past-le : (t u : ℕ) (db : Db) → t ≤ u → IsPast t db → IsPast u db
past-le t u db le k = (
  All-map (λ s (h : s.taken_at ≤ t). omega arith) db.samples k.0,
  All-map (λ f (h : (f.created_at ≤ t) × IsDecision f). (omega (arith, h.0), h.1)) db.findings k.1,
)

pub rule_finding-IsDecision : (now : ℕ) (msg : String) → IsDecision (rule_finding now msg)
rule_finding-IsDecision now msg = inl (refl, refl)

pub verdict-IsDecision :
    (t now : ℕ) (out : List Verdict)
    → now ≤ t
    → All IsGrade out
    → All (λ f. (f.created_at ≤ t) × IsDecision f) (persisted now out)
verdict-IsDecision t now [] le h = tt
verdict-IsDecision t now (f ∷ fs) le h = ((le, inr (refl, h.0)), verdict-IsDecision t now fs le h.1)
