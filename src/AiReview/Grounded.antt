-- ===== src/AiReview/Grounded.antt =====
-- What a review reports, stores and sends.
use server_space_manager_ai.Prelude.{
  contains, ◌≡◌, refl, ap, ◌⊎◌, ◌&&◌, inl, inr, Bool, true, not, String, ℕ, Option, none, some,
  List, [], ◌∷◌, ◌++◌, map, arith, str_eq, eq_iff, is_empty, if◌then◌else◌, false, All, select,
  Bool-cases,
}
use server_space_manager_ai.Prelude.Floats.{Floats}
use server_space_manager_ai.Prelude.Sorting.{Sorter}
use server_space_manager_ai.Store.{Finding, Db, Outcome, insert_findings}
use server_space_manager_ai.Store.Scans.{transact_atomic}
use server_space_manager_ai.Store.Anomalies.{AnomalyRow}
use server_space_manager_ai.Llm.{Answer, fails, answers}
use server_space_manager_ai.Prelude.Runes.{codes}
use server_space_manager_ai.AiReview.Parse.{Verdict, parse_findings}
use server_space_manager_ai.AiReview.Prompt.{Batch, review_system, review_prompt}
use server_space_manager_ai.AiReview.{
  review_kinds, pair_key, clamp, keep_listed, persisted, review_message, notices, Verdicts, failed,
  idle, reviewed, Review, Calls, gather, allowlist, conclude, read_answer, answered, ask,
  run_review,
}

abbrev pub IsGrade : Verdict → Type 0
IsGrade f = (f.severity ≡ "info") ⊎ ((f.severity ≡ "warn") ⊎ (f.severity ≡ "crit"))

clamp-IsGrade : (f : Verdict) → IsGrade (clamp f)
unfolding clamp
clamp-IsGrade f = elim (Bool-cases (str_eq f.severity "info")) [
  | inl h ↦ rw h (inl ((eq_iff f.severity "info").0 h))
  | inr h ↦ rw h (elim (Bool-cases (str_eq f.severity "warn")) [
    | inl k ↦ rw k (inr (inl ((eq_iff f.severity "warn").0 k)))
    | inr k ↦ rw k (elim (Bool-cases (str_eq f.severity "crit")) [
      | inl l ↦ rw l (inr (inr ((eq_iff f.severity "crit").0 l)))
      | inr l ↦ rw l (inr (inl refl))
    ])
  ])
]

clamp-pair_key : (f : Verdict) → pair_key (clamp f).kind (clamp f).key ≡ pair_key f.kind f.key
unfolding clamp
clamp-pair_key f = ground arith

abbrev pub is_listed : List String → Verdict → Bool
is_listed allow f = contains (pair_key f.kind f.key) allow

keep_listed-All :
    (allow : List String) (fs : List Verdict)
    → All (λ f. (is_listed allow f ≡ true) × IsGrade f) (keep_listed allow fs)
unfolding keep_listed
keep_listed-All allow [] = tt
keep_listed-All allow (f ∷ fs) = elim (Bool-cases (is_listed allow f)) [
  | inl h ↦ rw h (((rw (clamp-pair_key f) h, clamp-IsGrade f), keep_listed-All allow fs))
  | inr h ↦ rw h (keep_listed-All allow fs)
]

notices-map :
    (fs : List Verdict)
    → notices fs ≡ map review_message (select (λ f. not (str_eq f.severity "info")) fs)
unfolding notices
notices-map [] = refl
notices-map (f ∷ fs) = elim (Bool-cases (str_eq f.severity "info")) [
  | inl h ↦ rw h (notices-map fs)
  | inr h ↦ rw h (ap (◌∷◌ (review_message f)) (notices-map fs))
]

-- The findings of the store after a review: with the review's, or as they were.
abbrev pub IsStored : Db → List Finding → Db → Type 0
IsStored db new after =
    (after.samples ≡ db.samples)
    × ((after.findings ≡ db.findings ++ new) ⊎ (after.findings ≡ db.findings))

insert_findings-IsStored :
    (o : Outcome Finding) (new : List Finding) (db : Db)
    → IsStored db new (insert_findings o new db).1
unfolding insert_findings
insert_findings-IsStored o [] db = (refl, inr refl)
insert_findings-IsStored o (f ∷ new) db = elim (transact_atomic o (f ∷ new) db.findings) [
  | inl e ↦ (refl, inl (rw e refl))
  | inr e ↦ (refl, inr (rw e refl))
]

-- What a review may do: nothing, when it fails or has nothing to review; else each verdict is
-- about a row shown to the model and has one of the three grades, the store has gained the verdicts
-- or is as it was, and a message is sent for each verdict but the informative ones.
pub record IsGrounded (allow : List String) (db : Db) (now : ℕ) (out : List Verdict) (r : Review)
    : Type 0 where
  pub verdicts : All (λ f. (is_listed allow f ≡ true) × IsGrade f) out
  pub stored : IsStored db (persisted now out) r.db
  pub notified : r.sent ≡ map review_message (select (λ f. not (str_eq f.severity "info")) out)

abbrev pub IsOutcome : List String → Db → ℕ → Review → Verdicts → Type 0
IsOutcome allow db now r (failed e) = (r.db ≡ db) × (r.sent ≡ [])
IsOutcome allow db now r idle = (r.db ≡ db) × (r.sent ≡ [])
IsOutcome allow db now r (reviewed out) = IsGrounded allow db now out r

if_either :
    {A : Type 0} (P : A → Type 0) (b c : Bool) (x y z : A)
    → P x
    → P y
    → P z
    → P (if not b then x else if c then y else z)
if_either P true true x y z h i j = i
if_either P true false x y z h i j = j
if_either P false c x y z h i j = h

module _ (F : Floats) where
  conclude-IsGrounded :
      (calls : Calls F) (db : Db) (allow : List String) (fs : List Verdict)
      → IsGrounded allow db calls.ended (keep_listed allow fs) (conclude F calls db allow fs)
  unfolding conclude
  conclude-IsGrounded calls db allow fs =
      let out = keep_listed allow fs in
      record {
        verdicts = keep_listed-All allow fs;
        stored = insert_findings-IsStored calls.writes (persisted calls.ended out) db;
        notified = notices-map out;
      }

  abbrev pub IsReview : List String → Db → ℕ → Review → Type 0
  IsReview allow db now r = IsOutcome allow db now r r.result

  read_answer-IsReview :
      (calls : Calls F) (db : Db) (allow : List String) (read : Option (List Verdict))
      → IsReview allow db calls.ended (read_answer F calls db allow read)
  unfolding read_answer
  read_answer-IsReview calls db allow none = (refl, refl)
  read_answer-IsReview calls db allow (some fs) = conclude-IsGrounded calls db allow fs

  answered-IsReview :
      (calls : Calls F) (db : Db) (allow : List String) (answer : Answer)
      → IsReview allow db calls.ended (answered F calls db allow answer)
  unfolding answered
  answered-IsReview calls db allow (fails e) = (refl, refl)
  answered-IsReview calls db allow (answers raw) =
      read_answer-IsReview calls db allow
        (parse_findings calls.decode_array calls.decode_object (codes raw))

  ask-IsReview :
      (calls : Calls F) (db : Db) (batches : List Batch) (anomalies : List (AnomalyRow F))
      → IsReview (allowlist F batches anomalies) db calls.ended (ask F calls db batches anomalies)
  unfolding ask
  ask-IsReview calls db batches anomalies =
      let prompt = review_prompt F calls.texts calls.lookback_days batches anomalies in
      answered-IsReview calls db (allowlist F batches anomalies) (calls.chat review_system prompt)

  -- Whatever the model answers, a review reports, stores and announces only verdicts whose kind
  -- and key, joined by "|", are those of a row shown to the model, each graded info, warn or crit,
  -- with one message for each that is not info; the store gains all of them or none, and nothing
  -- changes or is sent when the review fails or has nothing to review.
  pub run_review-IsReview :
      (sorter : Sorter) (calls : Calls F) (db : Db)
      → let shown = gather F sorter calls db review_kinds in
        IsReview (allowlist F shown.0 shown.1) db calls.ended (run_review F sorter calls db)
  unfolding run_review
  run_review-IsReview sorter calls db =
      let shown = gather F sorter calls db review_kinds in
      if_either (IsReview (allowlist F shown.0 shown.1) db calls.ended) calls.configured
        (is_empty shown.0 && is_empty shown.1) _ _ _ (refl, refl) (refl, refl)
        (ask-IsReview calls db shown.0 shown.1)
