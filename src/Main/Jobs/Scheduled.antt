-- ===== src/Main/Jobs/Scheduled.antt =====
-- The schedules that Load lets through, in the scheduler.
use server_space_manager_ai.Prelude.{
  ◌≡◌, ◌≢◌, refl, ap, ◌∙◌, String, Bool, true, false, ◌&&◌, some, List, [], ◌∷◌, ◌++◌, arith,
  str_eq, eq_iff, if◌then◌else◌, Bool-cases, inl, inr,
}
use mathlib.Core.List.{append-nil}
use server_space_manager_ai.Prelude.Floats.{Floats}
use server_space_manager_ai.Config.{Config, is_schedule, validate, loads, load}
use server_space_manager_ai.Config.Ready.{IsReady, load-IsLoaded}
use server_space_manager_ai.Main.Jobs.{
  ScheduledJob, scan_job, review_job, digest_job, add_job, build_scheduler,
}

-- The entry of a job that runs only with a model.
abbrev pub entry_with : Bool → String → ScheduledJob → List (String × ScheduledJob)
entry_with llm expr job = if str_eq expr "" then [] else if llm then (expr, job) ∷ [] else []

add_job-is_schedule :
    (parses : String → Bool) (wanted : Bool) (expr : String) (job : ScheduledJob)
    (entries : List (String × ScheduledJob))
    → is_schedule parses expr ≡ true
    → add_job parses wanted expr job (some entries) ≡ some (entries ++ entry_with wanted expr job)
add_job-is_schedule parses true expr job entries h = elim (Bool-cases (str_eq expr "")) [
  | inl e ↦ rw (e, append-nil) refl
  | inr e ↦ let good : parses expr ≡ true = rw e at h in rw (e, good) refl
]
add_job-is_schedule parses false expr job entries h = elim (Bool-cases (str_eq expr "")) [
  | inl e ↦ rw (e, append-nil) refl
  | inr e ↦ rw (e, append-nil) refl
]

parts : (a b c : Bool) → (a && (b && c)) ≡ true → (a ≡ true) × (b ≡ true) × (c ≡ true)
parts a b c h = ground arith

not_empty : (s : String) → s ≢ "" → str_eq s "" ≡ false
not_empty s h = elim (Bool-cases (str_eq s "")) [
  | inl e ↦ absurd (h ((eq_iff s "").0 e))
  | inr e ↦ e
]

-- For a configuration that Load returns, with the parser that Load checks the schedules with: the
-- scheduler is built without the error that ends the program, and its entries are the scan and,
-- with a model, the review and the digest, each exactly if its schedule is not empty.
pub build_scheduler-load :
    (F : Floats) (parses : String → Bool) (env : String → String) (c d : Config F) (llm : Bool)
    → load F parses env (some c) ≡ loads d
    → build_scheduler parses llm d.schedules
      ≡ some (
          (d.schedules.scan, scan_job)
          ∷ (entry_with llm d.schedules.ai_review review_job
              ++ entry_with llm d.schedules.digest digest_job))
unfolding build_scheduler
build_scheduler-load F parses env c d llm e =
    let r : IsReady F parses env c d = rw e at (load-IsLoaded F parses env c) in
    let (one, two, three) =
      parts (is_schedule parses d.schedules.scan) (is_schedule parses d.schedules.ai_review)
        (is_schedule parses d.schedules.digest) (unfold validate in r.schedules) in
    let named : str_eq d.schedules.scan "" ≡ false = not_empty d.schedules.scan r.scans in
    let scans = add_job-is_schedule parses true d.schedules.scan scan_job [] one in
    let scan_entry = (d.schedules.scan, scan_job) ∷ [] in
    let review_entry = entry_with llm d.schedules.ai_review review_job in
    let first : entry_with true d.schedules.scan scan_job ≡ (d.schedules.scan, scan_job) ∷ [] =
      rw named refl in
    ap
      (λ es.
        add_job parses llm d.schedules.digest digest_job
          (add_job parses llm d.schedules.ai_review review_job es))
      (scans ∙ ap some first)
    ∙ ap (add_job parses llm d.schedules.digest digest_job)
        (add_job-is_schedule parses llm d.schedules.ai_review review_job scan_entry two)
    ∙ add_job-is_schedule parses llm d.schedules.digest digest_job (scan_entry ++ review_entry)
        three
