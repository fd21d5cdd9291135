-- ===== src/AiReview.antt =====
-- internal/aireview/aireview.go: RunReview. What the model answers to a prompt and the JSON decoder are
-- arguments; RunReview ignores what the notifier answers.
pub mod Grounded
pub mod Digest
pub mod Parse
pub mod Prompt
use server_space_manager_ai.Prelude.{
  contains, ℕ, ◌-◌, ◌*◌, String, Bool, true, false, not, ◌&&◌, ◌||◌, Option, none, some, List, [],
  ◌∷◌, ◌++◌, map, cat, join, str_eq, is_empty, if◌then◌else◌,
}
use server_space_manager_ai.Prelude.Int.{ℤ, pos}
use server_space_manager_ai.Prelude.Floats.{Floats}
use server_space_manager_ai.Prelude.Sorting.{Sorter}
use server_space_manager_ai.Store.{Finding, Db, Outcome, insert_findings}
use server_space_manager_ai.Store.Growth.{GrowthRow, growth_since}
use server_space_manager_ai.Store.Anomalies.{AnomalyRow, day, baseline_anomalies}
use server_space_manager_ai.Alert.Rules.{Message}
use server_space_manager_ai.Llm.{Answer, fails, answers}
use server_space_manager_ai.Prelude.Runes.{Text, codes}
use server_space_manager_ai.AiReview.Parse.{Verdict, parse_findings}
use server_space_manager_ai.AiReview.Prompt.{Batch, ReviewTexts, review_system, review_prompt}

abbrev pub review_kinds : List String
review_kinds = "container_log" ∷ "volume" ∷ "host_path" ∷ "bind_mount" ∷ "image" ∷ []

-- the key of the allowlist
abbrev pub pair_key : String → String → String
pair_key kind key = cat kind (cat "|" key)

-- the severity that is kept
unfoldable pub clamp : Verdict → Verdict
clamp f =
    if not (str_eq f.severity "info")
      && (not (str_eq f.severity "warn") && not (str_eq f.severity "crit"))
    then record f { severity = "warn" }
    else f

-- The loop that drops what was not shown to the model.
unfoldable pub keep_listed : List String → List Verdict → List Verdict
unfolding clamp
keep_listed allow [] = []
keep_listed allow (f ∷ fs) =
    let rest = keep_listed allow fs in
    if contains (pair_key f.kind f.key) allow then clamp f ∷ rest else rest

-- the loop that persists
abbrev pub persisted : ℕ → List Verdict → List Finding
persisted now = map (λ f. record {
  kind = f.kind;
  key = f.key;
  severity = f.severity;
  reason = f.reason;
  source = "ai_review";
  created_at = now;
})

abbrev icon_of : Verdict → String
icon_of f = if str_eq f.severity "crit" then "🚨" else "⚠\u{fe0f}"

abbrev pub review_message : Verdict → Message
review_message f = record {
  key = join ("ai-review:" ∷ f.kind ∷ ":" ∷ f.key ∷ []);
  text = join (icon_of f ∷ " *AI review* (" ∷ f.kind ∷ ") `" ∷ f.key ∷ "`: " ∷ f.reason ∷ []);
}

-- The loop that notifies.
unfoldable pub notices : List Verdict → List Message
notices [] = []
notices (f ∷ fs) =
    let rest = notices fs in if str_eq f.severity "info" then rest else review_message f ∷ rest

-- What RunReview returns for an error.
pub data Failure : Type 0 where
  not_configured : Failure
  llm_failed : Failure
  unreadable : Failure

pub data Verdicts : Type 0 where
  failed : Failure → Verdicts
  -- nothing to review
  idle : Verdicts
  reviewed : List Verdict → Verdicts

-- What the review did: its result, the store after it, and what it handed to the notifier.
pub record Review : Type 0 where
  pub result : Verdicts
  pub db : Db
  pub sent : List Message

module _ (F : Floats) where
  open F use {of_int}

  -- What RunReview calls: the model, the decoders of parseFindings, and the database, whose two
  -- queries of a kind succeed or not.
  pub record Calls : Type 0 where
    pub configured : Bool
    pub lookback_days : ℕ
    pub now : ℕ
    -- when the model has answered
    pub ended : ℕ
    pub growth_reads : String → Bool
    pub anomalies_read : String → Bool
    pub texts : ReviewTexts F
    pub chat : String → String → Answer
    pub decode_array : Text → Option (List Verdict)
    pub decode_object : Text → Option (List Verdict)
    pub writes : Outcome Finding

  -- the rows of one kind
  unfoldable pub batch_of : Sorter → Calls → Db → String → List Batch
  batch_of sorter calls db kind =
      let rows = growth_since sorter kind (calls.now - calls.lookback_days * day) 15 db in
      if calls.growth_reads kind && not (is_empty rows)
      then record { kind = kind; rows = rows } ∷ []
      else []

  unfoldable pub anomalies_of : Calls → Db → String → List (AnomalyRow F)
  anomalies_of calls db kind =
      if calls.anomalies_read kind
      then baseline_anomalies F kind 7 (of_int (pos 3)) (pos 52428800) 10 calls.now db
      else []

  -- the loop over the kinds
  unfoldable pub gather : Sorter → Calls → Db → List String → List Batch × List (AnomalyRow F)
  unfolding batch_of anomalies_of
  gather sorter calls db [] = ([], [])
  gather sorter calls db (k ∷ ks) =
      let (batches, anomalies) = gather sorter calls db ks in
      (batch_of sorter calls db k ++ batches, anomalies_of calls db k ++ anomalies)

  -- the allowlist
  abbrev batch_keys : List Batch → List String
  batch_keys [] = []
  batch_keys (b ∷ bs) = map (λ r. pair_key b.kind r.key) b.rows ++ batch_keys bs

  unfoldable pub allowlist : List Batch → List (AnomalyRow F) → List String
  allowlist batches anomalies = batch_keys batches ++ map (λ a. pair_key a.kind a.key) anomalies

  -- from the answer on: filter, persist, notify
  unfoldable pub conclude : Calls → Db → List String → List Verdict → Review
  unfolding keep_listed notices
  conclude calls db allow findings =
      let out = keep_listed allow findings in
      record {
        result = reviewed out;
        db = (insert_findings calls.writes (persisted calls.ended out) db).1;
        sent = notices out;
      }

  abbrev stop : Db → Verdicts → Review
  stop db result = record { result = result; db = db; sent = [] }

  unfoldable pub read_answer : Calls → Db → List String → Option (List Verdict) → Review
  unfolding conclude
  read_answer calls db allow none = stop db (failed unreadable)
  read_answer calls db allow (some findings) = conclude calls db allow findings

  unfoldable pub answered : Calls → Db → List String → Answer → Review
  unfolding read_answer parse_findings
  answered calls db allow (fails e) = stop db (failed llm_failed)
  answered calls db allow (answers raw) =
      read_answer calls db allow (parse_findings calls.decode_array calls.decode_object (codes raw))

  unfoldable pub ask : Calls → Db → List Batch → List (AnomalyRow F) → Review
  unfolding allowlist answered review_prompt
  ask calls db batches anomalies =
      let prompt = review_prompt F calls.texts calls.lookback_days batches anomalies in
      answered calls db (allowlist batches anomalies) (calls.chat review_system prompt)

  -- RunReview
  unfoldable pub run_review : Sorter → Calls → Db → Review
  unfolding gather ask
  run_review sorter calls db =
      let (batches, anomalies) = gather sorter calls db review_kinds in
      if not calls.configured
      then stop db (failed not_configured)
      else if is_empty batches && is_empty anomalies
      then stop db idle
      else ask calls db batches anomalies
