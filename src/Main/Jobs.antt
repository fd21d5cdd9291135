-- ===== src/Main/Jobs.antt =====
-- cmd/ssm/main.go: the rules that main takes from the configuration, buildScheduler, notifyManual and
-- what the triggers and the bot's commands say. The parser of cron expressions, the printing of
-- numbers and durations and the texts of errors are arguments.
pub mod Scheduled
use server_space_manager_ai.Prelude.{
  ℕ, String, Bool, true, false, not, ◌&&◌, Option, none, some, List, [], ◌∷◌, ◌++◌, cat, join,
  length, str_eq, if◌then◌else◌,
}
use server_space_manager_ai.Prelude.Int.{ℤ, pos, ltb_ℤ}
use server_space_manager_ai.Prelude.Floats.{Floats}
use server_space_manager_ai.Config.{Config, AlertsCfg, SchedulesCfg}
use server_space_manager_ai.Alert.Rules.{Rules, Message, default_rules}
use server_space_manager_ai.AiReview.{Failure, Verdicts, failed, idle, reviewed, Review}
use server_space_manager_ai.AiReview.Digest.{
  Digest, not_configured, chat_failed, digested, Digested,
}
use server_space_manager_ai.Llm.{ChatError}
use server_space_manager_ai.Main.Scan.{Scanned}

-- the rules, with what the configuration sets above 0
unfoldable pub rules_of : (F : Floats) → AlertsCfg F → Rules F
unfolding default_rules
rules_of F a =
    let zero_pct = F.of_int (pos 0) in
    let d = default_rules F in
    record {
      fs_warn_pct = if F.lt zero_pct a.fs_warn_pct then a.fs_warn_pct else d.fs_warn_pct;
      fs_crit_pct = if F.lt zero_pct a.fs_crit_pct then a.fs_crit_pct else d.fs_crit_pct;
      big_item_mb = if ltb_ℤ (pos 0) a.big_item_mb then a.big_item_mb else d.big_item_mb;
      growth_pct = if F.lt zero_pct a.growth_pct then a.growth_pct else d.growth_pct;
    }

pub data ScheduledJob : Type 0 where
  scan_job review_job digest_job : ScheduledJob

-- The entries of the scheduler; `none` where the program stops with an error.
abbrev pub Entries : Type 0
Entries = Option (List (String × ScheduledJob))

-- `if expr := …; expr != "" { if _, err := c.AddFunc(expr, …); err != nil { log.Fatalf(…) } }`
abbrev pub add_job : (String → Bool) → Bool → String → ScheduledJob → Entries → Entries
add_job parses wanted expr job none = none
add_job parses wanted expr job (some entries) =
    if not (str_eq expr "") && wanted
    then if parses expr then some (entries ++ (expr, job) ∷ []) else none
    else some entries

-- buildScheduler, where `llm` is whether the reviewer has a model
unfoldable pub build_scheduler : (String → Bool) → Bool → SchedulesCfg → Entries
build_scheduler parses llm s =
    add_job parses llm s.digest digest_job
      (add_job parses llm s.ai_review review_job (add_job parses true s.scan scan_job (some [])))

-- What main takes from Go's library for its messages.
pub record JobTexts : Type 0 where
  pub count : ℕ → String
  pub duration : ℕ → ℕ → String
  pub review_error : Failure → String
  pub digest_error : ChatError → String

module _ (T : JobTexts) where
  -- what a review that was asked for says; `off` is what it says without a model
  unfoldable pub review_summary : String → Bool → Verdicts → String
  review_summary off llm (failed e) = if not llm then off else cat "error: " (T.review_error e)
  review_summary off llm idle = if not llm then off else cat (T.count 0) " findings"
  review_summary off llm (reviewed out) =
      if not llm then off else cat (T.count (length out)) " findings"

  -- what a digest that was asked for says; `sent` is what it says after one that did not fail
  unfoldable pub digest_summary : String → String → Bool → Digest → String
  digest_summary off sent llm not_configured = if not llm then off else "error: llm not configured"
  digest_summary off sent llm (chat_failed e) =
      if not llm then off else cat "error: " (T.digest_error e)
  digest_summary off sent llm (digested a) = if not llm then off else sent

  abbrev start_message : String → String → ℕ → Message
  start_message name label at = record {
    key = join ("manual:" ∷ name ∷ ":start:" ∷ T.count at ∷ []);
    text = join ("▶\u{fe0f} *" ∷ label ∷ "* started (manual trigger)" ∷ []);
  }

  abbrev done_text : String → ℕ → ℕ → String → String
  done_text label start end summary =
      let msg = join ("✅ *" ∷ label ∷ "* finished in " ∷ T.duration start end ∷ []) in
      if str_eq summary "" then msg else cat msg (cat " — " summary)

  -- notifyManual: what is sent for a job that sends `sent` and says `summary`
  unfoldable pub notify_manual : String → ℕ → ℕ → List Message → String → List Message
  notify_manual label start end sent summary =
      start_message label label start
      ∷ (sent
          ++ record {
            key = join ("manual:" ∷ label ∷ ":done:" ∷ T.count end ∷ []);
            text = done_text label start end summary;
          }
            ∷ [])

  -- the three triggers of the dashboard
  unfoldable pub trigger_scan : ℕ → Scanned → List Message
  trigger_scan start w = start_message "scan" "scan" start ∷ w.sent

  unfoldable pub trigger_review : Bool → ℕ → ℕ → Review → List Message
  unfolding notify_manual review_summary
  trigger_review llm start end r =
      notify_manual "AI review" start end (if llm then r.sent else [])
        (review_summary "skipped (LLM disabled)" llm r.result)

  unfoldable pub trigger_digest : Bool → ℕ → ℕ → Digested → List Message
  unfolding notify_manual digest_summary
  trigger_digest llm start end d =
      notify_manual "digest" start end (if llm then d.sent else [])
        (digest_summary "skipped (LLM disabled)" "sent" llm d.result)

  -- OnReview and OnDigest of the bot
  unfoldable pub on_review : Bool → Verdicts → String
  unfolding review_summary
  on_review llm v = review_summary "LLM disabled" llm v

  unfoldable pub on_digest : Bool → Digest → String
  unfolding digest_summary
  on_digest llm d = digest_summary "LLM disabled" "" llm d
