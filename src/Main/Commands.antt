-- ===== src/Main/Commands.antt =====
-- cmd/ssm/main.go: what main gives the command bot, and the message of its start. The printing of numbers,
-- the commit and the date of the build are arguments.
use server_space_manager_ai.Prelude.{ℕ, String, Bool, true, some, [], ◌∷◌, join}
use server_space_manager_ai.Prelude.Floats.{Floats}
use server_space_manager_ai.Prelude.Sorting.{Sorter}
use server_space_manager_ai.Api.Dashboard.{Snapshot}
use server_space_manager_ai.Alert.Rules.{Message}
use server_space_manager_ai.Alert.CommandBot.{Job, scan, digest, review, CommandHandlers}
use server_space_manager_ai.Alert.CommandBot.Replies.{Handled}
use server_space_manager_ai.AiReview.{Verdicts}
use server_space_manager_ai.AiReview.Digest.{Digest}
use server_space_manager_ai.Config.{Config}
use server_space_manager_ai.Main.Bars.{Prints}
use server_space_manager_ai.Main.Jobs.{JobTexts, on_review, on_digest}
use server_space_manager_ai.Main.Report.{Queries, build_scan_report}
use server_space_manager_ai.Main.Scan.{Scanned}
use server_space_manager_ai.Main.Status.{build_status_line}
use server_space_manager_ai.Version.{version_string}

-- all four handlers are set
abbrev pub all_handlers : CommandHandlers
all_handlers = record { on_scan = true; on_review = true; on_digest = true; on_status = true }

-- The jobs that the commands have run, and whether the reviewer has a model.
pub record Jobs : Type 0 where
  pub llm : Bool
  pub scanned : Scanned
  pub report_at : ℕ
  pub queries : Queries
  pub verdicts : Verdicts
  pub digested : Digest

module _ (F : Floats) (T : JobTexts) (P : Prints F) (sorter : Sorter) where
  -- OnScan, from the end of runScan on
  unfoldable pub on_scan : Queries → Scanned → ℕ → String
  unfolding build_scan_report
  on_scan q w report_at = build_scan_report F P sorter q w.snapshot (some w.db) report_at

  abbrev summary_of : Jobs → Job → String
  summary_of j scan = on_scan j.queries j.scanned j.report_at
  summary_of j review = on_review T j.llm j.verdicts
  summary_of j digest = on_digest T j.llm j.digested

  -- what the handlers return, for the server's snapshot
  unfoldable pub handled : Snapshot → Jobs → Handled
  unfolding on_scan on_review on_digest build_status_line
  handled snap j = record { status = build_status_line F P sorter snap; summary = summary_of j }

  -- the message that main sends at its start
  unfoldable pub online_message : String → String → Config F → ℕ → Message
  unfolding version_string
  online_message commit date cfg at = record {
    key = join ("boot:" ∷ T.count at ∷ []);
    text = join (
        "🟢 *ssm online* — "
        ∷ version_string commit date
        ∷ "\nlisten "
        ∷ cfg.http.listen
        ∷ " · scan "
        ∷ cfg.schedules.scan
        ∷ " · ai_review "
        ∷ cfg.schedules.ai_review
        ∷ " · digest "
        ∷ cfg.schedules.digest
        ∷ []);
  }
