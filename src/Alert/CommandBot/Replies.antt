-- ===== src/Alert/CommandBot/Replies.antt =====
-- internal/alert/telegram_bot.go: the texts of the bot, and reply, which sends them by the notifier that the
-- alerts go through. What OnStatus and the jobs say, the clock, the end of the requests and the
-- printing of numbers are arguments.
pub mod Delivered
use server_space_manager_ai.Prelude.{
  ℕ, String, Option, none, some, List, [], ◌∷◌, ◌++◌, cat, join, str_eq, if◌then◌else◌,
}
use server_space_manager_ai.Alert.CommandBot.{
  Job, label_of, Answer, not_configured, started, help, unknown, Effect, reply, run_job,
  reply_status,
}
use server_space_manager_ai.Alert.Telegram.{Telegram, Outcome, Call, send, is_posted}

-- the text of an answer
unfoldable pub answer_text : Answer → String
answer_text (not_configured label) = cat label " not configured"
answer_text (started j) = join ("▶\u{fe0f} " ∷ label_of j ∷ " started" ∷ [])
answer_text help = join (
    "*Commands*\n" ∷ "/scan — run a disk scan now\n" ∷ "/digest — generate an AI digest now\n"
    ∷ "/review — run the AI anomaly review\n" ∷ "/status — current snapshot summary\n"
    ∷ "/help — this list" ∷ [])
answer_text unknown = "Unknown command. Try /help."

-- What the handlers return.
pub record Handled : Type 0 where
  pub status : String
  pub summary : Job → String

-- The text that an effect replies with, at once or when its job has ended, if it does.
unfoldable pub reply_text : Handled → Effect → Option String
unfolding answer_text
reply_text h (reply a) = some (answer_text a)
reply_text h (run_job j) =
    if str_eq (h.summary j) ""
    then none
    else some (join ("✅ " ∷ label_of j ∷ " — " ∷ h.summary j ∷ []))
reply_text h reply_status = some (if str_eq h.status "" then "(no data)" else h.status)

abbrev pub reply_prefix : String
reply_prefix = "cmd-reply:"

-- `fmt.Sprintf("cmd-reply:%d", time.Now().UnixNano())`
abbrev pub reply_key : (ℕ → String) → ℕ → String
reply_key decimal now = cat reply_prefix (decimal now)

-- reply: the texts that a request is made for, and the Sender after it, if there is one
unfoldable pub send_reply :
    (ℕ → String) → Option Telegram → ℕ → Outcome → String → List String × Option Telegram
unfolding send
send_reply decimal none now outcome text = ([], none)
send_reply decimal (some t) now outcome text =
    let (result, t') = send (reply_key decimal now) now outcome t in
    (if is_posted result then text ∷ [] else [], some t')

abbrev pub send_text :
    (ℕ → String) → Option Telegram → ℕ → Outcome → Option String → List String × Option Telegram
send_text decimal sender now outcome none = ([], sender)
send_text decimal sender now outcome (some text) = send_reply decimal sender now outcome text

-- What one notifier is given: an effect of the bot, whose reply is sent at a time, and all else.
pub data Sending : Type 0 where
  performs : Effect → ℕ → Outcome → Sending
  notifies : Call → Sending

abbrev notify : Option Telegram → Call → Option Telegram
notify none c = none
notify (some t) c = some (send c.key c.at c.outcome t).1

-- the replies that a request is made for
unfoldable pub sent_replies : Handled → (ℕ → String) → Option Telegram → List Sending → List String
unfolding send_reply send reply_text
sent_replies h decimal sender [] = []
sent_replies h decimal sender (performs e now outcome ∷ ss) =
    let (texts, after) = send_text decimal sender now outcome (reply_text h e) in
    texts ++ sent_replies h decimal after ss
sent_replies h decimal sender (notifies c ∷ ss) = sent_replies h decimal (notify sender c) ss
