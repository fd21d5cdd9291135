-- ===== src/Alert/Telegram.antt =====
-- internal/alert/telegram.go: Send and its dedupe map. Times are nanoseconds; the clock does not
-- run backwards. What becomes of the HTTP request is an argument.
pub mod Dedupe
use server_space_manager_ai.Prelude.{
  ℕ, ◌-◌, ◌*◌, String, Bool, true, false, not, ◌&&◌, Option, none, some, List, [], ◌∷◌, ltb, leb,
  str_eq, length, if◌then◌else◌,
}
use server_space_manager_ai.Prelude.Dict.{Dict, get, put, sweep}

-- maxDedupeEntries
abbrev pub max_dedupe_entries : ℕ
max_dedupe_entries = 2048

pub record Telegram : Type 0 where
  pub bot_token : String
  pub chat_id : String
  pub dedupe_window : ℕ
  pub last : Dict ℕ

-- NewTelegram, with its window of 30 minutes
unfoldable pub new_telegram : String → String → Telegram
new_telegram bot_token chat_id = record {
  bot_token = bot_token;
  chat_id = chat_id;
  dedupe_window = 30 * 60 * 1000000000;
  last = [];
}

-- Enabled
unfoldable pub enabled : Telegram → Bool
enabled t = not (str_eq t.bot_token "") && not (str_eq t.chat_id "")

-- sweepLocked: drops what is before `now - DedupeWindow`
unfoldable pub sweep_locked : ℕ → Telegram → Telegram
sweep_locked now t =
    let cutoff = now - t.dedupe_window in record t { last = sweep (λ ts. ltb ts cutoff) t.last }

-- How the request to the Bot API ends.
pub data Outcome : Type 0 where
  request_error transport_error : Outcome
  responds : ℕ → Outcome

-- What Send returns: an error, or none after a duplicate or a delivery.
pub data Result : Type 0 where
  not_configured suppressed delivered failed : Result
  bad_status : ℕ → Result

unfoldable pub post : Outcome → Result
post request_error = failed
post transport_error = failed
post (responds status) = if leb 300 status then bad_status status else delivered

-- `ok && now.Sub(last) < t.DedupeWindow`
abbrev pub is_recent : ℕ → ℕ → Option ℕ → Bool
is_recent window now none = false
is_recent window now (some ts) = ltb (now - ts) window

-- `t.last[key] = now`, and the sweep of a map that is too large
unfoldable pub remember : String → ℕ → Telegram → Telegram
unfolding sweep_locked
remember key now t =
    let noted = record t { last = put t.last key now } in
    if ltb max_dedupe_entries (length noted.last) then sweep_locked now noted else noted

-- Send. The request is made exactly if the result is none of `not_configured` and `suppressed`.
unfoldable pub send : String → ℕ → Outcome → Telegram → Result × Telegram
send key now outcome t =
    if enabled t
    then if is_recent t.dedupe_window now (get t.last key)
      then (suppressed, t)
      else (post outcome, remember key now t)
    else (not_configured, t)

abbrev pub is_posted : Result → Bool
is_posted not_configured = false
is_posted suppressed = false
is_posted _ = true

-- A call of Send: its time, its key, and what becomes of its request.
pub record Call : Type 0 where
  pub at : ℕ
  pub key : String
  pub outcome : Outcome

-- Which calls make a request.
unfoldable pub posted : Telegram → List Call → List Bool
posted t [] = []
posted t (c ∷ cs) =
    is_posted (send c.key c.at c.outcome t).0 ∷ posted (send c.key c.at c.outcome t).1 cs
