-- ===== src/Alert/CommandBot.antt =====
-- internal/alert/telegram_bot.go: the dispatch of a message and the polling loop. Texts are lists
-- of code points; what unicode.ToLower does beyond ASCII is an argument.
pub mod Word
pub mod Polling
pub mod Wire
pub mod Replies
use server_space_manager_ai.Prelude.{
  ℕ, ◌+◌, String, Bool, true, false, ◌&&◌, ◌||◌, Option, none, some, List, [], ◌∷◌, ◌++◌, ltb, leb,
  ◌==◌, str_eq, is_empty, if◌then◌else◌,
}
use server_space_manager_ai.Prelude.Int.{ℤ, pos, negsuc, add64, ltb_ℤ, leb_ℤ}
use server_space_manager_ai.Prelude.Runes.{
  Text, codes, text_eq, is_space, trim_left, trim_right, trim_space,
}

-- `s[:i]` for the first place `i` of a code point, or all of `s`
unfoldable pub until : ℕ → Text → Text
until stop [] = []
until stop (c ∷ s) = let rest = until stop s in if c == stop then [] else c ∷ rest

-- strings.ToLower
unfoldable pub lower_rune : (ℕ → ℕ) → ℕ → ℕ
lower_rune beyond c = if leb 65 c && leb c 90 then c + 32 else if ltb c 128 then c else beyond c

unfoldable pub to_lower : (ℕ → ℕ) → Text → Text
unfolding lower_rune
to_lower beyond [] = []
to_lower beyond (c ∷ s) = lower_rune beyond c ∷ to_lower beyond s

-- The command of a trimmed text: its first word, in small letters, without "@botname".
unfoldable pub command_word : (ℕ → ℕ) → Text → Text
unfolding until to_lower
command_word beyond text = until 64 (to_lower beyond (until 32 text))

-- The jobs that commands start, and which of the four handlers are set.
pub data Job : Type 0 where
  scan digest review : Job

pub record CommandHandlers : Type 0 where
  pub on_scan : Bool
  pub on_review : Bool
  pub on_digest : Bool
  pub on_status : Bool

abbrev pub handler_of : CommandHandlers → Job → Bool
handler_of h scan = h.on_scan
handler_of h digest = h.on_digest
handler_of h review = h.on_review

-- What the bot does: a reply, the start of a job in the background (which may reply once more when
-- it ends), or a reply with the result of OnStatus.
pub data Answer : Type 0 where
  -- a job or "status" whose handler is not set
  not_configured : String → Answer
  started : Job → Answer
  help unknown : Answer

pub data Effect : Type 0 where
  reply : Answer → Effect
  run_job : Job → Effect
  reply_status : Effect

pub record Message : Type 0 where
  pub chat : ℤ
  pub text : Text

pub record Update : Type 0 where
  pub update_id : ℤ
  pub message : Option Message

-- the label of a job
abbrev pub label_of : Job → String
label_of scan = "scan"
label_of digest = "digest"
label_of review = "AI review"

-- runAsync
unfoldable pub run_async : CommandHandlers → Job → List Effect
run_async h j =
    if handler_of h j
    then reply (started j) ∷ run_job j ∷ []
    else reply (not_configured (label_of j)) ∷ []

-- runSync
unfoldable pub run_sync : CommandHandlers → List Effect
run_sync h = if h.on_status then reply_status ∷ [] else reply (not_configured "status") ∷ []

-- the `switch` of handle
unfoldable pub dispatch : CommandHandlers → Text → List Effect
unfolding run_async run_sync
dispatch h cmd =
    if text_eq cmd (codes "/scan")
    then run_async h scan
    else if text_eq cmd (codes "/digest")
    then run_async h digest
    else if text_eq cmd (codes "/review")
        || (text_eq cmd (codes "/ai_review") || text_eq cmd (codes "/ai-review"))
    then run_async h review
    else if text_eq cmd (codes "/status")
    then run_sync h
    else if text_eq cmd (codes "/help") || text_eq cmd (codes "/start")
    then reply help ∷ []
    else reply unknown ∷ []

pub record CommandBot : Type 0 where
  pub bot_token : String
  pub allowed_chat_id : String
  pub handlers : CommandHandlers
  pub offset : ℤ

-- What the bot takes from Go's library: `%d` of a chat's number, and unicode.ToLower.
pub record Runtime : Type 0 where
  pub decimal : ℤ → String
  pub lower_beyond : ℕ → ℕ

-- `if u.UpdateID >= b.offset { b.offset = u.UpdateID + 1 }`
abbrev pub advance : ℤ → ℤ → ℤ
advance id offset = if leb_ℤ offset id then add64 id (pos 1) else offset

-- the end of poll: after the first request the offset follows the last update
abbrev pub last_id : ℤ → List Update → ℤ
last_id d [] = d
last_id d (u ∷ us) = last_id u.update_id us

abbrev pub is_start : ℤ → Bool
is_start offset = leb_ℤ offset (negsuc 0) && leb_ℤ (negsuc 0) offset

module _ (env : Runtime) where
  unfoldable pub handle_message : CommandBot → Message → List Effect
  unfolding trim_space command_word dispatch
  handle_message b m =
      let text = trim_space m.text in
      if str_eq (env.decimal m.chat) b.allowed_chat_id
      then if is_empty text then [] else dispatch b.handlers (command_word env.lower_beyond text)
      else []

  -- handle
  unfoldable pub handle : CommandBot → Update → List Effect
  unfolding handle_message
  handle b u = elim u.message [ none ↦ [] | some m ↦ handle_message b m ]

  -- the loop of Run over the updates of one poll
  unfoldable pub handle_all : CommandBot → List Update → List Effect × CommandBot
  unfolding handle
  handle_all b [] = ([], b)
  handle_all b (u ∷ us) =
      let (later, b') = handle_all (record b { offset = advance u.update_id b.offset }) us in
      (handle b u ++ later, b')

  -- the end of poll
  unfoldable pub after_poll : CommandBot → List Update → CommandBot
  after_poll b [] = b
  after_poll b (u ∷ us) =
      if is_start b.offset then record b { offset = add64 (last_id u.update_id us) (pos 1) } else b

  -- One round of the loop of Run: `none` is a poll that failed, after which the loop waits.
  unfoldable pub round : CommandBot → Option (List Update) → List Effect × CommandBot
  unfolding after_poll handle_all
  round b none = ([], b)
  round b (some us) = handle_all (after_poll b us) us

  -- Run, over the answers to its polls
  unfoldable pub rounds : CommandBot → List (Option (List Update)) → List Effect × CommandBot
  unfolding round
  rounds b [] = ([], b)
  rounds b (p ∷ ps) =
      let (now, b') = round b p in let (later, b'') = rounds b' ps in (now ++ later, b'')

-- Run sets the offset to -1 before its first poll.
abbrev pub started_bot : CommandBot → CommandBot
started_bot b = record b { offset = negsuc 0 }
