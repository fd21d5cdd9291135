-- ===== src/Alert/CommandBot/Wire.antt =====
-- internal/alert/telegram_bot.go: NewCommandBot, poll, tgPOST, registerCommands and Run over the requests
-- to the Bot API. How each request ends, the JSON decoders and the end of the context are arguments;
-- the texts of the log are left out.
pub mod Acknowledged
use server_space_manager_ai.Prelude.{
  ℕ, String, Bool, true, false, not, ◌||◌, Option, none, some, List, [], ◌∷◌, join, str_eq,
  is_empty, ◌==◌, if◌then◌else◌,
}
use server_space_manager_ai.Prelude.Int.{ℤ, pos, negsuc}
use server_space_manager_ai.Alert.CommandBot.{
  Update, Effect, CommandHandlers, CommandBot, Runtime, handle_all, after_poll, started_bot,
}

-- How a request ends: with an error, with a status and a body that breaks off, or with both whole. The
-- flags tell whether the error is that the context is cancelled.
pub data HttpEnd : Type 0 where
  fails : Bool → HttpEnd
  breaks_off : Bool → ℕ → String → HttpEnd
  responds : ℕ → String → HttpEnd

-- tgUpdatesResp
pub record UpdatesResp : Type 0 where
  pub ok : Bool
  pub result : List Update
  pub description : String

-- the answer to a POST
pub record Envelope : Type 0 where
  pub ok : Bool
  pub description : String

-- json.Unmarshal
pub record Decoders : Type 0 where
  pub updates_resp : String → Option UpdatesResp
  pub envelope : String → Option Envelope

pub data CallError : Type 0 where
  cancelled transport_error : CallError
  bad_status : ℕ → String → CallError
  bad_json : CallError
  refused : String → CallError

abbrev pub error_of : Bool → CallError
error_of true = cancelled
error_of false = transport_error

pub data Polled : Type 0 where
  poll_failed : CallError → Polled
  polled : List Update → Polled

-- NewCommandBot
abbrev pub new_command_bot : String → String → CommandHandlers → CommandBot
new_command_bot token chat_id handlers = record {
  bot_token = token;
  allowed_chat_id = chat_id;
  handlers = handlers;
  offset = pos 0;
}

abbrev read_updates : Option UpdatesResp → Polled
read_updates none = poll_failed bad_json
read_updates (some out) =
    if not out.ok then poll_failed (refused out.description) else polled out.result

abbrev read_envelope : String → Option Envelope → Option CallError
read_envelope method none = some bad_json
read_envelope method (some env) =
    if not env.ok then some (refused (join (method ∷ ": " ∷ env.description ∷ []))) else none

-- A POST: its method and the commands it publishes.
pub record Post : Type 0 where
  pub url : String
  pub commands : List (String × String)

-- the list of registerCommands
abbrev pub command_list : List (String × String)
command_list =
    ("scan", "Run a disk scan now")
    ∷ ("digest", "Generate an AI digest now")
    ∷ ("review", "Run the AI anomaly review")
    ∷ ("status", "Current snapshot summary")
    ∷ ("help", "Show this command list")
    ∷ []

abbrev pub api_url : String → String → String
api_url token method = join ("https://api.telegram.org/bot" ∷ token ∷ "/" ∷ method ∷ [])

-- One turn of the loop of Run: whether the context has ended before it, how its request ends, and
-- whether the context ends while it waits after an error.
pub record Turn : Type 0 where
  pub ended : Bool
  pub answer : HttpEnd
  pub ends_waiting : Bool

-- What one turn did.
pub record Turned : Type 0 where
  pub url : String
  pub updates : List Update
  pub effects : List Effect

module _ (env : Runtime) (json : Decoders) where
  -- poll, from the answer on
  unfoldable pub read_poll : HttpEnd → Polled
  read_poll (fails c) = poll_failed (error_of c)
  read_poll (breaks_off c status body) = poll_failed (error_of c)
  read_poll (responds status body) =
      if not (status == 200)
      then poll_failed (bad_status status body)
      else read_updates (json.updates_resp body)

  abbrev pub poll_url : CommandBot → String
  poll_url b = join (
      "https://api.telegram.org/bot"
      ∷ b.bot_token
      ∷ "/getUpdates?timeout=30&offset="
      ∷ env.decimal b.offset
      ∷ [])

  -- poll
  unfoldable pub poll : CommandBot → HttpEnd → Polled × CommandBot
  unfolding read_poll after_poll
  poll b answer = elim (read_poll answer) [
    | poll_failed e ↦ (poll_failed e, b)
    | polled us ↦ (polled us, after_poll env b us)
  ]

  -- tgPOST, from the answer on, for the method
  unfoldable pub tg_post : String → HttpEnd → Option CallError
  tg_post method (fails c) = some (error_of c)
  tg_post method (breaks_off c status body) =
      if not (status == 200)
      then some (bad_status status body)
      else read_envelope method (json.envelope body)
  tg_post method (responds status body) =
      if not (status == 200)
      then some (bad_status status body)
      else read_envelope method (json.envelope body)

  -- registerCommands: its request, and its error
  unfoldable pub register_commands : CommandBot → HttpEnd → Post × Option CallError
  unfolding tg_post
  register_commands b answer = (
    record { url = api_url b.bot_token "setMyCommands"; commands = command_list },
    tg_post "setMyCommands" answer,
  )

  abbrev is_cancelled : CallError → Bool
  is_cancelled cancelled = true
  is_cancelled _ = false

  abbrev pub act : String → Bool → Polled → CommandBot → Turned × (Bool × CommandBot)
  act url ends_waiting (poll_failed e) b =
      (record { url = url; updates = []; effects = [] }, (not (is_cancelled e || ends_waiting), b))
  act url ends_waiting (polled us) b =
      let (effects, b') = handle_all env b us in
      (record { url = url; updates = us; effects = effects }, (true, b'))

  -- the body of the loop of Run: whether the loop goes on, and the bot then
  unfoldable pub take_turn : CommandBot → Turn → Turned × (Bool × CommandBot)
  unfolding poll handle_all
  take_turn b t = let (result, b') = poll b t.answer in act (poll_url b) t.ends_waiting result b'

  -- the loop of Run
  unfoldable pub run_loop : CommandBot → List Turn → List Turned
  unfolding take_turn
  run_loop b [] = []
  run_loop b (t ∷ ts) =
      let (done, (more, b')) = take_turn b t in
      let rest = run_loop b' ts in if t.ended then [] else done ∷ (if more then rest else [])

  -- What Run does: the request of registerCommands, and its turns.
  pub record Ran : Type 0 where
    pub registers : Option Post
    pub turns : List Turned

  -- Run; an error of registerCommands is only logged
  unfoldable pub run : CommandBot → HttpEnd → List Turn → Ran
  unfolding register_commands run_loop
  run b registering ts =
      if str_eq b.bot_token "" || str_eq b.allowed_chat_id ""
      then record { registers = none; turns = [] }
      else record {
        registers = some (register_commands b registering).0;
        turns = run_loop (started_bot b) ts;
      }
