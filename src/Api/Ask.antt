-- ===== src/Api/Ask.antt =====
-- internal/api/server.go: /api/ask behind its rate limit, rateLimit and handleAsk. What becomes of the
-- request to the model, strings.TrimSpace and the decoder of the request's JSON are arguments.
pub mod Spending
use server_space_manager_ai.Prelude.{
  ℕ, ◌*◌, String, Bool, true, false, not, Option, none, some, List, [], ◌∷◌, ◌++◌, str_eq,
  if◌then◌else◌,
}
use server_space_manager_ai.Prelude.Floats.{Floats}
use server_space_manager_ai.Prelude.Sorting.{Sorter}
use server_space_manager_ai.Store.{Db}
use server_space_manager_ai.Api.Dashboard.{Snapshot}
use server_space_manager_ai.Api.TokenBucket.{TokenBucket, new_token_bucket, take}
use server_space_manager_ai.Api.Prompt.{PromptTexts, PromptQueries, build_prompt}
use server_space_manager_ai.Llm.{
  Client, HttpRequest, HttpResult, ChatError, Answer, fails, answers, Chatted, chat,
}

-- the limit that New makes: five, and one each ten seconds
unfoldable pub ask_limit : ℕ → TokenBucket
ask_limit now = new_token_bucket 5 (10 * 1000000000) now

abbrev pub ask_system : String
ask_system =
    "You are a careful Linux/Docker storage advisor. You receive: the current disk-usage snapshot, growth trends over the last 7 days, and any decisions previously made by the system (static threshold alerts and prior AI reviews). Use this history to reason — for example, if you've previously flagged an item and it has continued to grow, say so. Never invent paths, containers, or volumes that are not present in the data shown to you. Suggest concrete actions ranked by risk (safest first). Be concise."

-- A request to /api/ask: its time, whether it is a POST, and the question that its JSON has, if it
-- can be decoded, and the queries of the prompt.
pub record AskCall : Type 0 where
  pub at : ℕ
  pub is_post : Bool
  pub question : Option String
  pub queries : PromptQueries

pub data AskResponse : Type 0 where
  rate_limited post_only llm_disabled missing_question : AskResponse
  bad_gateway : ChatError → AskResponse
  answered : String → AskResponse

-- The response, and the requests to the model that were made for it.
pub record Asked : Type 0 where
  pub response : AskResponse
  pub requests : List HttpRequest

abbrev pub refused : AskResponse → Asked
refused response = record { response = response; requests = [] }

abbrev pub response_of : Answer → AskResponse
response_of (fails e) = bad_gateway e
response_of (answers a) = answered a

abbrev pub asked_of : Chatted → Asked
asked_of c = record { response = response_of c.answer; requests = c.requests }

module _ (F : Floats) (P : PromptTexts F) (sorter : Sorter) where
  -- What the handler finds: the model's client, if there is one, the last scan and the store, and
  -- what it calls.
  pub record AskServer : Type 0 where
    pub llm : Option Client
    pub snap : Snapshot
    pub store : Option Db
    pub http : HttpRequest → HttpResult
    pub trim_space : String → String

  abbrev ask_model : AskServer → PromptQueries → Client → ℕ → String → Asked
  ask_model s q c now question =
      asked_of (chat s.http c ask_system (build_prompt F P sorter q s.snap s.store now question))

  abbrev with_question : AskServer → PromptQueries → Client → ℕ → Option String → Asked
  with_question s q c now none = refused missing_question
  with_question s q c now (some question) =
      if str_eq (s.trim_space question) ""
      then refused missing_question
      else ask_model s q c now question

  abbrev with_client : AskServer → PromptQueries → ℕ → Option String → Option Client → Asked
  with_client s q now question none = refused llm_disabled
  with_client s q now question (some c) = with_question s q c now question

  -- handleAsk
  unfoldable pub handle_ask : AskServer → AskCall → Asked
  unfolding build_prompt chat
  handle_ask s call =
      if not call.is_post
      then refused post_only
      else with_client s call.queries call.at call.question s.llm

  -- rateLimit, with the bucket after the request
  unfoldable pub rate_limit : AskServer → AskCall → TokenBucket → Asked × TokenBucket
  unfolding take handle_ask
  rate_limit s call b =
      let (passes, after) = take b call.at in
      (if not passes then refused rate_limited else handle_ask s call, after)

  -- the requests to the model that a run of calls makes
  unfoldable pub requests_of : AskServer → List AskCall → TokenBucket → List HttpRequest
  unfolding rate_limit
  requests_of s [] b = []
  requests_of s (c ∷ cs) b = (rate_limit s c b).0.requests ++ requests_of s cs (rate_limit s c b).1
