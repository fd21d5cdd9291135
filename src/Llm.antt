-- ===== src/Llm.antt =====
-- internal/llm/vllm.go: New and Chat. What becomes of the HTTP request and of the JSON in its answer
-- is an argument.
use server_space_manager_ai.Prelude.{
  String, Bool, false, Option, none, some, List, [], ◌∷◌, cat, str_eq, if◌then◌else◌,
}
use server_space_manager_ai.Prelude.Int.{ℤ, pos, mul64}
use server_space_manager_ai.Config.{LlmCfg, is_zero}

pub record Client : Type 0 where
  pub cfg : LlmCfg
  -- in nanoseconds
  pub timeout : ℤ

-- New
unfoldable pub new : LlmCfg → Client
new cfg =
    let t = mul64 cfg.timeout_seconds (pos 1000000000) in
    record { cfg = cfg; timeout = if is_zero t then pos 60000000000 else t }

-- Message
pub record ChatMessage : Type 0 where
  pub role : String
  pub content : String

-- chatReq
pub record ChatReq : Type 0 where
  pub model : String
  pub messages : List ChatMessage
  pub max_tokens : ℤ
  pub stream : Bool

-- The POST that Chat makes.
pub record HttpRequest : Type 0 where
  pub url : String
  pub headers : List (String × String)
  pub body : ChatReq

-- chatResp: the choices, and the message of the error if there is one
pub record ChatResp : Type 0 where
  pub choices : List ChatMessage
  pub error : Option String

-- How the request ends.
pub data HttpResult : Type 0 where
  request_error transport_error undecodable : HttpResult
  decoded : ChatResp → HttpResult

-- What Chat returns for an error.
pub data ChatError : Type 0 where
  disabled no_request no_transport bad_json empty_response : ChatError
  model_error : String → ChatError

pub data Answer : Type 0 where
  fails : ChatError → Answer
  answers : String → Answer

-- A call of Chat: the requests that it made, none or one, and what it returned.
pub record Chatted : Type 0 where
  pub requests : List HttpRequest
  pub answer : Answer

abbrev headers_of : LlmCfg → List (String × String)
headers_of cfg =
    ("Content-Type", "application/json")
    ∷ (if str_eq cfg.api_key "" then [] else ("Authorization", cat "Bearer " cfg.api_key) ∷ [])

unfoldable pub request_of : LlmCfg → String → String → HttpRequest
request_of cfg system user = record {
  url = cat cfg.base_url "/chat/completions";
  headers = headers_of cfg;
  body = record {
    model = cfg.model;
    messages =
        record { role = "system"; content = system }
        ∷ record { role = "user"; content = user }
        ∷ [];
    max_tokens = cfg.max_tokens;
    stream = false;
  };
}

-- `out.Choices[0].Message.Content`, if there is a choice
abbrev first_choice : List ChatMessage → Answer
first_choice [] = fails empty_response
first_choice (c ∷ cs) = answers c.content

unfoldable pub read_response : ChatResp → Answer
read_response out = elim out.error [
  | some message ↦ fails (model_error message)
  | none ↦ first_choice out.choices
]

unfoldable pub read_result : HttpResult → Answer
unfolding read_response
read_result request_error = fails no_request
read_result transport_error = fails no_transport
read_result undecodable = fails bad_json
read_result (decoded out) = read_response out

-- Chat
unfoldable pub chat : (HttpRequest → HttpResult) → Client → String → String → Chatted
unfolding request_of read_result
chat http c system user =
    let request = request_of c.cfg system user in
    if c.cfg.enabled
    then record { requests = request ∷ []; answer = read_result (http request) }
    else record { requests = []; answer = fails disabled }
