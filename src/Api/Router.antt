-- ===== src/Api/Router.antt =====
-- internal/api/server.go: Routes, with handleDashboard, handleHealth and secHeaders, over the state of the
-- whole Server. The paths are clean, as ServeMux makes them; the bodies of the pages are left out.
pub mod History
pub mod Calls
pub mod Auth
pub mod Jobs
pub mod Spending
use server_space_manager_ai.Prelude.{
  ℕ, String, Bool, true, false, not, Option, none, some, List, [], ◌∷◌, ◌++◌, map, str_eq,
  if◌then◌else◌,
}
use server_space_manager_ai.Prelude.Int.{ℤ}
use server_space_manager_ai.Prelude.Dict.{Dict}
use server_space_manager_ai.Prelude.Floats.{Floats}
use server_space_manager_ai.Prelude.Sorting.{Sorter}
use server_space_manager_ai.Store.{Db}
use server_space_manager_ai.Api.Dashboard.{
  Snapshot, Summary, FindingItem, FindingsCall, handle_summary, handle_findings,
}
use server_space_manager_ai.Api.Gate.{
  Request, page, login_form, submit, leave, Response, served, auth, handle,
}
use server_space_manager_ai.Api.TokenBucket.{TokenBucket}
use server_space_manager_ai.Api.Triggers.{
  Method, is_post, Reply, State, trigger, after_request, finish, drop_one,
}
use server_space_manager_ai.Api.Prompt.{PromptTexts, PromptQueries}
use server_space_manager_ai.Api.Ask.{AskCall, AskResponse, AskServer, Asked, ask_limit, rate_limit}
use server_space_manager_ai.Llm.{Client, HttpRequest, HttpResult}

-- the handlers that Routes registers
pub data Route : Type 0 where
  dashboard summary findings ask login logout health : Route
  trigger_of : String → Route

-- the pattern that ServeMux takes; "/" is the one for all other paths
unfoldable pub route_of : String → Route
route_of path =
    if str_eq path "/api/summary"
    then summary
    else if str_eq path "/api/findings"
    then findings
    else if str_eq path "/api/ask"
    then ask
    else if str_eq path "/api/trigger/scan"
    then trigger_of "scan"
    else if str_eq path "/api/trigger/ai-review"
    then trigger_of "ai_review"
    else if str_eq path "/api/trigger/digest"
    then trigger_of "digest"
    else if str_eq path "/login"
    then login
    else if str_eq path "/logout"
    then logout
    else if str_eq path "/healthz"
    then health
    else dashboard

-- A request, with what the handlers read of it, and what the random source gives if it is asked.
pub record HttpCall : Type 0 where
  pub at : ℕ
  pub path : String
  pub method : Method
  pub cookie : Option String
  pub form : Option String
  pub rand : Option String
  pub limit : String
  pub source : String
  pub question : Option String
  -- whether the query of /api/findings succeeds
  pub readable : Bool
  -- the queries of the prompt of /api/ask
  pub queries : PromptQueries

-- Server, and the jobs that its triggers have started and that have not ended.
pub record Server : Type 0 where
  pub snap : Snapshot
  pub sessions : Dict ℕ
  pub ask_bucket : TokenBucket
  pub triggers : State

-- secHeaders
abbrev pub sec_headers : List (String × String)
sec_headers =
    ("X-Content-Type-Options", "nosniff")
    ∷ ("X-Frame-Options", "DENY")
    ∷ ("Referrer-Policy", "no-referrer")
    ∷ (
      "Content-Security-Policy",
      "default-src 'self'; script-src 'self' 'unsafe-inline'; style-src 'self' 'unsafe-inline'; img-src 'self' data:; connect-src 'self'; frame-ancestors 'none'; base-uri 'none'",
    )
    ∷ []

abbrev pub with_sessions : Server → Dict ℕ → Server
with_sessions s sessions = record s { sessions = sessions }

-- New
unfoldable pub new_server : ℕ → Server
unfolding ask_limit
new_server now = record {
  snap = record { taken_at = 0; sample_count = 0; alerts = []; samples = [] };
  sessions = [];
  ask_bucket = ask_limit now;
  triggers = record { running = []; jobs = [] };
}

abbrev pub ask_call : HttpCall → AskCall
ask_call c = record {
  at = c.at;
  is_post = is_post c.method;
  question = c.question;
  queries = c.queries;
}

module _ (F : Floats) (P : PromptTexts F) (sorter : Sorter) where
  pub data Body : Type 0 where
    -- the answer of auth, handleLogin or handleLogout
    gated : Response → Body
    shows_dashboard not_found healthy : Body
    shows_summary : Summary F → Body
    -- none for the status 500
    shows_findings : Option (List FindingItem) → Body
    answers_ask : AskResponse → Body
    triggers_job : Reply → Body

  -- A response, and the requests to the model that were made for it.
  pub record Served : Type 0 where
    pub headers : List (String × String)
    pub body : Body
    pub requests : List HttpRequest

  -- What New is given and what the handlers call.
  pub record Wiring : Type 0 where
    pub password : String
    pub llm : Option Client
    pub wired : String → Bool
    pub http : HttpRequest → HttpResult
    pub trim_space : String → String
    pub atoi : String → Option ℤ
    pub total_of : String → ℤ

  abbrev pub respond : Body → Served
  respond body = record { headers = sec_headers; body = body; requests = [] }

  abbrev pub ask_server : Wiring → Server → Option Db → AskServer F P sorter
  ask_server w s store = record {
    llm = w.llm;
    snap = s.snap;
    store = store;
    http = w.http;
    trim_space = w.trim_space;
  }

  -- the handlers behind auth; `store` is what the database holds, if there is one
  unfoldable pub behind_auth : Wiring → Option Db → HttpCall → Server → Route → Served × Server
  unfolding rate_limit trigger handle_findings handle_summary
  behind_auth w store c s summary =
      (respond (shows_summary (handle_summary F w.total_of sorter s.snap)), s)
  behind_auth w store c s findings = (
    respond (
        shows_findings (
          handle_findings sorter w.atoi store
            (record { limit = c.limit; source = c.source; now = c.at; readable = c.readable }))),
    s,
  )
  behind_auth w store c s ask =
      let (asked, bucket) =
        rate_limit F P sorter (ask_server w s store) (ask_call c) s.ask_bucket in
      (
        record {
          headers = sec_headers;
          body = answers_ask asked.response;
          requests = asked.requests;
        },
        record s { ask_bucket = bucket },
      )
  behind_auth w store c s (trigger_of kind) =
      let result = trigger kind (w.wired kind) c.method s.triggers.running in
      (
        respond (triggers_job result.0),
        record s { triggers = after_request kind s.triggers result },
      )
  behind_auth w store c s _ =
      (respond (if str_eq c.path "/" then shows_dashboard else not_found), s)

  abbrev pub guarded : Wiring → Option Db → HttpCall → Server → Route → Response → Served × Server
  guarded w store c s r served = behind_auth w store c s r
  guarded w store c s r response = (respond (gated response), s)

  -- `s.auth(…)`
  abbrev pub behind : Wiring → Option Db → HttpCall → Server → Route → Served × Server
  behind w store c s r =
      let (response, sessions) = auth w.password c.path c.cookie c.at s.sessions in
      guarded w store c (with_sessions s sessions) r response

  abbrev pub ungated : Wiring → HttpCall → Server → Request → Served × Server
  ungated w c s request =
      let (response, sessions) = handle w.password c.at request s.sessions in
      (respond (gated response), with_sessions s sessions)

  unfoldable pub serve_route : Wiring → Option Db → HttpCall → Server → Route → Served × Server
  unfolding auth handle behind_auth
  serve_route w store c s login =
      ungated w c s (if is_post c.method then submit c.form c.rand else login_form)
  serve_route w store c s logout = ungated w c s (leave c.cookie)
  serve_route w store c s health = (respond healthy, s)
  serve_route w store c s dashboard = behind w store c s dashboard
  serve_route w store c s summary = behind w store c s summary
  serve_route w store c s findings = behind w store c s findings
  serve_route w store c s ask = behind w store c s ask
  serve_route w store c s (trigger_of kind) = behind w store c s (trigger_of kind)

  -- Routes: what the server does for a request
  unfoldable pub serve : Wiring → Option Db → HttpCall → Server → Served × Server
  unfolding serve_route route_of
  serve w store c s = serve_route w store c s (route_of c.path)
