-- ===== src/Tests/Api.antt =====
-- Sessions, the token bucket, the triggers and the dashboard at concrete values.
use server_space_manager_ai.Prelude.{
  ℕ, String, Option, ◌*◌, ◌+◌, ◌-◌, ◌≤◌, ◌≡◌, ◌⊎◌, refl, inl, true, false, none, some, List, [],
  ◌∷◌, arith, length, ◌==◌, if◌then◌else◌,
}
use server_space_manager_ai.Prelude.Int.{pos}
use server_space_manager_ai.Prelude.Dict.{get, put}
use server_space_manager_ai.Prelude.Insertion.{insertion_sorter}
use server_space_manager_ai.Tests.{whole_floats, two_scans, sample_of}
use server_space_manager_ai.Api.Sessions
use server_space_manager_ai.Api.Sessions.{
  valid_session, new_session, run, login, logout, check, max_sessions,
}
use server_space_manager_ai.Api.Sessions.View.{issued, is_live, run-valid_session}
use server_space_manager_ai.Api.Sessions.Cap.{live, logins, length-new_session, run-logins_uncapped}
use server_space_manager_ai.Api.TokenBucket.{TokenBucket, take}
use server_space_manager_ai.Api.TokenBucket.Rate.{take_after_refill}
use server_space_manager_ai.Api.Triggers.{
  Reach, init, start, next, request, trigger, post_method, started, busy, occurs, State,
}
use server_space_manager_ai.Api.Triggers.Exclusive.{trigger_reply}
use server_space_manager_ai.Api.Dashboard.{
  FindingsCall, Snapshot, handle_findings, handle_summary, limit_of,
}
use server_space_manager_ai.Api.Dashboard.Feed.{IsAnswer, handle_findings-IsFeed}
use server_space_manager_ai.Api.Dashboard.Tops.{IsSummary, handle_summary-IsSummary}
use server_space_manager_ai.Llm.{Client, decoded}
use server_space_manager_ai.Api.Prompt.{PromptTexts}
use server_space_manager_ai.Api.Router.{HttpCall, Wiring, new_server, route_of}
use server_space_manager_ai.Api.Router.History.{
  Event, requested, job_ended, snapshot_set, model_requests,
}
use server_space_manager_ai.Api.Router.History.{run as run_server}
use server_space_manager_ai.Api.Router.Auth.{Guards, is_admitted, serve-Guards}
use server_space_manager_ai.Api.Router.Jobs.{run-one_job}
use server_space_manager_ai.Api.Router.Spending.{length-model_requests}

abbrev three_calls : List (ℕ × Sessions.Call)
three_calls = (1, login (some "a")) ∷ (2, login (some "b")) ∷ (5, logout "a") ∷ []

run-valid_session_example :
    (valid_session "b" 7 (run [] three_calls)).0 ≡ is_live 7 (issued "b" none three_calls)
run-valid_session_example =
    run-valid_session "b" 7 three_calls (λ e. cc)
      (omega arith, (omega arith, (omega arith, omega arith)))

length-new_session_example :
    (length (new_session (some "c") 9 []).1 ≤ max_sessions)
    ⊎ (length (new_session (some "c") 9 []).1 ≤ live 9 [] + 1)
length-new_session_example = length-new_session (some "c") 9 [] (inl (omega arith))

run-logins_uncapped_example : length (run [] (logins 4 ("a" ∷ "b" ∷ []))) ≡ 2
run-logins_uncapped_example = run-logins_uncapped 4 ("a" ∷ "b" ∷ []) ((refl, tt), (tt, tt))

abbrev empty_bucket : TokenBucket
empty_bucket = record { capacity = 5; tokens = 0; refill = 60; last = 100 }

take_after_refill_example : (take empty_bucket 170).0 ≡ true
take_after_refill_example =
    take_after_refill empty_bucket 170 (omega arith) (omega arith) (omega arith)

-- The state with one scan running.
abbrev scanning : State
scanning = record { running = put [] "scan" true; jobs = "scan" ∷ [] }

one_scan : Reach scanning
unfolding trigger put get
one_scan = next start (request init "scan" true post_method)

trigger_reply_example : trigger "scan" true post_method scanning.running ≡ (
    if occurs "scan" scanning.jobs == 0
    then (started, put scanning.running "scan" true)
    else (busy, scanning.running))
trigger_reply_example = trigger_reply one_scan "scan"

-- `?source=ai_review`
abbrev ai_call : FindingsCall
ai_call = record { limit = ""; source = "ai_review"; now = 604800000002000; readable = true }

handle_findings-IsFeed_example :
    IsAnswer two_scans ai_call
      (limit_of (λ v. none) "")
      (handle_findings insertion_sorter (λ v. none) (some two_scans) ai_call)
handle_findings-IsFeed_example =
    handle_findings-IsFeed insertion_sorter (λ v. none) two_scans ai_call refl

abbrev last_snapshot : Snapshot
last_snapshot = record {
  taken_at = 2000;
  sample_count = 3;
  alerts = [];
  samples = sample_of "fs" "/" (pos 10) 2000 ∷ two_scans.samples;
}

handle_summary-IsSummary_example :
    IsSummary whole_floats
      (λ e. pos 40)
      last_snapshot
      (handle_summary whole_floats (λ e. pos 40) insertion_sorter last_snapshot)
handle_summary-IsSummary_example =
    handle_summary-IsSummary whole_floats (λ e. pos 40) insertion_sorter last_snapshot

abbrev short_prompt : PromptTexts whole_floats
short_prompt = record {
  size = λ h. "1 B";
  tenth = λ x. "1.0";
  truncate = λ x. x;
  stamp = λ t. "now";
  minute = λ t. "now";
}

-- A model that answers every question.
abbrev helpful : Client
helpful = record {
  cfg = record {
    enabled = true;
    base_url = "http://llm/v1";
    model = "m";
    api_key = "";
    max_tokens = pos 0;
    timeout_seconds = pos 60;
  };
  timeout = pos 60000000000;
}

abbrev wiring : Wiring whole_floats short_prompt insertion_sorter
wiring = record {
  password = "secret";
  llm = some helpful;
  wired = λ kind. true;
  http = λ r. decoded (record {
    choices = record { role = "assistant"; content = "delete the old logs" } ∷ [];
    error = none;
  });
  trim_space = λ s. s;
  atoi = λ v. none;
  total_of = λ e. pos 40;
}

-- A POST of the password, or of a question.
abbrev post_at : ℕ → String → Option String → Option String → HttpCall
post_at t path cookie body = record {
  at = t;
  path = path;
  method = post_method;
  cookie = cookie;
  form = body;
  rand = some "a";
  limit = "";
  source = "";
  question = body;
  readable = true;
  queries = record {
    reads_growth = λ kind. true;
    reads_anomalies = λ kind. false;
    reads_findings = true;
  };
}

-- A login, a scan that is started, and a question.
abbrev morning : List Event
morning =
    requested (post_at 2000 "/login" none (some "secret")) none
    ∷ requested (post_at 2001 "/api/trigger/scan" (some "a") none) none
    ∷ snapshot_set last_snapshot
    ∷ requested (post_at 2002 "/api/ask" (some "a") (some "what grows?")) (some two_scans)
    ∷ job_ended "scan"
    ∷ []

serve-Guards_example :
    Guards whole_floats short_prompt insertion_sorter wiring none
      (post_at 2003 "/api/summary" (some "a") none)
      (run_server whole_floats short_prompt insertion_sorter wiring (new_server 1000) morning)
      (is_admitted whole_floats short_prompt insertion_sorter wiring morning 2003 (some "a"))
unfolding route_of
serve-Guards_example =
    serve-Guards whole_floats short_prompt insertion_sorter wiring 1000 morning none
      (post_at 2003 "/api/summary" (some "a") none) (λ e. cc) (λ e. cc) refl
      (omega arith, (omega arith, (omega arith, omega arith)))

run-one_job_example :
    occurs "scan"
      (run_server whole_floats short_prompt insertion_sorter wiring
        (new_server 1000)
        morning).triggers.jobs
    ≤ 1
run-one_job_example =
    run-one_job whole_floats short_prompt insertion_sorter wiring 1000 morning "scan"

length-model_requests_example :
    length
        (model_requests whole_floats short_prompt insertion_sorter wiring (new_server 1000) morning)
      * 10000000000
    ≤ 5 * 10000000000 + (3000 - 1000)
length-model_requests_example =
    length-model_requests whole_floats short_prompt insertion_sorter wiring 1000 3000 morning
      (omega arith, (omega arith, (omega arith, omega arith)))
