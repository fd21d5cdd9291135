-- ===== src/Api/Router/Auth.antt =====
-- Who gets past auth, in the whole Server.
use server_space_manager_ai.Prelude.{
  ℕ, ◌≡◌, ◌≢◌, refl, sym, ap, ◌∙◌, String, Bool, true, false, Option, none, some, List, [], ◌∷◌,
  starts_with, if◌then◌else◌, Bool-cases, inl, inr,
}
use mathlib.Core.List.{append-nil}
use server_space_manager_ai.Prelude.Floats.{Floats}
use server_space_manager_ai.Prelude.Sorting.{Sorter}
use server_space_manager_ai.Store.{Db}
use server_space_manager_ai.Api.Gate.{
  page, Response, served, unauthorized, to_login, to_dashboard, form, incorrect, bad_form,
  internal_error, logged_in, refusal, auth, handle, handle_all,
}
use server_space_manager_ai.Api.Gate.Guarded.{calls, handle_guarded}
use server_space_manager_ai.Api.Sessions.View.{issued, is_live}
use server_space_manager_ai.Api.Prompt.{PromptTexts}
use server_space_manager_ai.Api.Router.{
  Route, dashboard, summary, findings, ask, login, logout, health, trigger_of, route_of, HttpCall,
  Server, gated, Served, Wiring, behind_auth, guarded, with_sessions, behind, serve_route, serve,
  respond, new_server,
}
use server_space_manager_ai.Api.Router.History.{
  IsOrdered, Event, requested, job_ended, snapshot_set, step, run,
}
use server_space_manager_ai.Api.Router.Calls.{
  gate_call, gate_calls, handle_all-append, gate_calls_head, gate_calls-IsOrdered,
}

abbrev pub is_open : Route → Bool
is_open login = true
is_open logout = true
is_open health = true
is_open _ = false

module _ (F : Floats) (P : PromptTexts F) (sorter : Sorter) (w : Wiring F P sorter) where
  behind_auth-sessions :
      (store : Option Db) (c : HttpCall) (s : Server) (r : Route)
      → (behind_auth F P sorter w store c s r).1.sessions ≡ s.sessions
  unfolding behind_auth
  behind_auth-sessions store c s dashboard = refl
  behind_auth-sessions store c s summary = refl
  behind_auth-sessions store c s findings = refl
  behind_auth-sessions store c s ask = refl
  behind_auth-sessions store c s login = refl
  behind_auth-sessions store c s logout = refl
  behind_auth-sessions store c s health = refl
  behind_auth-sessions store c s (trigger_of kind) = refl

  guarded-sessions :
      (store : Option Db) (c : HttpCall) (s : Server) (r : Route) (response : Response)
      → (guarded F P sorter w store c s r response).1.sessions ≡ s.sessions
  guarded-sessions store c s r served = behind_auth-sessions store c s r
  guarded-sessions store c s r unauthorized = refl
  guarded-sessions store c s r to_login = refl
  guarded-sessions store c s r to_dashboard = refl
  guarded-sessions store c s r form = refl
  guarded-sessions store c s r incorrect = refl
  guarded-sessions store c s r bad_form = refl
  guarded-sessions store c s r internal_error = refl
  guarded-sessions store c s r (logged_in tok) = refl

  behind-sessions :
      (store : Option Db) (c : HttpCall) (s : Server) (r : Route)
      → (behind F P sorter w store c s r).1.sessions
        ≡ handle_all w.password ((c.at, page c.path c.cookie) ∷ []) s.sessions
  unfolding handle_all handle
  behind-sessions store c s r =
      let (response, sessions) = auth w.password c.path c.cookie c.at s.sessions in
      guarded-sessions store c (with_sessions s sessions) r response

  serve_route-sessions :
      (store : Option Db) (c : HttpCall) (s : Server) (r : Route)
      → (serve_route F P sorter w store c s r).1.sessions
        ≡ handle_all w.password (gate_call c r) s.sessions
  unfolding serve_route handle_all
  serve_route-sessions store c s login = refl
  serve_route-sessions store c s logout = refl
  serve_route-sessions store c s health = refl
  serve_route-sessions store c s dashboard = behind-sessions store c s dashboard
  serve_route-sessions store c s summary = behind-sessions store c s summary
  serve_route-sessions store c s findings = behind-sessions store c s findings
  serve_route-sessions store c s ask = behind-sessions store c s ask
  serve_route-sessions store c s (trigger_of kind) = behind-sessions store c s (trigger_of kind)

  step-sessions :
      (s : Server) (e : Event)
      → (step F P sorter w s e).sessions ≡ handle_all w.password (gate_calls (e ∷ [])) s.sessions
  unfolding step serve handle_all
  step-sessions s (requested c store) =
      serve_route-sessions store c s (route_of c.path)
      ∙ ap (λ cs. handle_all w.password cs s.sessions)
          (sym (append-nil (gate_call c (route_of c.path))))
  step-sessions s (job_ended kind) = refl
  step-sessions s (snapshot_set snap) = refl

  run-sessions :
      (s : Server) (es : List Event)
      → (run F P sorter w s es).sessions ≡ handle_all w.password (gate_calls es) s.sessions
  unfolding run handle_all
  run-sessions s [] = refl
  run-sessions s (e ∷ es) =
      run-sessions (step F P sorter w s e) es
      ∙ ap (handle_all w.password (gate_calls es)) (step-sessions s e)
      ∙ sym (handle_all-append w.password (gate_calls (e ∷ [])) (gate_calls es) s.sessions)
      ∙ ap (λ cs. handle_all w.password cs s.sessions) (sym (gate_calls_head e es))

  serve_route-behind :
      (store : Option Db) (c : HttpCall) (s : Server) (r : Route)
      → is_open r ≡ false
      → serve_route F P sorter w store c s r ≡ behind F P sorter w store c s r
  unfolding serve_route
  serve_route-behind store c s login h = absurd cc
  serve_route-behind store c s logout h = absurd cc
  serve_route-behind store c s health h = absurd cc
  serve_route-behind store c s dashboard h = refl
  serve_route-behind store c s summary h = refl
  serve_route-behind store c s findings h = refl
  serve_route-behind store c s ask h = refl
  serve_route-behind store c s (trigger_of kind) h = refl

  -- The server's refusal of a request.
  abbrev pub refused : HttpCall → Server → Served F P sorter × Server
  refused c s = (respond F P sorter (gated (refusal c.path)), s)

  guarded-if :
      (store : Option Db) (c : HttpCall) (s : Server) (r : Route) (b : Bool)
      → guarded F P sorter w store c s r (if b then served else refusal c.path)
        ≡ (if b then behind_auth F P sorter w store c s r else refused c s)
  guarded-if store c s r true = refl
  guarded-if store c s r false = elim (Bool-cases (starts_with c.path "/api/")) [
    | inl h ↦ rw h refl
    | inr h ↦ rw h refl
  ]

  -- What is done for a request behind auth, by whether its cookie is live.
  abbrev pub Guards : Option Db → HttpCall → Server → Bool → Type 0
  Guards store c s live =
      let after = with_sessions s (auth w.password c.path c.cookie c.at s.sessions).1 in
      serve F P sorter w store c s
      ≡ (if live then behind_auth F P sorter w store c after (route_of c.path) else refused c after)

  -- Whether a cookie is one that the events left live.
  abbrev pub is_admitted : List Event → ℕ → Option String → Bool
  is_admitted es now none = false
  is_admitted es now (some tok) = is_live now (issued tok none (calls w.password (gate_calls es)))

  auth-admitted :
      (start : ℕ) (es : List Event) (path : String) (now : ℕ) (cookie : Option String)
      → w.password ≢ ""
      → cookie ≢ some ""
      → IsOrdered 0 es now
      → (auth w.password path cookie now (run F P sorter w (new_server start) es).sessions).0
        ≡ (if is_admitted es now cookie then served else refusal path)
  unfolding handle new_server
  auth-admitted start es path now none p k o =
      ap (λ m. (auth w.password path none now m).0) (run-sessions (new_server start) es)
      ∙ (handle_guarded w.password path "x" now (gate_calls es) p (λ e. cc)
          (gate_calls-IsOrdered w.password 0 now es o)).1
  auth-admitted start es path now (some tok) p k o =
      ap (λ m. (auth w.password path (some tok) now m).0) (run-sessions (new_server start) es)
      ∙ (handle_guarded w.password path tok now (gate_calls es) p (λ e. k (ap some e))
          (gate_calls-IsOrdered w.password 0 now es o)).0

  -- For a server with a password that has handled any requests, in order of time, ends of jobs and
  -- new snapshots: a request after them to a route other than the login, the logout and the health
  -- check, with any cookie but the empty text, is answered by its handler if the cookie is one
  -- that a login issued and that no logout or expiry has made void since, and else is refused, and
  -- the refusal changes nothing but the session map.
  pub serve-Guards :
      (start : ℕ) (es : List Event) (store : Option Db) (c : HttpCall)
      → w.password ≢ ""
      → c.cookie ≢ some ""
      → is_open (route_of c.path) ≡ false
      → IsOrdered 0 es c.at
      → Guards store c (run F P sorter w (new_server start) es) (is_admitted es c.at c.cookie)
  unfolding serve
  serve-Guards start es store c p k h o =
      let s = run F P sorter w (new_server start) es in
      let after = with_sessions s (auth w.password c.path c.cookie c.at s.sessions).1 in
      serve_route-behind store c s (route_of c.path) h
      ∙ ap (guarded F P sorter w store c after (route_of c.path))
          (auth-admitted start es c.path c.at c.cookie p k o)
      ∙ guarded-if store c after (route_of c.path) (is_admitted es c.at c.cookie)
