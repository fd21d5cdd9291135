-- ===== src/Api/Router/Jobs.antt =====
-- The jobs of the whole Server.
use server_space_manager_ai.Prelude.{
  ℕ, ◌≤◌, ◌-◌, Option, String, List, [], ◌∷◌, arith, ltb, ltb→lt, Bool-cases, inl, inr,
}
use server_space_manager_ai.Prelude.Floats.{Floats}
use server_space_manager_ai.Prelude.Sorting.{Sorter}
use server_space_manager_ai.Store.{Db}
use server_space_manager_ai.Api.Gate.{
  Response, served, unauthorized, to_login, to_dashboard, form, incorrect, bad_form, internal_error,
  logged_in, auth,
}
use server_space_manager_ai.Api.Triggers.{State, Reach, start, next, request, ends, occurs}
use server_space_manager_ai.Api.Triggers.Exclusive.{Reach-one_job}
use server_space_manager_ai.Api.Prompt.{PromptTexts}
use server_space_manager_ai.Api.Router.{
  Route, dashboard, summary, findings, ask, login, logout, health, trigger_of, route_of, HttpCall,
  Server, Wiring, new_server, behind_auth, guarded, with_sessions, behind, serve_route, serve,
}
use server_space_manager_ai.Api.Router.History.{
  Event, requested, job_ended, snapshot_set, end_job, step, run,
}

end_job-Reach : (kind : String) (t : State) → Reach t → Reach (end_job kind t)
end_job-Reach kind t r = elim (Bool-cases (ltb 0 (occurs kind t.jobs))) [
  | inl h ↦ rw h (next r (ends t kind (occurs kind t.jobs - 1) (omega (arith, ltb→lt _ _ h))))
  | inr h ↦ rw h r
]

module _ (F : Floats) (P : PromptTexts F) (sorter : Sorter) (w : Wiring F P sorter) where
  behind_auth-Reach :
      (store : Option Db) (c : HttpCall) (s : Server) (r : Route)
      → Reach s.triggers
      → Reach (behind_auth F P sorter w store c s r).1.triggers
  unfolding behind_auth
  behind_auth-Reach store c s dashboard h = h
  behind_auth-Reach store c s summary h = h
  behind_auth-Reach store c s findings h = h
  behind_auth-Reach store c s ask h = h
  behind_auth-Reach store c s login h = h
  behind_auth-Reach store c s logout h = h
  behind_auth-Reach store c s health h = h
  behind_auth-Reach store c s (trigger_of kind) h =
      next h (request s.triggers kind (w.wired kind) c.method)

  guarded-Reach :
      (store : Option Db) (c : HttpCall) (s : Server) (r : Route) (response : Response)
      → Reach s.triggers
      → Reach (guarded F P sorter w store c s r response).1.triggers
  guarded-Reach store c s r served h = behind_auth-Reach store c s r h
  guarded-Reach store c s r unauthorized h = h
  guarded-Reach store c s r to_login h = h
  guarded-Reach store c s r to_dashboard h = h
  guarded-Reach store c s r form h = h
  guarded-Reach store c s r incorrect h = h
  guarded-Reach store c s r bad_form h = h
  guarded-Reach store c s r internal_error h = h
  guarded-Reach store c s r (logged_in tok) h = h

  behind-Reach :
      (store : Option Db) (c : HttpCall) (s : Server) (r : Route)
      → Reach s.triggers
      → Reach (behind F P sorter w store c s r).1.triggers
  behind-Reach store c s r h =
      let (response, sessions) = auth w.password c.path c.cookie c.at s.sessions in
      guarded-Reach store c (with_sessions s sessions) r response h

  serve_route-Reach :
      (store : Option Db) (c : HttpCall) (s : Server) (r : Route)
      → Reach s.triggers
      → Reach (serve_route F P sorter w store c s r).1.triggers
  unfolding serve_route
  serve_route-Reach store c s login h = h
  serve_route-Reach store c s logout h = h
  serve_route-Reach store c s health h = h
  serve_route-Reach store c s dashboard h = behind-Reach store c s dashboard h
  serve_route-Reach store c s summary h = behind-Reach store c s summary h
  serve_route-Reach store c s findings h = behind-Reach store c s findings h
  serve_route-Reach store c s ask h = behind-Reach store c s ask h
  serve_route-Reach store c s (trigger_of kind) h = behind-Reach store c s (trigger_of kind) h

  run-Reach :
      (s : Server) (es : List Event) → Reach s.triggers → Reach (run F P sorter w s es).triggers
  unfolding run step serve
  run-Reach s [] h = h
  run-Reach s (requested c store ∷ es) h =
      run-Reach (step F P sorter w s (requested c store)) es
        (serve_route-Reach store c s (route_of c.path) h)
  run-Reach s (job_ended kind ∷ es) h =
      run-Reach (step F P sorter w s (job_ended kind)) es (end_job-Reach kind s.triggers h)
  run-Reach s (snapshot_set snap ∷ es) h = run-Reach (step F P sorter w s (snapshot_set snap)) es h

  -- Whatever requests, ends of jobs and new snapshots the server has handled since its start, at
  -- most one job of each kind runs.
  pub run-one_job :
      (begin : ℕ) (es : List Event) (kind : String)
      → occurs kind (run F P sorter w (new_server begin) es).triggers.jobs ≤ 1
  unfolding new_server
  run-one_job begin es kind = Reach-one_job (run-Reach (new_server begin) es start) kind
