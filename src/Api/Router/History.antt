-- ===== src/Api/Router/History.antt =====
-- Histories of the Server: requests, the ends of jobs and new snapshots, one after the other.
use server_space_manager_ai.Prelude.{
  ℕ, ◌≤◌, String, Option, List, [], ◌∷◌, ◌++◌, ltb, if◌then◌else◌,
}
use server_space_manager_ai.Prelude.Floats.{Floats}
use server_space_manager_ai.Prelude.Sorting.{Sorter}
use server_space_manager_ai.Store.{Db}
use server_space_manager_ai.Api.Dashboard.{Snapshot}
use server_space_manager_ai.Api.Triggers.{State, finish, drop_one, occurs}
use server_space_manager_ai.Api.Prompt.{PromptTexts}
use server_space_manager_ai.Api.Router.{HttpCall, Server, Wiring, serve}
use server_space_manager_ai.Llm.{HttpRequest}

-- A request, with what the database holds then; the end of a job; and SetSnapshot.
pub data Event : Type 0 where
  requested : HttpCall → Option Db → Event
  job_ended : String → Event
  snapshot_set : Snapshot → Event

-- the end of a job that runs
abbrev pub end_job : String → State → State
end_job kind t =
    if ltb 0 (occurs kind t.jobs)
    then record { running = finish kind t.running; jobs = drop_one kind t.jobs }
    else t

-- The requests do not come before one another, nor before `t`, nor after `end`.
abbrev pub IsOrdered : ℕ → List Event → ℕ → Type 0
IsOrdered t [] end = t ≤ end
IsOrdered t (requested c store ∷ es) end = (t ≤ c.at) × IsOrdered c.at es end
IsOrdered t (job_ended kind ∷ es) end = IsOrdered t es end
IsOrdered t (snapshot_set snap ∷ es) end = IsOrdered t es end

module _ (F : Floats) (P : PromptTexts F) (sorter : Sorter) (w : Wiring F P sorter) where
  unfoldable pub step : Server → Event → Server
  unfolding serve finish
  step s (requested c store) = (serve F P sorter w store c s).1
  step s (job_ended kind) = record s { triggers = end_job kind s.triggers }
  step s (snapshot_set snap) = record s { snap = snap }

  unfoldable pub run : Server → List Event → Server
  unfolding step
  run s [] = s
  run s (e ∷ es) = run (step s e) es

  abbrev pub requests_at : Server → Event → List HttpRequest
  requests_at s (requested c store) = (serve F P sorter w store c s).0.requests
  requests_at s (job_ended kind) = []
  requests_at s (snapshot_set snap) = []

  -- the requests to the model that are made on the way
  unfoldable pub model_requests : Server → List Event → List HttpRequest
  unfolding serve
  model_requests s [] = []
  model_requests s (e ∷ es) = requests_at s e ++ model_requests (step s e) es
