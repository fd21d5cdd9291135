-- ===== src/Api/Triggers.antt =====
-- triggerHandler of internal/api/server.go. The map `running` is guarded by a mutex: the test and
-- the write of a request are one step, and the delete at the end of a job another. The jobs that
-- were started and have not ended, with their goroutines, are the environment's side of the state.
pub mod Exclusive
use server_space_manager_ai.Prelude.{
  ℕ, suc, ◌≡◌, String, Bool, true, false, Option, none, some, List, [], ◌∷◌, str_eq, if◌then◌else◌,
}
use server_space_manager_ai.Prelude.Dict.{Dict, get, put, remove}

pub data Method : Type 0 where
  get_method post_method other_method : Method

abbrev pub is_post : Method → Bool
is_post post_method = true
is_post _ = false

-- `s.running[kind]`: false for a missing key
abbrev pub flag : Option Bool → Bool
flag none = false
flag (some b) = b

-- What triggerHandler answers.
pub data Reply : Type 0 where
  method_not_allowed unavailable busy started : Reply

unfoldable pub status : Reply → ℕ
status method_not_allowed = 405
status unavailable = 503
status busy = 409
status started = 202

-- triggerHandler(kind, fn), where `wired` is `fn != nil`: the reply and the map. A job starts
-- exactly with the reply `started`.
unfoldable pub trigger : String → Bool → Method → Dict Bool → Reply × Dict Bool
trigger kind wired method running =
    if is_post method
    then if wired
      then if flag (get running kind) then (busy, running) else (started, put running kind true)
      else (unavailable, running)
    else (method_not_allowed, running)

-- the deferred function at the end of a job
unfoldable pub finish : String → Dict Bool → Dict Bool
finish kind running = remove running kind

pub record State : Type 0 where
  pub running : Dict Bool
  pub jobs : List String

abbrev pub init : State
init = record { running = []; jobs = [] }

abbrev pub after_request : String → State → Reply × Dict Bool → State
after_request kind s (started, running) = record { running = running; jobs = kind ∷ s.jobs }
after_request kind s (_, running) = record s { running = running }

-- one job of this kind ends
abbrev pub drop_one : String → List String → List String
drop_one kind [] = []
drop_one kind (j ∷ js) = let rest = j ∷ drop_one kind js in if str_eq j kind then js else rest

abbrev pub occurs : String → List String → ℕ
occurs kind [] = 0
occurs kind (j ∷ js) = let rest = occurs kind js in if str_eq j kind then suc rest else rest

-- Requests and the ends of jobs, in any order.
pub data Step : State → State → Type 0 where
  request :
      (s : State) (kind : String) (wired : Bool) (method : Method)
      → Step s (after_request kind s (trigger kind wired method s.running))
  ends :
      (s : State) (kind : String) (n : ℕ)
      → occurs kind s.jobs ≡ suc n
      → Step s (record { running = finish kind s.running; jobs = drop_one kind s.jobs })

pub data Reach : State → Type 0 where
  start : Reach init
  next : {s t : State} → Reach s → Step s t → Reach t
