-- ===== src/Api/Triggers/Exclusive.antt =====
-- At most one job of each kind runs, whatever the requests and however they fall.
use server_space_manager_ai.Prelude.{
  ℕ, suc, ◌≤◌, ◌≡◌, refl, String, Bool, true, List, [], ◌∷◌, arith, str_eq, eq_iff, if◌then◌else◌,
  ◌==◌,
}
use server_space_manager_ai.Prelude.Dict.{get, put, get-put, get-remove}
use server_space_manager_ai.Api.Triggers.{
  Method, post_method, busy, started, flag, trigger, finish, State, after_request, drop_one, occurs,
  Step, request, ends, Reach, start, next,
}

-- A kind is marked exactly while one job of it runs, and no kind has two.
abbrev IsExact : State → Type 0
IsExact s = (kind : String) → occurs kind s.jobs ≡ (if flag (get s.running kind) then 1 else 0)

occurs-drop_one :
    (kind k : String) (js : List String) (n : ℕ)
    → occurs kind js ≡ suc n
    → occurs k (drop_one kind js) ≡ (if str_eq kind k then n else occurs k js)
occurs-drop_one kind k [] n h = absurd (omega arith)
occurs-drop_one kind k (j ∷ js) n h =
    ground (arith, occurs-drop_one kind k js n, eq_iff j kind, eq_iff j k, eq_iff kind k)

request-IsExact :
    (s : State) (kind : String) (wired : Bool) (method : Method)
    → IsExact s
    → IsExact (after_request kind s (trigger kind wired method s.running))
unfolding trigger
request-IsExact s kind wired method x k =
    ground (arith, x k, x kind, get-put s.running kind k true, eq_iff kind k)

ends-IsExact :
    (s : State) (kind : String) (n : ℕ)
    → occurs kind s.jobs ≡ suc n
    → IsExact s
    → IsExact (record { running = finish kind s.running; jobs = drop_one kind s.jobs })
unfolding finish
ends-IsExact s kind n h x k = ground (
  arith,
  x k,
  x kind,
  occurs-drop_one kind k s.jobs n h,
  get-remove s.running kind k,
  eq_iff kind k,
)

Step-IsExact : {s t : State} → Step s t → IsExact s → IsExact t
Step-IsExact (request s kind wired method) x = request-IsExact s kind wired method x
Step-IsExact (ends s kind n h) x = ends-IsExact s kind n h x

Reach-IsExact : {s : State} → Reach s → IsExact s
unfolding get
Reach-IsExact start = λ kind. refl
Reach-IsExact (next r st) = Step-IsExact st (Reach-IsExact r)

-- In every state that requests and ends of jobs can lead to, at most one job of each kind runs.
pub Reach-one_job : {s : State} → Reach s → (kind : String) → occurs kind s.jobs ≤ 1
Reach-one_job r kind = ground (arith, Reach-IsExact r kind)

-- In every reachable state a POST for a wired trigger starts a job and marks its kind if no job of
-- the kind runs, and is told that it is busy, with the map left as it is, if one does.
pub trigger_reply :
    {s : State}
    → Reach s
    → (kind : String)
    → trigger kind true post_method s.running
      ≡ (if occurs kind s.jobs == 0 then (started, put s.running kind true) else (busy, s.running))
unfolding trigger
trigger_reply r kind = ground (arith, Reach-IsExact r kind)
