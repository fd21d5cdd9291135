-- ===== src/Api/Router/Spending.antt =====
-- The requests to the model that the whole Server makes.
use server_space_manager_ai.Prelude.{
  ℕ, ◌≤◌, ◌-◌, ◌+◌, ◌*◌, ◌≡◌, refl, ap, Option, List, [], ◌∷◌, arith, length, length-append,
  Bool-cases, inl, inr,
}
use server_space_manager_ai.Prelude.Floats.{Floats}
use server_space_manager_ai.Prelude.Sorting.{Sorter}
use server_space_manager_ai.Store.{Db}
use server_space_manager_ai.Api.Gate.{
  Response, served, unauthorized, to_login, to_dashboard, form, incorrect, bad_form, internal_error,
  logged_in, auth,
}
use server_space_manager_ai.Api.TokenBucket.{TokenBucket, take, new_token_bucket}
use server_space_manager_ai.Api.TokenBucket.Rate.{IsValid, take-IsSpent}
use server_space_manager_ai.Api.Ask.{AskCall, AskServer, ask_limit, rate_limit}
use server_space_manager_ai.Api.Ask.Spending.{handle_ask-length}
use server_space_manager_ai.Api.Prompt.{PromptTexts}
use server_space_manager_ai.Api.Router.{
  Route, dashboard, summary, findings, ask, login, logout, health, trigger_of, route_of, HttpCall,
  Server, Served, Wiring, ask_server, ask_call, new_server, behind_auth, guarded, with_sessions,
  behind, serve_route, serve,
}
use server_space_manager_ai.Api.Router.History.{
  Event, requested, job_ended, snapshot_set, IsOrdered, step, requests_at, model_requests,
}

-- `n` requests are paid for by the tokens of a bucket and by the time that its `last` moves on.
record IsPaid (b : TokenBucket) (now n : ℕ) (after : TokenBucket) : Type 0 where
  valid : IsValid after now
  refill_kept : after.refill ≡ b.refill
  paid : n * b.refill + after.tokens * b.refill + b.last ≤ b.tokens * b.refill + after.last

unpaid-IsPaid : (b : TokenBucket) (now : ℕ) → IsValid b now → IsPaid b now 0 b
unpaid-IsPaid b now v = record { valid = v; refill_kept = refl; paid = omega arith }

at_most : (n k r : ℕ) → n ≤ k → n * r ≤ k * r
at_most n k r h = grind arith

both_paid :
    (k n r r' t t' l l' end : ℕ)
    → r' ≡ r
    → n * r' + l' ≤ t' * r' + end
    → k * r + t' * r + l ≤ t * r + l'
    → (k + n) * r + l ≤ t * r + end
both_paid k n r r' t t' l l' end e h i =
    let h' : n * r + l' ≤ t' * r + end = rw e at h in omega (arith, h', i)

module _ (F : Floats) (P : PromptTexts F) (sorter : Sorter) where
  rate_limit-IsPaid :
      (s : AskServer F P sorter) (call : AskCall) (b : TokenBucket)
      → IsValid b call.at
      → IsPaid b call.at
          (length (rate_limit F P sorter s call b).0.requests)
          (rate_limit F P sorter s call b).1
  unfolding rate_limit
  rate_limit-IsPaid s call b v =
      let spent = take-IsSpent b call.at v in
      record {
        valid = spent.valid;
        refill_kept = spent.refill_kept;
        paid = elim (Bool-cases (take b call.at).0) [
          | inl given ↦
              let paid = rw given at spent.paid in
              let one = at_most _ 1 b.refill (handle_ask-length F P sorter s call) in
              rw given (omega (arith, paid, one))
          | inr refused ↦ let paid = rw refused at spent.paid in rw refused (omega (arith, paid))
        ];
      }

  module _ (w : Wiring F P sorter) where
    abbrev ArePaid : Server → ℕ → Served F P sorter × Server → Type 0
    ArePaid s now result = IsPaid s.ask_bucket now (length result.0.requests) result.1.ask_bucket

    behind_auth-ArePaid :
        (store : Option Db) (c : HttpCall) (s : Server) (r : Route)
        → IsValid s.ask_bucket c.at
        → ArePaid s c.at (behind_auth F P sorter w store c s r)
    unfolding behind_auth
    behind_auth-ArePaid store c s dashboard v = unpaid-IsPaid s.ask_bucket c.at v
    behind_auth-ArePaid store c s summary v = unpaid-IsPaid s.ask_bucket c.at v
    behind_auth-ArePaid store c s findings v = unpaid-IsPaid s.ask_bucket c.at v
    behind_auth-ArePaid store c s ask v =
        rate_limit-IsPaid (ask_server F P sorter w s store) (ask_call c) s.ask_bucket v
    behind_auth-ArePaid store c s login v = unpaid-IsPaid s.ask_bucket c.at v
    behind_auth-ArePaid store c s logout v = unpaid-IsPaid s.ask_bucket c.at v
    behind_auth-ArePaid store c s health v = unpaid-IsPaid s.ask_bucket c.at v
    behind_auth-ArePaid store c s (trigger_of kind) v = unpaid-IsPaid s.ask_bucket c.at v

    guarded-ArePaid :
        (store : Option Db) (c : HttpCall) (s : Server) (r : Route) (response : Response)
        → IsValid s.ask_bucket c.at
        → ArePaid s c.at (guarded F P sorter w store c s r response)
    guarded-ArePaid store c s r served v = behind_auth-ArePaid store c s r v
    guarded-ArePaid store c s r unauthorized v = unpaid-IsPaid s.ask_bucket c.at v
    guarded-ArePaid store c s r to_login v = unpaid-IsPaid s.ask_bucket c.at v
    guarded-ArePaid store c s r to_dashboard v = unpaid-IsPaid s.ask_bucket c.at v
    guarded-ArePaid store c s r form v = unpaid-IsPaid s.ask_bucket c.at v
    guarded-ArePaid store c s r incorrect v = unpaid-IsPaid s.ask_bucket c.at v
    guarded-ArePaid store c s r bad_form v = unpaid-IsPaid s.ask_bucket c.at v
    guarded-ArePaid store c s r internal_error v = unpaid-IsPaid s.ask_bucket c.at v
    guarded-ArePaid store c s r (logged_in tok) v = unpaid-IsPaid s.ask_bucket c.at v

    behind-ArePaid :
        (store : Option Db) (c : HttpCall) (s : Server) (r : Route)
        → IsValid s.ask_bucket c.at
        → ArePaid s c.at (behind F P sorter w store c s r)
    behind-ArePaid store c s r v =
        let (response, sessions) = auth w.password c.path c.cookie c.at s.sessions in
        guarded-ArePaid store c (with_sessions s sessions) r response v

    serve_route-ArePaid :
        (store : Option Db) (c : HttpCall) (s : Server) (r : Route)
        → IsValid s.ask_bucket c.at
        → ArePaid s c.at (serve_route F P sorter w store c s r)
    unfolding serve_route
    serve_route-ArePaid store c s login v = unpaid-IsPaid s.ask_bucket c.at v
    serve_route-ArePaid store c s logout v = unpaid-IsPaid s.ask_bucket c.at v
    serve_route-ArePaid store c s health v = unpaid-IsPaid s.ask_bucket c.at v
    serve_route-ArePaid store c s dashboard v = behind-ArePaid store c s dashboard v
    serve_route-ArePaid store c s summary v = behind-ArePaid store c s summary v
    serve_route-ArePaid store c s findings v = behind-ArePaid store c s findings v
    serve_route-ArePaid store c s ask v = behind-ArePaid store c s ask v
    serve_route-ArePaid store c s (trigger_of kind) v = behind-ArePaid store c s (trigger_of kind) v

    model_requests_paid :
        (s : Server) (es : List Event) (now end : ℕ)
        → IsValid s.ask_bucket now
        → IsOrdered now es end
        → length (model_requests F P sorter w s es) * s.ask_bucket.refill + s.ask_bucket.last
          ≤ s.ask_bucket.tokens * s.ask_bucket.refill + end
    unfolding model_requests step serve
    model_requests_paid s [] now end v o = omega (arith, v.past, o)
    model_requests_paid s (requested c store ∷ es) now end v o =
        let v' : IsValid s.ask_bucket c.at = record {
          within = v.within;
          past = omega (arith, v.past, o.0);
          period = v.period;
        } in
        let here = serve_route-ArePaid store c s (route_of c.path) v' in
        let after = step F P sorter w s (requested c store) in
        let rest = model_requests_paid after es c.at end here.valid o.1 in
        let now_made = requests_at F P sorter w s (requested c store) in
        let later = model_requests F P sorter w after es in
        let all = ap (λ (k : ℕ). k * s.ask_bucket.refill) (length-append now_made later) in
        omega (
          arith,
          all,
          both_paid (length now_made) (length later) s.ask_bucket.refill after.ask_bucket.refill
              s.ask_bucket.tokens after.ask_bucket.tokens s.ask_bucket.last after.ask_bucket.last
              end here.refill_kept rest here.paid,
        )
    model_requests_paid s (job_ended kind ∷ es) now end v o =
        model_requests_paid (step F P sorter w s (job_ended kind)) es now end v o
    model_requests_paid s (snapshot_set snap ∷ es) now end v o =
        model_requests_paid (step F P sorter w s (snapshot_set snap)) es now end v o

    -- For a server that handles any requests to any routes, in order of time from its start to an
    -- end, ends of jobs and new snapshots: the requests to the model for /api/ask number at most
    -- five and one for each ten seconds from the start to the end.
    pub length-model_requests :
        (start end : ℕ) (es : List Event)
        → IsOrdered start es end
        → length (model_requests F P sorter w (new_server start) es) * 10000000000
          ≤ 5 * 10000000000 + (end - start)
    unfolding new_server ask_limit new_token_bucket
    length-model_requests start end es o =
        let v : IsValid (ask_limit start) start = record {
          within = omega arith;
          past = omega arith;
          period = omega arith;
        } in
        omega (arith, model_requests_paid (new_server start) es start end v o)
