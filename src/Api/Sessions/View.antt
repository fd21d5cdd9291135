-- ===== src/Api/Sessions/View.antt =====
-- What a client of the session map can see, against a specification that only looks at the calls.
use server_space_manager_ai.Prelude.{
  ℕ, ◌+◌, ◌≤◌, String, ◌≡◌, ◌≢◌, refl, Bool, false, Option, none, some, List, [], ◌∷◌, arith, leb,
  str_eq, eq_iff, length, if◌then◌else◌, Bool-cases, inl, inr,
}
use server_space_manager_ai.Prelude.Dict.{
  Dict, get, sweep, IsUnique, get-put, get-remove, get-sweep, put-IsUnique, remove-IsUnique,
  sweep-IsUnique,
}
use server_space_manager_ai.Api.Sessions.{
  Call, login, check, logout, is_expired, session_ttl, max_sessions, valid_session, step, run,
}

-- The specification: when the last login that gave `tok` runs out, unless a logout came since.
abbrev issued_by : String → Option ℕ → ℕ × Call → Option ℕ
issued_by tok e (now, login none) = e
issued_by tok e (now, login (some t)) = if str_eq t tok then some (now + session_ttl) else e
issued_by tok e (now, check t) = e
issued_by tok e (now, logout t) = if str_eq t tok then none else e

abbrev pub issued : String → Option ℕ → List (ℕ × Call) → Option ℕ
issued tok e [] = e
issued tok e (c ∷ cs) = issued tok (issued_by tok e c) cs

abbrev pub is_live : ℕ → Option ℕ → Bool
is_live now none = false
is_live now (some exp) = leb now exp

-- The clock does not run backwards from `t` to `end`, through the calls.
abbrev pub IsOrdered : ℕ → List (ℕ × Call) → ℕ → Type 0
IsOrdered t [] end = t ≤ end
IsOrdered t (c ∷ cs) end = (t ≤ c.0) × IsOrdered c.0 cs end

-- From `now` on, the map answers for `tok` as the specification does.
abbrev Agrees : String → ℕ → Dict ℕ → Option ℕ → Type 0
Agrees tok now m e = (t : ℕ) → now ≤ t → is_live t (get m tok) ≡ is_live t e

step-IsUnique : (m : Dict ℕ) (c : ℕ × Call) → IsUnique m → IsUnique (step m c)
unfolding step
step-IsUnique m (now, login none) u = u
step-IsUnique m (now, login (some tok)) u = elim (Bool-cases (leb max_sessions (length m))) [
  | inl h ↦ rw h (put-IsUnique _ tok _ (sweep-IsUnique (is_expired now) m u))
  | inr h ↦ rw h (put-IsUnique m tok _ u)
]
step-IsUnique m (now, check tok) u = ground (arith, remove-IsUnique m tok u)
step-IsUnique m (now, logout tok) u = remove-IsUnique m tok u

step-Agrees :
    (tok : String) (before : ℕ) (m : Dict ℕ) (e : Option ℕ) (c : ℕ × Call)
    → IsUnique m
    → before ≤ c.0
    → Agrees tok before m e
    → Agrees tok c.0 (step m c) (issued_by tok e c)
unfolding step
step-Agrees tok before m e (now, login none) u h a = λ t later. a t (omega arith)
step-Agrees tok before m e (now, login (some s)) u h a = λ t later. ground (
  arith,
  a t,
  get-put m s tok (now + session_ttl),
  get-put (sweep (is_expired now) m) s tok (now + session_ttl),
  get-sweep (is_expired now) m tok u,
)
step-Agrees tok before m e (now, check s) u h a =
    λ t later. ground (arith, a t, get-remove m s tok, eq_iff s tok)
step-Agrees tok before m e (now, logout s) u h a =
    λ t later. ground (arith, a t, get-remove m s tok)

run-Agrees :
    (tok : String) (before end : ℕ) (m : Dict ℕ) (e : Option ℕ) (cs : List (ℕ × Call))
    → IsUnique m
    → IsOrdered before cs end
    → Agrees tok before m e
    → Agrees tok end (run m cs) (issued tok e cs)
unfolding run
run-Agrees tok before end m e [] u o a = λ t later. a t (omega arith)
run-Agrees tok before end m e (c ∷ cs) u o a =
    run-Agrees tok c.0 end (step m c) (issued_by tok e c) cs (step-IsUnique m c u) o.1
      (step-Agrees tok before m e c u o.0 a)

valid_session-eq_is_live :
    (tok : String) (now : ℕ) (m : Dict ℕ)
    → tok ≢ ""
    → (valid_session tok now m).0 ≡ is_live now (get m tok)
unfolding valid_session
valid_session-eq_is_live tok now m h = ground (arith, eq_iff tok "")

-- After any calls in order of time, a token other than the empty one passes the check exactly
-- while the last login that gave it has not run out and no logout came after it; the sweep of the
-- full map and the removal of expired entries are never seen.
pub run-valid_session :
    (tok : String) (now : ℕ) (cs : List (ℕ × Call))
    → tok ≢ ""
    → IsOrdered 0 cs now
    → (valid_session tok now (run [] cs)).0 ≡ is_live now (issued tok none cs)
unfolding get
run-valid_session tok now cs h o =
    rw (valid_session-eq_is_live tok now (run [] cs) h)
      (run-Agrees tok 0 now [] none cs tt o (λ t later. refl) now (omega arith))
