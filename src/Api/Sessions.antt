-- ===== src/Api/Sessions.antt =====
-- The session map of internal/api/server.go: newSession, validSession and revokeSession.
-- Times are nanoseconds since some origin. What `rand.Read` and the encoder give is an argument:
-- `none` where `rand.Read` fails, and else the encoded token.
pub mod View
pub mod Cap
use server_space_manager_ai.Prelude.{
  ℕ, ◌+◌, ◌*◌, String, Bool, true, false, Option, none, some, List, [], ◌∷◌, ltb, leb, str_eq,
  length, if◌then◌else◌,
}
use server_space_manager_ai.Prelude.Dict.{Dict, get, put, remove, sweep}

abbrev pub second : ℕ
second = 1000000000

-- sessionTTL, 30 days
abbrev pub session_ttl : ℕ
session_ttl = 30 * 24 * 3600 * second

-- maxSessions
abbrev pub max_sessions : ℕ
max_sessions = 1024

-- `now.After(exp)`
abbrev pub is_expired : ℕ → ℕ → Bool
is_expired now exp = ltb exp now

-- newSession: the token, if there is one, and the map
unfoldable pub new_session : Option String → ℕ → Dict ℕ → Option String × Dict ℕ
new_session none now sessions = (none, sessions)
new_session (some tok) now sessions =
    let kept =
      if leb max_sessions (length sessions) then sweep (is_expired now) sessions else sessions in
    (some tok, put kept tok (now + session_ttl))

-- validSession
unfoldable pub valid_session : String → ℕ → Dict ℕ → Bool × Dict ℕ
valid_session tok now sessions =
    if str_eq tok "" then (false, sessions) else elim (get sessions tok) [
      | none ↦ (false, sessions)
      | some exp ↦ if is_expired now exp then (false, remove sessions tok) else (true, sessions)
    ]

-- revokeSession
unfoldable pub revoke_session : String → Dict ℕ → Dict ℕ
revoke_session tok sessions = remove sessions tok

-- A call on the session map: a login with what the random source gives, the check of a cookie,
-- and a logout.
pub data Call : Type 0 where
  login : Option String → Call
  check : String → Call
  logout : String → Call

unfoldable pub step : Dict ℕ → ℕ × Call → Dict ℕ
unfolding new_session valid_session revoke_session
step sessions (now, login rand) = (new_session rand now sessions).1
step sessions (now, check tok) = (valid_session tok now sessions).1
step sessions (now, logout tok) = revoke_session tok sessions

unfoldable pub run : Dict ℕ → List (ℕ × Call) → Dict ℕ
run sessions [] = sessions
run sessions (c ∷ cs) = run (step sessions c) cs
