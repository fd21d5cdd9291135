-- ===== src/Api/Gate.antt =====
-- internal/api/server.go: auth, handleLogin and handleLogout over the session map. ConstantTimeCompare
-- is the equality of texts; the routes behind auth are one kind of request, with its path.
pub mod Guarded
use server_space_manager_ai.Prelude.{
  ℕ, String, Bool, true, false, Option, none, some, List, [], ◌∷◌, starts_with, str_eq,
  if◌then◌else◌,
}
use server_space_manager_ai.Prelude.Dict.{Dict}
use server_space_manager_ai.Api.Sessions.{new_session, valid_session, revoke_session}

-- A request: to a route behind auth, with its path and the value of its cookie, if it has one; the
-- form of /login; a submission of it, with the password (`none` for a form that cannot be read) and
-- what the random source gives; and /logout with its cookie.
pub data Request : Type 0 where
  page : String → Option String → Request
  login_form : Request
  submit : Option String → Option String → Request
  leave : Option String → Request

pub data Response : Type 0 where
  -- the handler behind auth runs
  served : Response
  unauthorized to_login to_dashboard form incorrect bad_form internal_error : Response
  -- the cookie with a new token
  logged_in : String → Response

-- validCookie
unfoldable pub valid_cookie : Option String → ℕ → Dict ℕ → Bool × Dict ℕ
valid_cookie none now sessions = (false, sessions)
valid_cookie (some tok) now sessions = valid_session tok now sessions

abbrev pub refusal : String → Response
refusal path = if starts_with path "/api/" then unauthorized else to_login

-- auth
unfoldable pub auth : String → String → Option String → ℕ → Dict ℕ → Response × Dict ℕ
unfolding valid_cookie
auth password path cookie now sessions =
    let (valid, after) = valid_cookie cookie now sessions in
    if str_eq password ""
    then (served, sessions)
    else if valid
    then (served, after)
    else (refusal path, after)

abbrev minted : Option String × Dict ℕ → Response × Dict ℕ
minted (none, sessions) = (internal_error, sessions)
minted (some tok, sessions) = (logged_in tok, sessions)

-- handleLogin for a POST, with a password set
unfoldable pub handle_submit :
    String → Option String → Option String → ℕ → Dict ℕ → Response × Dict ℕ
handle_submit password none rand now sessions = (bad_form, sessions)
handle_submit password (some got) rand now sessions =
    if str_eq got password then minted (new_session rand now sessions) else (incorrect, sessions)

-- handleLogout
unfoldable pub handle_logout : Option String → Dict ℕ → Response × Dict ℕ
handle_logout none sessions = (to_login, sessions)
handle_logout (some tok) sessions = (to_login, revoke_session tok sessions)

unfoldable pub handle : String → ℕ → Request → Dict ℕ → Response × Dict ℕ
unfolding auth handle_submit handle_logout
handle password now (page path cookie) sessions = auth password path cookie now sessions
handle password now login_form sessions =
    if str_eq password "" then (to_dashboard, sessions) else (form, sessions)
handle password now (submit got rand) sessions =
    if str_eq password ""
    then (to_dashboard, sessions)
    else handle_submit password got rand now sessions
handle password now (leave cookie) sessions = handle_logout cookie sessions

-- the session map after the requests
unfoldable pub handle_all : String → List (ℕ × Request) → Dict ℕ → Dict ℕ
unfolding handle
handle_all password [] sessions = sessions
handle_all password ((now, r) ∷ rs) sessions =
    handle_all password rs (handle password now r sessions).1
