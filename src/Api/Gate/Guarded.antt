-- ===== src/Api/Gate/Guarded.antt =====
-- Who gets past auth.
use server_space_manager_ai.Prelude.{
  not_empty, ℕ, ◌≡◌, ◌≢◌, refl, sym, ap, ◌∙◌, String, false, none, some, List, [], ◌∷◌, ◌++◌,
  str_eq, if◌then◌else◌, Bool-cases, inl, inr,
}
use server_space_manager_ai.Prelude.Dict.{Dict}
use server_space_manager_ai.Api.Sessions.{Call, login, check, logout, valid_session, step, run}
use server_space_manager_ai.Api.Sessions.View.{issued, is_live, IsOrdered, run-valid_session}
use server_space_manager_ai.Api.Gate.{
  Request, page, login_form, submit, leave, served, refusal, valid_cookie, auth, handle_submit,
  handle_logout, handle, handle_all,
}

-- What a request means for the sessions: a login only with the right password.
abbrev pub calls_of : String → ℕ → Request → List (ℕ × Call)
calls_of password now (page path none) = []
calls_of password now (page path (some tok)) = (now, check tok) ∷ []
calls_of password now login_form = []
calls_of password now (submit none rand) = []
calls_of password now (submit (some got) rand) =
    if str_eq got password then (now, login rand) ∷ [] else []
calls_of password now (leave none) = []
calls_of password now (leave (some tok)) = (now, logout tok) ∷ []

abbrev pub calls : String → List (ℕ × Request) → List (ℕ × Call)
calls password [] = []
calls password ((now, r) ∷ rs) = calls_of password now r ++ calls password rs

run-append : (m : Dict ℕ) (cs ds : List (ℕ × Call)) → run m (cs ++ ds) ≡ run (run m cs) ds
unfolding run
run-append m [] ds = refl
run-append m (c ∷ cs) ds = run-append (step m c) cs ds

handle-run :
    (password : String) (now : ℕ) (r : Request) (m : Dict ℕ)
    → str_eq password "" ≡ false
    → (handle password now r m).1 ≡ run m (calls_of password now r)
unfolding handle auth handle_submit handle_logout valid_cookie run step
handle-run password now (page path none) m h = rw h refl
handle-run password now (page path (some tok)) m h = elim (Bool-cases (valid_session tok now m).0) [
  | inl v ↦ rw (h, v) refl
  | inr v ↦ rw (h, v) refl
]
handle-run password now login_form m h = rw h refl
handle-run password now (submit none rand) m h = rw h refl
handle-run password now (submit (some got) none) m h = elim (Bool-cases (str_eq got password)) [
  | inl e ↦ rw (h, e) refl
  | inr e ↦ rw (h, e) refl
]
handle-run password now (submit (some got) (some tok)) m h =
    elim (Bool-cases (str_eq got password)) [ inl e ↦ rw (h, e) refl | inr e ↦ rw (h, e) refl ]
handle-run password now (leave none) m h = refl
handle-run password now (leave (some tok)) m h = refl

handle_all-run :
    (password : String) (rs : List (ℕ × Request)) (m : Dict ℕ)
    → str_eq password "" ≡ false
    → handle_all password rs m ≡ run m (calls password rs)
unfolding handle_all
handle_all-run password [] m h = unfold run in refl
handle_all-run password ((now, r) ∷ rs) m h =
    handle_all-run password rs (handle password now r m).1 h
    ∙ ap (λ t. run t (calls password rs)) (handle-run password now r m h)
    ∙ sym (run-append m (calls_of password now r) (calls password rs))

handle-page :
    (password path tok : String) (now : ℕ) (m : Dict ℕ)
    → str_eq password "" ≡ false
    → (handle password now (page path (some tok)) m).0
      ≡ (if (valid_session tok now m).0 then served else refusal path)
unfolding handle auth valid_cookie
handle-page password path tok now m h = elim (Bool-cases (valid_session tok now m).0) [
  | inl v ↦ rw (h, v) refl
  | inr v ↦ rw (h, v) refl
]

handle_page_bare :
    (password path : String) (now : ℕ) (m : Dict ℕ)
    → str_eq password "" ≡ false
    → (handle password now (page path none) m).0 ≡ refusal path
unfolding handle auth valid_cookie
handle_page_bare password path now m h = rw h refl

-- With a password set, whatever the requests in order of time: a request behind auth with a cookie
-- other than the empty one is served exactly while the last login that gave this token by the
-- right password has not run out and no logout came after it, and a request without a cookie never
-- is.
pub handle_guarded :
    (password path tok : String) (now : ℕ) (rs : List (ℕ × Request))
    → password ≢ ""
    → tok ≢ ""
    → IsOrdered 0 (calls password rs) now
    → let sessions = handle_all password rs [] in
      ((handle password now (page path (some tok)) sessions).0
        ≡ (if is_live now (issued tok none (calls password rs)) then served else refusal path))
      × ((handle password now (page path none) sessions).0 ≡ refusal path)
handle_guarded password path tok now rs p t o =
    let h = not_empty password p in
    let e = handle_all-run password rs [] h in
    let v = run-valid_session tok now (calls password rs) t o in
    (
      rw e (handle-page password path tok now (run [] (calls password rs)) h)
          ∙ ap (λ b. if b then served else refusal path) v,
      handle_page_bare password path now (handle_all password rs []) h,
    )
