-- ===== src/Api/Sessions/Cap.antt =====
-- How large the session map grows.
use server_space_manager_ai.Prelude.{
  ℕ, ◌+◌, ◌≤◌, String, ◌≡◌, ◌⊎◌, refl, ap, ◌∙◌, false, none, some, List, [], ◌∷◌, arith, leb,
  length, if◌then◌else◌, Option, All, str_eq,
}
use server_space_manager_ai.Prelude.Dict.{
  Dict, get, put, sweep, remove_absent, get-put, length-put-le,
}
use server_space_manager_ai.Api.Sessions.{
  Call, login, is_expired, session_ttl, max_sessions, new_session, step, run,
}

-- The entries that have not run out.
abbrev pub live : ℕ → Dict ℕ → ℕ
live now [] = 0
live now ((k, exp) ∷ m) = if leb now exp then live now m + 1 else live now m

length-sweep-eq-live : (now : ℕ) (m : Dict ℕ) → length (sweep (is_expired now) m) ≡ live now m
unfolding sweep
length-sweep-eq-live now [] = refl
length-sweep-eq-live now ((k, exp) ∷ m) = ground (arith, length-sweep-eq-live now m)

-- A login into a map within the cap, or of live sessions only, leaves at most 1024 entries, or at
-- most one more than the sessions that are still valid.
pub length-new_session :
    (rand : Option String) (now : ℕ) (m : Dict ℕ)
    → (length m ≤ max_sessions) ⊎ (length m ≤ live now m)
    → (length (new_session rand now m).1 ≤ max_sessions)
      ⊎ (length (new_session rand now m).1 ≤ live now m + 1)
unfolding new_session
length-new_session none now m h = ground arith
length-new_session (some tok) now m h = ground (
  arith,
  length-put-le m tok (now + session_ttl),
  length-put-le (sweep (is_expired now) m) tok (now + session_ttl),
  length-sweep-eq-live now m,
)

-- Every entry runs out `session_ttl` after `now`.
abbrev IsFresh : ℕ → Dict ℕ → Type 0
IsFresh now m = All (λ kv. kv.1 ≡ now + session_ttl) m

sweep_fresh : (now : ℕ) (m : Dict ℕ) → IsFresh now m → sweep (is_expired now) m ≡ m
unfolding sweep
sweep_fresh now [] h = refl
sweep_fresh now ((k, exp) ∷ m) h = ground (arith, sweep_fresh now m h.1)

-- No token stands twice.
abbrev pub IsDistinct : List String → Type 0
IsDistinct [] = Unit
IsDistinct (t ∷ ts) = All (λ u. str_eq t u ≡ false) ts × IsDistinct ts

abbrev pub logins : ℕ → List String → List (ℕ × Call)
logins now [] = []
logins now (t ∷ ts) = (now, login (some t)) ∷ logins now ts

abbrev AreNew : Dict ℕ → List String → Type 0
AreNew m = All (λ u. get m u ≡ none)

step_fresh :
    (now : ℕ) (t : String) (m : Dict ℕ)
    → IsFresh now m
    → step m (now, login (some t)) ≡ put m t (now + session_ttl)
unfolding step
step_fresh now t m f = ground (arith, sweep_fresh now m f)

put-AreNew :
    (t : String) (v : ℕ) (m : Dict ℕ) (ts : List String)
    → AreNew m ts
    → All (λ u. str_eq t u ≡ false) ts
    → AreNew (put m t v) ts
put-AreNew t v m [] n d = tt
put-AreNew t v m (u ∷ ts) n d = (ground (arith, get-put m t u v), put-AreNew t v m ts n.1 d.1)

run_fresh :
    (now : ℕ) (m : Dict ℕ) (ts : List String)
    → IsFresh now m
    → AreNew m ts
    → IsDistinct ts
    → length (run m (logins now ts)) ≡ length m + length ts
unfolding run put
run_fresh now m [] f n d = omega arith
run_fresh now m (t ∷ ts) f n d =
    let absent = remove_absent m t n.0 in
    let e : step m (now, login (some t)) ≡ (t, now + session_ttl) ∷ m =
      step_fresh now t m f ∙ ap (◌∷◌ (t, now + session_ttl)) absent in
    let new = rw absent at (put-AreNew t (now + session_ttl) m ts n.1 d.0) in
    let ih = run_fresh now ((t, now + session_ttl) ∷ m) ts (refl, f) new d.1 in
    omega (arith, ap (λ s. length (run s (logins now ts))) e, ih)

none_in_empty : (ts : List String) → AreNew [] ts
unfolding get
none_in_empty [] = tt
none_in_empty (t ∷ ts) = (refl, none_in_empty ts)

-- Logins at one time with different tokens all stay in the map, however many they are.
pub run-logins_uncapped :
    (now : ℕ) (ts : List String) → IsDistinct ts → length (run [] (logins now ts)) ≡ length ts
run-logins_uncapped now ts d = omega (arith, run_fresh now [] ts tt (none_in_empty ts) d)
