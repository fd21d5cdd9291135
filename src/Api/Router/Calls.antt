-- ===== src/Api/Router/Calls.antt =====
-- The requests that reach the session map in a history of the Server.
use server_space_manager_ai.Prelude.{
  ℕ, ◌≤◌, arith, ◌≡◌, refl, sym, ap, String, none, some, List, [], ◌∷◌, ◌++◌, str_eq, if◌then◌else◌,
  Bool-cases, inl, inr,
}
use mathlib.Core.List.{append-nil}
use server_space_manager_ai.Prelude.Dict.{Dict}
use server_space_manager_ai.Api.Gate.{Request, page, login_form, submit, leave, handle, handle_all}
use server_space_manager_ai.Api.Gate.Guarded.{calls_of, calls}
use server_space_manager_ai.Api.Sessions.{Call}
use server_space_manager_ai.Api.Sessions.View as View
use server_space_manager_ai.Api.Sessions.View.{issued, is_live}
use server_space_manager_ai.Api.Triggers.{is_post}
use server_space_manager_ai.Api.Router.{
  Route, dashboard, summary, findings, ask, login, logout, health, trigger_of, route_of, HttpCall,
}
use server_space_manager_ai.Api.Router.History.{
  IsOrdered, Event, requested, job_ended, snapshot_set,
}

-- What the requests mean for the session map.
abbrev pub gate_call : HttpCall → Route → List (ℕ × Request)
gate_call c login = (c.at, if is_post c.method then submit c.form c.rand else login_form) ∷ []
gate_call c logout = (c.at, leave c.cookie) ∷ []
gate_call c health = []
gate_call c _ = (c.at, page c.path c.cookie) ∷ []

abbrev pub gate_calls : List Event → List (ℕ × Request)
gate_calls [] = []
gate_calls (requested c store ∷ es) = gate_call c (route_of c.path) ++ gate_calls es
gate_calls (job_ended kind ∷ es) = gate_calls es
gate_calls (snapshot_set snap ∷ es) = gate_calls es

pub handle_all-append :
    (password : String) (cs ds : List (ℕ × Request)) (m : Dict ℕ)
    → handle_all password (cs ++ ds) m ≡ handle_all password ds (handle_all password cs m)
unfolding handle_all
handle_all-append password [] ds m = refl
handle_all-append password (c ∷ cs) ds m =
    handle_all-append password cs ds (handle password c.0 c.1 m).1

pub gate_calls_head :
    (e : Event) (es : List Event) → gate_calls (e ∷ es) ≡ gate_calls (e ∷ []) ++ gate_calls es
gate_calls_head (requested c store) es =
    ap (λ cs. cs ++ gate_calls es) (sym (append-nil (gate_call c (route_of c.path))))
gate_calls_head (job_ended kind) es = refl
gate_calls_head (snapshot_set snap) es = refl

module _ (password : String) where
  earlier :
      (t u : ℕ) (cs : List (ℕ × Call)) (end : ℕ)
      → t ≤ u
      → View.IsOrdered u cs end
      → View.IsOrdered t cs end
  earlier t u [] end h o = omega (arith, h, o)
  earlier t u (c ∷ cs) end h o = (omega (arith, h, o.0), o.1)

  calls_of-IsOrdered :
      (t now : ℕ) (r : Request) (cs : List (ℕ × Call)) (end : ℕ)
      → t ≤ now
      → View.IsOrdered now cs end
      → View.IsOrdered t (calls_of password now r ++ cs) end
  calls_of-IsOrdered t now (page path none) cs end h o = earlier t now cs end h o
  calls_of-IsOrdered t now (page path (some tok)) cs end h o = (h, o)
  calls_of-IsOrdered t now login_form cs end h o = earlier t now cs end h o
  calls_of-IsOrdered t now (submit none rand) cs end h o = earlier t now cs end h o
  calls_of-IsOrdered t now (submit (some got) rand) cs end h o =
      elim (Bool-cases (str_eq got password)) [
        | inl e ↦ rw e (h, o)
        | inr e ↦ rw e (earlier t now cs end h o)
      ]
  calls_of-IsOrdered t now (leave none) cs end h o = earlier t now cs end h o
  calls_of-IsOrdered t now (leave (some tok)) cs end h o = (h, o)

  gate_call-IsOrdered :
      (t end : ℕ) (c : HttpCall) (r : Route) (rs : List (ℕ × Request))
      → t ≤ c.at
      → View.IsOrdered c.at (calls password rs) end
      → View.IsOrdered t (calls password (gate_call c r ++ rs)) end
  gate_call-IsOrdered t end c login rs h o =
      calls_of-IsOrdered t c.at (if is_post c.method then submit c.form c.rand else login_form) _
        end h o
  gate_call-IsOrdered t end c logout rs h o = calls_of-IsOrdered t c.at (leave c.cookie) _ end h o
  gate_call-IsOrdered t end c health rs h o = earlier t c.at _ end h o
  gate_call-IsOrdered t end c dashboard rs h o =
      calls_of-IsOrdered t c.at (page c.path c.cookie) _ end h o
  gate_call-IsOrdered t end c summary rs h o =
      calls_of-IsOrdered t c.at (page c.path c.cookie) _ end h o
  gate_call-IsOrdered t end c findings rs h o =
      calls_of-IsOrdered t c.at (page c.path c.cookie) _ end h o
  gate_call-IsOrdered t end c ask rs h o =
      calls_of-IsOrdered t c.at (page c.path c.cookie) _ end h o
  gate_call-IsOrdered t end c (trigger_of kind) rs h o =
      calls_of-IsOrdered t c.at (page c.path c.cookie) _ end h o

  pub gate_calls-IsOrdered :
      (t end : ℕ) (es : List Event)
      → IsOrdered t es end
      → View.IsOrdered t (calls password (gate_calls es)) end
  gate_calls-IsOrdered t end [] o = o
  gate_calls-IsOrdered t end (requested c store ∷ es) o =
      gate_call-IsOrdered t end c (route_of c.path) (gate_calls es) o.0
        (gate_calls-IsOrdered c.at end es o.1)
  gate_calls-IsOrdered t end (job_ended kind ∷ es) o = gate_calls-IsOrdered t end es o
  gate_calls-IsOrdered t end (snapshot_set snap ∷ es) o = gate_calls-IsOrdered t end es o
