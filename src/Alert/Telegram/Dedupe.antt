-- ===== src/Alert/Telegram/Dedupe.antt =====
-- The dedupe of Send against a specification that forgets nothing.
use server_space_manager_ai.Prelude.{
  ℕ, ◌+◌, ◌-◌, ◌≤◌, ◌<◌, ◌≡◌, refl, ap, ap₂, ◌∙◌, subst, String, Bool, true, false, not, Option,
  none, some, List, [], ◌∷◌, arith, str_eq, eq_iff, ltb, lt→ltb, length, if◌then◌else◌, Bool-cases,
  inl, inr,
}
use server_space_manager_ai.Prelude.Dict.{
  get, put, IsUnique, get-put, get-sweep, put-IsUnique, sweep-IsUnique,
}
use server_space_manager_ai.Alert.Telegram.{
  Telegram, Outcome, suppressed, Call, max_dedupe_entries, enabled, sweep_locked, post, is_recent,
  remember, new_telegram, request_error, transport_error, responds, failed, send, is_posted, posted,
}

-- The specification keeps, for each key, the time of its last request, for ever.
abbrev pub History : Type 0
History = String → Option ℕ

abbrev pub noted : String → ℕ → History → History
noted key now h k = if str_eq key k then some now else h k

abbrev pub accepts : ℕ → History → Call → Bool
accepts window h c = not (is_recent window c.at (h c.key))

abbrev pub accepted : ℕ → History → List Call → List Bool
accepted window h [] = []
accepted window h (c ∷ cs) =
    accepts window h c ∷ accepted window (if accepts window h c then noted c.key c.at h else h) cs

abbrev pub IsOrdered : ℕ → List Call → Type 0
IsOrdered t [] = Unit
IsOrdered t (c ∷ cs) = (t ≤ c.at) × IsOrdered c.at cs

-- From `now` on the map suppresses what the specification does.
abbrev Agrees : ℕ → Telegram → History → Type 0
Agrees now t h =
    (k : String) (u : ℕ)
    → now ≤ u
    → is_recent t.dedupe_window u (get t.last k) ≡ is_recent t.dedupe_window u (h k)

pub remember-fixed :
    (key : String) (now : ℕ) (t : Telegram)
    → ((remember key now t).dedupe_window ≡ t.dedupe_window)
      × (enabled (remember key now t) ≡ enabled t)
unfolding remember enabled
remember-fixed key now t = ground arith

pub remember-IsUnique :
    (key : String) (now : ℕ) (t : Telegram) → IsUnique t.last → IsUnique (remember key now t).last
unfolding remember
remember-IsUnique key now t u =
    elim (Bool-cases (ltb max_dedupe_entries (length (put t.last key now)))) [
      | inl h ↦ rw h (sweep-IsUnique _ _ (put-IsUnique t.last key now u))
      | inr h ↦ rw h (put-IsUnique t.last key now u)
    ]

remember-Agrees :
    (key : String) (before now : ℕ) (t : Telegram) (h : History)
    → before ≤ now
    → IsUnique t.last
    → Agrees before t h
    → Agrees now (remember key now t) (noted key now h)
unfolding remember
remember-Agrees key before now t h o unique a k u later = ground (
  arith,
  a k u,
  get-put t.last key k now,
  get-sweep (λ ts. ltb ts (now - t.dedupe_window)) (put t.last key now) k
      (put-IsUnique t.last key now unique),
)

pub post-IsPosted : (r : Outcome) → is_posted (post r) ≡ true
unfolding post
post-IsPosted request_error = refl
post-IsPosted transport_error = refl
post-IsPosted (responds status) = ground arith

posted-eq-accepted :
    (before : ℕ) (t : Telegram) (h : History) (cs : List Call)
    → enabled t ≡ true
    → IsUnique t.last
    → Agrees before t h
    → IsOrdered before cs
    → posted t cs ≡ accepted t.dedupe_window h cs
unfolding posted send
posted-eq-accepted before t h [] en u a o = refl
posted-eq-accepted before t h (c ∷ cs) en u a o =
    elim (Bool-cases (is_recent t.dedupe_window c.at (h c.key))) [
      | inl recent ↦
          let seen = a c.key c.at o.0 ∙ recent in
          rw (en, seen, recent)
            (ap (◌∷◌ false)
              (posted-eq-accepted c.at t h cs en u (λ k v later. a k v (omega arith)) o.1))
      | inr old ↦
          let seen = a c.key c.at o.0 ∙ old in
          let t' = remember c.key c.at t in
          let fixed = remember-fixed c.key c.at t in
          let rest =
            posted-eq-accepted c.at t' (noted c.key c.at h) cs (fixed.1 ∙ en)
              (remember-IsUnique c.key c.at t u) (remember-Agrees c.key before c.at t h o.0 u a)
              o.1 in
          rw (en, seen, old)
            (ap₂ ◌∷◌ (post-IsPosted c.outcome)
              (rest ∙ ap (λ w. accepted w (noted c.key c.at h) cs) fixed.0))
    ]

-- With a token and a chat, and the calls in order of time, Send makes exactly the requests that it
-- would make if it kept the time of every request for ever; the sweep of a large map is never
-- seen.
pub posted-new_telegram :
    (bot_token chat_id : String) (cs : List Call)
    → enabled (new_telegram bot_token chat_id) ≡ true
    → IsOrdered 0 cs
    → posted (new_telegram bot_token chat_id) cs
      ≡ accepted (new_telegram bot_token chat_id).dedupe_window (λ k. none) cs
unfolding new_telegram get
posted-new_telegram bot_token chat_id cs en o =
    posted-eq-accepted 0 (new_telegram bot_token chat_id) (λ k. none) cs en tt (λ k u later. refl) o

-- The times of the requests for one key.
abbrev pub times_of : String → List Call → List Bool → List ℕ
times_of k [] bs = []
times_of k (c ∷ cs) [] = []
times_of k (c ∷ cs) (true ∷ bs) =
    let rest = times_of k cs bs in if str_eq c.key k then c.at ∷ rest else rest
times_of k (c ∷ cs) (false ∷ bs) = times_of k cs bs

abbrev pub IsAfter : ℕ → Option ℕ → ℕ → Type 0
IsAfter window none now = Unit
IsAfter window (some ts) now = ts + window ≤ now

abbrev pub IsSpaced : ℕ → Option ℕ → List ℕ → Type 0
IsSpaced window o [] = Unit
IsSpaced window o (t ∷ ts) = IsAfter window o t × IsSpaced window (some t) ts

not-recent :
    (window now : ℕ) (o : Option ℕ)
    → 0 < window
    → is_recent window now o ≡ false
    → IsAfter window o now
not-recent window now none p h = tt
not-recent window now (some ts) p h = ground arith

accepted-IsSpaced :
    (window : ℕ) (k : String) (h : History) (cs : List Call)
    → 0 < window
    → IsSpaced window (h k) (times_of k cs (accepted window h cs))
accepted-IsSpaced window k h [] p = tt
accepted-IsSpaced window k h (c ∷ cs) p = elim (Bool-cases (is_recent window c.at (h c.key))) [
  | inl recent ↦ rw recent (accepted-IsSpaced window k h cs p)
  | inr old ↦
      let rest = accepted-IsSpaced window k (noted c.key c.at h) cs p in
      elim (Bool-cases (str_eq c.key k)) [
        | inl same ↦
            let e = (eq_iff c.key k).0 same in
            let gap =
              subst (λ j. IsAfter window (h j) c.at) e (not-recent window c.at (h c.key) p old) in
            rw old (rw same (gap, rw same at rest))
        | inr other ↦ rw old (rw other (rw other at rest))
      ]
]

-- With a token and a chat, and the calls in order of time, two requests for one key are at least
-- the dedupe window apart.
pub posted-IsSpaced :
    (bot_token chat_id k : String) (cs : List Call)
    → enabled (new_telegram bot_token chat_id) ≡ true
    → IsOrdered 0 cs
    → IsSpaced
        (new_telegram bot_token chat_id).dedupe_window
        none
        (times_of k cs (posted (new_telegram bot_token chat_id) cs))
posted-IsSpaced bot_token chat_id k cs en o = rw (posted-new_telegram bot_token chat_id cs en o) (
    accepted-IsSpaced (new_telegram bot_token chat_id).dedupe_window k (λ j. none) cs
      (unfold new_telegram in omega arith))

get-remember :
    (key : String) (now : ℕ) (t : Telegram)
    → IsUnique t.last
    → get (remember key now t).last key ≡ some now
unfolding remember sweep_locked
get-remember key now t u = ground (
  arith,
  eq_iff key key,
  get-put t.last key key now,
  get-sweep (λ ts. ltb ts (now - t.dedupe_window)) (put t.last key now) key
      (put-IsUnique t.last key now u),
)

pub send-posted :
    (key : String) (now : ℕ) (outcome : Outcome) (t : Telegram)
    → enabled t ≡ true
    → is_recent t.dedupe_window now (get t.last key) ≡ false
    → send key now outcome t ≡ (post outcome, remember key now t)
unfolding send
send-posted key now outcome t en old = rw (en, old) refl

pub send-suppressed :
    (key : String) (now : ℕ) (outcome : Outcome) (t : Telegram)
    → enabled t ≡ true
    → is_recent t.dedupe_window now (get t.last key) ≡ true
    → send key now outcome t ≡ (suppressed, t)
unfolding send
send-suppressed key now outcome t en recent = rw (en, recent) refl

-- Where the notifier has a token and a chat and its map no key twice, a message that is not
-- suppressed and whose request fails counts as sent: a retry within the window after it makes no
-- request, and its caller gets no error.
pub send_lost :
    (key : String) (now later : ℕ) (outcome : Outcome) (t : Telegram)
    → enabled t ≡ true
    → IsUnique t.last
    → is_recent t.dedupe_window now (get t.last key) ≡ false
    → now ≤ later
    → later < now + t.dedupe_window
    → ((send key now transport_error t).0 ≡ failed)
      × (send key later outcome (send key now transport_error t).1
          ≡ (suppressed, (send key now transport_error t).1))
send_lost key now later outcome t en u old le lt =
    let t' = remember key now t in
    let fixed = remember-fixed key now t in
    let recent : is_recent t'.dedupe_window later (get t'.last key) ≡ true =
      rw (fixed.0, get-remember key now t u) (lt→ltb (later - now) t.dedupe_window (omega arith)) in
    rw (send-posted key now transport_error t en old)
      (unfold post in refl, send-suppressed key later outcome t' (fixed.1 ∙ en) recent)
