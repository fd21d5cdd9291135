-- ===== src/Alert/CommandBot/Polling.antt =====
-- The polling loop: which updates are handled, and how often.
use mathlib.Core.List.{append_assoc}
use server_space_manager_ai.Prelude.{
  ◌≡◌, refl, sym, ap, ap₂, subst, ◌∙◌, Bool, false, Option, none, some, List, [], ◌∷◌, ◌++◌, arith,
  select, str_eq, if◌then◌else◌, Bool-cases, inl, inr,
}
use server_space_manager_ai.Prelude.Int.{
  ℤ, pos, ◌+ℤ◌, ◌≤ℤ◌, ◌<ℤ◌, +ℤ_parts, int_laws, IsInt64, add64, wrap64_id,
}
use server_space_manager_ai.Alert.CommandBot.{
  Message, Update, Effect, CommandBot, Runtime, handle, advance, handle_all, last_id, is_start,
  after_poll, round, rounds, started_bot,
}

abbrev pub Poll : Type 0
Poll = Option (List Update)

-- The updates of the polls that succeeded, in order.
abbrev pub updates : List Poll → List Update
updates [] = []
updates (none ∷ ps) = updates ps
updates (some us ∷ ps) = us ++ updates ps

module _ (env : Runtime) where
  abbrev pub effects_of : CommandBot → List Update → List Effect
  effects_of b [] = []
  effects_of b (u ∷ us) = handle env b u ++ effects_of b us

  -- Only the offset changes.
  abbrev Same : CommandBot → CommandBot → Type 0
  Same b c = (us : List Update) → effects_of c us ≡ effects_of b us

  pub offset-Same : (b : CommandBot) (o : ℤ) → Same b (record b { offset = o })
  unfolding handle
  offset-Same b o [] = refl
  offset-Same b o (u ∷ us) = ap (◌++◌ (handle env b u)) (offset-Same b o us)

  effects_of-append :
      (b : CommandBot) (us vs : List Update)
      → effects_of b (us ++ vs) ≡ effects_of b us ++ effects_of b vs
  effects_of-append b [] vs = refl
  effects_of-append b (u ∷ us) vs =
      ap (◌++◌ (handle env b u)) (effects_of-append b us vs)
      ∙ sym (append_assoc (handle env b u) _ _)

  pub handle_all-effects :
      (b : CommandBot) (us : List Update)
      → ((handle_all env b us).0 ≡ effects_of b us) × Same b (handle_all env b us).1
  unfolding handle_all
  handle_all-effects b [] = (refl, λ us. refl)
  handle_all-effects b (u ∷ us) =
      let c = record b { offset = advance u.update_id b.offset } in
      let rest = handle_all-effects c us in
      let same = offset-Same b (advance u.update_id b.offset) in
      (ap (◌++◌ (handle env b u)) (rest.0 ∙ same us), λ vs. rest.1 vs ∙ same vs)

  pub after_poll-Same : (b : CommandBot) (us : List Update) → Same b (after_poll env b us)
  unfolding after_poll
  after_poll-Same b [] vs = refl
  after_poll-Same b (u ∷ us) vs = elim (Bool-cases (is_start b.offset)) [
    | inl h ↦ rw h (offset-Same b (add64 (last_id u.update_id us) (pos 1)) vs)
    | inr h ↦ rw h refl
  ]

  -- Every update of every poll that succeeds is handled, in order, whatever the offset: those of
  -- the first poll after the start as well.
  pub rounds-effects :
      (b : CommandBot) (ps : List Poll) → (rounds env b ps).0 ≡ effects_of b (updates ps)
  unfolding rounds
  rounds-effects b [] = refl
  rounds-effects b (none ∷ ps) = rounds-effects b ps
  rounds-effects b (some us ∷ ps) =
      let c = after_poll env b us in
      let now = handle_all-effects c us in
      let later = rounds-effects (handle_all env c us).1 ps in
      ap₂ ◌++◌ (now.0 ∙ after_poll-Same b us us)
        (later ∙ now.1 (updates ps) ∙ after_poll-Same b us (updates ps))
      ∙ sym (effects_of-append b us (updates ps))

  abbrev pub from_allowed : CommandBot → Option Message → Bool
  from_allowed b none = false
  from_allowed b (some m) = str_eq (env.decimal m.chat) b.allowed_chat_id

  handle_stranger :
      (b : CommandBot) (u : Update) → from_allowed b u.message ≡ false → handle env b u ≡ []
  unfolding handle
  handle_stranger b u h = ground arith

  pub strangers_ignored :
      (b : CommandBot) (us : List Update)
      → effects_of b us ≡ effects_of b (select (λ u. from_allowed b u.message) us)
  strangers_ignored b [] = refl
  strangers_ignored b (u ∷ us) = elim (Bool-cases (from_allowed b u.message)) [
    | inl h ↦ rw h (ap (◌++◌ (handle env b u)) (strangers_ignored b us))
    | inr h ↦ rw (h, handle_stranger b u h) (strangers_ignored b us)
  ]

  -- Whatever other chats send, the bot does just what it would do if only the updates of the
  -- allowed chat had come.
  pub rounds-allowed :
      (b : CommandBot) (ps : List Poll)
      → (rounds env b ps).0 ≡ effects_of b (select (λ u. from_allowed b u.message) (updates ps))
  rounds-allowed b ps = rounds-effects b ps ∙ strangers_ignored b (updates ps)

-- Numbers that rise, from `low` on, each with its successor an int64.
abbrev pub IsRising : ℤ → List Update → Type 0
IsRising low [] = Unit
IsRising low (u ∷ us) =
    (low ≤ℤ u.update_id) × IsInt64 (u.update_id +ℤ pos 1) × IsRising (u.update_id +ℤ pos 1) us

-- What an offset asks for: every update, for the offset -1 of the start, and else those from it on.
abbrev pub low : ℤ → ℤ
low offset = if is_start offset then pos 0 else offset

abbrev pub after_all : ℤ → List Update → ℤ
after_all d [] = d
after_all d (u ∷ us) = after_all (u.update_id +ℤ pos 1) us

pub IsRising-append :
    (d : ℤ) (us vs : List Update)
    → IsRising d us
    → IsRising (after_all d us) vs
    → IsRising d (us ++ vs)
IsRising-append d [] vs r s = s
IsRising-append d (u ∷ us) vs r s = (r.0, r.1, IsRising-append (u.update_id +ℤ pos 1) us vs r.2 s)

after_all-last_id :
    (id : ℤ) (us : List Update) → after_all (id +ℤ pos 1) us ≡ last_id id us +ℤ pos 1
after_all-last_id id [] = refl
after_all-last_id id (u ∷ us) = after_all-last_id u.update_id us

pub after_all-le : (d : ℤ) (us : List Update) → IsRising d us → d ≤ℤ after_all d us
after_all-le d [] r = omega arith
after_all-le d (u ∷ us) r =
    omega (int_laws, after_all-le (u.update_id +ℤ pos 1) us r.2, +ℤ_parts u.update_id (pos 1))

below_next : (id : ℤ) → id <ℤ (id +ℤ pos 1)
below_next id = omega (int_laws, +ℤ_parts id (pos 1))

low-other : (o : ℤ) → is_start o ≡ false → low o ≡ o
low-other o h = rw h refl

low-valid : (o : ℤ) → pos 0 ≤ℤ o → low o ≡ o
low-valid o h = ground arith

-- the same, read as numbers
same_ge : (a b : ℤ) → a ≡ b → a ≤ℤ b
same_ge a b e = rw e (omega arith)

-- The source's `UpdateID + 1` where it does not wrap.
add64_next : (id : ℤ) → IsInt64 (id +ℤ pos 1) → add64 id (pos 1) ≡ id +ℤ pos 1
unfolding add64
add64_next id fits = wrap64_id (id +ℤ pos 1) fits

last_next :
    (id : ℤ) (us : List Update)
    → IsInt64 (id +ℤ pos 1)
    → IsRising (id +ℤ pos 1) us
    → add64 (last_id id us) (pos 1) ≡ last_id id us +ℤ pos 1
last_next id [] fits r = add64_next id fits
last_next id (u ∷ us) fits r = last_next u.update_id us r.1 r.2

advance-ge :
    (id offset : ℤ) → IsInt64 (id +ℤ pos 1) → offset ≤ℤ id → advance id offset ≡ id +ℤ pos 1
advance-ge id offset fits h = ground (arith, add64_next id fits)

advance-lt : (id offset : ℤ) → (id +ℤ pos 1) ≤ℤ offset → advance id offset ≡ offset
advance-lt id offset h = ground (arith, h, below_next id)

module _ (env : Runtime) where
  -- the offset goes up with each update that is not below it
  offset-handle_all :
      (b : CommandBot) (us : List Update)
      → IsRising b.offset us
      → (handle_all env b us).1.offset ≡ after_all b.offset us
  unfolding handle_all
  offset-handle_all b [] r = refl
  offset-handle_all b (u ∷ us) r =
      let next = u.update_id +ℤ pos 1 in
      rw (advance-ge u.update_id b.offset r.1 r.0)
        (offset-handle_all (record b { offset = next }) us r.2)

  -- and stays where it is past all of them
  offset_kept :
      (b : CommandBot) (d : ℤ) (us : List Update)
      → IsRising d us
      → after_all d us ≤ℤ b.offset
      → (handle_all env b us).1.offset ≡ b.offset
  unfolding handle_all
  offset_kept b d [] r h = refl
  offset_kept b d (u ∷ us) r h =
      let next = u.update_id +ℤ pos 1 in
      rw
        (advance-lt u.update_id b.offset
          (omega (int_laws, after_all-le next us r.2, h, +ℤ_parts u.update_id (pos 1))))
        (offset_kept b next us r.2 h)

  pub round-offset :
      (b : CommandBot) (us : List Update)
      → IsRising (low b.offset) us
      → (round env b (some us)).1.offset ≡ after_all b.offset us
  unfolding round after_poll
  round-offset b [] r = offset-handle_all b [] r
  round-offset b (u ∷ us) r = elim (Bool-cases (is_start b.offset)) [
    | inl h ↦
        let next = last_id u.update_id us +ℤ pos 1 in
        let e = after_all-last_id u.update_id us in
        let le = same_ge (after_all (u.update_id +ℤ pos 1) us) next e in
        let kept =
          offset_kept (record b { offset = next }) u.update_id (u ∷ us) (omega arith, r.1, r.2)
            le in
        rw (h, last_next u.update_id us r.1 r.2, kept) (sym e)
    | inr h ↦
        rw h
          (offset-handle_all b (u ∷ us) (subst (λ d. IsRising d (u ∷ us)) (low-other b.offset h) r))
  ]

  -- What Telegram answers to getUpdates: updates in rising order from the offset asked for.
  abbrev pub IsServed : CommandBot → List Poll → Type 0
  IsServed b [] = Unit
  IsServed b (none ∷ ps) = IsServed b ps
  IsServed b (some us ∷ ps) = IsRising (low b.offset) us × IsServed (round env b (some us)).1 ps

  pub low-after_all :
      (o : ℤ) (us : List Update)
      → pos 0 ≤ℤ low o
      → IsRising (low o) us
      → low (after_all o us) ≡ after_all (low o) us
  low-after_all o [] h r = refl
  low-after_all o (u ∷ us) h r =
      let next = u.update_id +ℤ pos 1 in
      let le = after_all-le next us r.2 in
      low-valid (after_all next us) (omega (arith, h, r.0, le, below_next u.update_id))

  rounds-IsRising :
      (b : CommandBot) (ps : List Poll)
      → pos 0 ≤ℤ low b.offset
      → IsServed b ps
      → IsRising (low b.offset) (updates ps)
  rounds-IsRising b [] h served = record {}
  rounds-IsRising b (none ∷ ps) h served = rounds-IsRising b ps h served
  rounds-IsRising b (some us ∷ ps) h served =
      let r = served.0 in
      let c = (round env b (some us)).1 in
      let e : low c.offset ≡ after_all (low b.offset) us =
        ap low (round-offset b us r) ∙ low-after_all b.offset us h r in
      let le = after_all-le (low b.offset) us r in
      IsRising-append (low b.offset) us (updates ps) r (
        subst (λ d. IsRising d (updates ps)) e
          (rounds-IsRising c ps (rw e (omega (arith, h, le))) served.1))

  -- If each poll is answered with the updates from the offset it asks for, in rising order, the
  -- numbers of the updates that the bot handles rise over its whole run: no update is handled
  -- twice.
  pub rounds_once :
      (b : CommandBot) (ps : List Poll)
      → IsServed (started_bot b) ps
      → ((rounds env (started_bot b) ps).0 ≡ effects_of env (started_bot b) (updates ps))
        × IsRising (pos 0) (updates ps)
  rounds_once b ps served = (
    rounds-effects env (started_bot b) ps,
    rounds-IsRising (started_bot b) ps (omega arith) served,
  )
