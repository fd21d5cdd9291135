-- ===== src/Alert/CommandBot/Wire/Acknowledged.antt =====
-- What Run asks for and does in each turn.
use server_space_manager_ai.Prelude.{
  not_empty, ◌≡◌, ◌≢◌, arith, refl, ap, ◌∙◌, Bool, true, false, some, List, [], ◌∷◌, ◌++◌, subst,
  select, if◌then◌else◌, Bool-cases, inl, inr,
}
use server_space_manager_ai.Prelude.Int.{ℤ, pos, negsuc, ◌≤ℤ◌, add64}
use server_space_manager_ai.Alert.CommandBot.{
  Update, CommandBot, Runtime, handle_all, after_poll, round, advance, last_id, is_start,
}
use server_space_manager_ai.Alert.CommandBot.Polling.{
  low-after_all, after_all-le, IsRising-append, offset-Same, effects_of, from_allowed, IsRising,
  low, after_all, round-offset, handle_all-effects, after_poll-Same, strangers_ignored,
}
use server_space_manager_ai.Alert.CommandBot.Wire.{
  HttpEnd, Decoders, Polled, poll_failed, polled, Turn, Turned, read_poll, poll_url, poll,
  take_turn, run_loop, run, register_commands, act, api_url, command_list,
}

abbrev pub updates_in : Polled → List Update
updates_in (poll_failed e) = []
updates_in (polled us) = us

-- all updates that were read
abbrev pub all_updates : List Turned → List Update
all_updates [] = []
all_updates (x ∷ xs) = x.updates ++ all_updates xs

module _ (env : Runtime) where
  -- only the offset changes
  handle_all-fixed :
      (b : CommandBot) (us : List Update)
      → (handle_all env b us).1 ≡ record b { offset = (handle_all env b us).1.offset }
  unfolding handle_all
  handle_all-fixed b [] = refl
  handle_all-fixed b (u ∷ us) =
      handle_all-fixed (record b { offset = advance u.update_id b.offset }) us

  round-fixed :
      (b : CommandBot) (us : List Update)
      → (round env b (some us)).1 ≡ record b { offset = (round env b (some us)).1.offset }
  unfolding round after_poll
  round-fixed b [] = handle_all-fixed b []
  round-fixed b (u ∷ us) = elim (Bool-cases (is_start b.offset)) [
    | inl h ↦
        rw h
          (handle_all-fixed (record b { offset = add64 (last_id u.update_id us) (pos 1) }) (u ∷ us))
    | inr h ↦ rw h (handle_all-fixed b (u ∷ us))
  ]

  -- The bot after a poll and its updates, by the offset alone.
  round_next :
      (b : CommandBot) (us : List Update)
      → IsRising (low b.offset) us
      → (round env b (some us)).1 ≡ record b { offset = after_all b.offset us }
  round_next b us r =
      round-fixed b us ∙ ap (λ (d : ℤ). record b { offset = d }) (round-offset env b us r)

  round_effects :
      (b : CommandBot) (us : List Update)
      → (round env b (some us)).0 ≡ effects_of env b (select (λ u. from_allowed env b u.message) us)
  unfolding round
  round_effects b us =
      (handle_all-effects env (after_poll env b us) us).0
      ∙ after_poll-Same env b us us
      ∙ strangers_ignored env b us

module _ (env : Runtime) (json : Decoders) where
  -- what an answer holds
  abbrev pub got : Turn → List Update
  got t = updates_in (read_poll env json t.answer)

  -- What Telegram documents of getUpdates, from an offset on: an answer holds updates from the
  -- offset on, in rising order, and the next offset is past them; the successor of each number is
  -- an int64.
  abbrev pub IsHonest : ℤ → List Turn → Type 0
  IsHonest o [] = Unit
  IsHonest o (t ∷ ts) = IsRising (low o) (got t) × IsHonest (after_all o (got t)) ts

  -- Each turn asks for what comes after all updates before it, and does for its updates just what the
  -- messages of the allowed chat ask for.
  abbrev pub IsChained : CommandBot → ℤ → List Turned → Type 0
  IsChained b o [] = Unit
  IsChained b o (x ∷ xs) =
      (x.url ≡ poll_url env json (record b { offset = o }))
      × IsRising (low o) x.updates
      × (x.effects ≡ effects_of env b (select (λ u. from_allowed env b u.message) x.updates))
      × IsChained b (after_all o x.updates) xs

  IsChained-IsRising :
      (b : CommandBot) (o : ℤ) (xs : List Turned)
      → pos 0 ≤ℤ low o
      → IsChained b o xs
      → IsRising (low o) (all_updates xs)
  IsChained-IsRising b o [] h c = tt
  IsChained-IsRising b o (x ∷ xs) h c =
      let next = low-after_all env o x.updates h c.1 in
      let le = after_all-le (low o) x.updates c.1 in
      IsRising-append (low o) x.updates (all_updates xs) c.1 (
        subst (λ d. IsRising d (all_updates xs)) next
          (IsChained-IsRising b (after_all o x.updates) xs (rw next (omega (arith, h, le))) c.3))

  cons-IsChained :
      (b : CommandBot) (o : ℤ) (ended more : Bool) (x : Turned) (rest : List Turned)
      → x.url ≡ poll_url env json (record b { offset = o })
      → IsRising (low o) x.updates
      → x.effects ≡ effects_of env b (select (λ u. from_allowed env b u.message) x.updates)
      → IsChained b (after_all o x.updates) rest
      → IsChained b o (if ended then [] else x ∷ (if more then rest else []))
  cons-IsChained b o true more x rest url rising effects later = tt
  cons-IsChained b o false true x rest url rising effects later = (url, rising, effects, later)
  cons-IsChained b o false false x rest url rising effects later = (url, rising, effects, tt)

  abbrev after : Polled → CommandBot → CommandBot
  after (poll_failed e) b = b
  after (polled us) b = after_poll env b us

  take_turn_read :
      (b : CommandBot) (t : Turn) (p : Polled)
      → read_poll env json t.answer ≡ p
      → take_turn env json b t ≡ act env json (poll_url env json b) t.ends_waiting p (after p b)
  unfolding take_turn poll
  take_turn_read b t (poll_failed e) h = rw (poll, act, h) refl
  take_turn_read b t (polled us) h = rw (poll, act, h) refl

  turn-IsChained :
      (b : CommandBot) (o : ℤ) (t : Turn) (ts : List Turn) (p : Polled)
      → read_poll env json t.answer ≡ p
      → IsRising (low o) (updates_in p)
      → ((bot : CommandBot)
          → bot ≡ record b { offset = after_all o (updates_in p) }
          → IsChained b (after_all o (updates_in p)) (run_loop env json bot ts))
      → IsChained b o (run_loop env json (record b { offset = o }) (t ∷ ts))
  unfolding run_loop round
  turn-IsChained b o t ts (poll_failed e) h r later =
      rw (take_turn_read (record b { offset = o }) t (poll_failed e) h)
        (cons-IsChained b o t.ended _ _ _ refl tt refl (later (record b { offset = o }) refl))
  turn-IsChained b o t ts (polled us) h r later =
      let c = record b { offset = o } in
      rw (take_turn_read c t (polled us) h) (
        cons-IsChained b o t.ended true _ _ refl r
          (round_effects env c us
            ∙ offset-Same env b o (select (λ u. from_allowed env b u.message) us))
          (later _ (round_next env c us r)))

  run_loop-IsChained :
      (b : CommandBot) (o : ℤ) (ts : List Turn)
      → IsHonest o ts
      → IsChained b o (run_loop env json (record b { offset = o }) ts)
  unfolding run_loop
  run_loop-IsChained b o [] honest = tt
  run_loop-IsChained b o (t ∷ ts) honest =
      turn-IsChained b o t ts (read_poll env json t.answer) refl honest.0
        (λ bot e. rw e (run_loop-IsChained b (after_all o (got t)) ts honest.1))

  -- For a bot with a token and a chat, whatever its requests end with, as long as each accepted
  -- answer holds updates in rising order from the offset that the updates before it lead to, and
  -- the number after each of theirs is an int64: Run first publishes its commands; each getUpdates
  -- asks for what comes after all updates read before, the first for the offset -1; the numbers of
  -- all updates rise, from 0 on; and each turn does just what the messages of the allowed chat among
  -- its updates ask for.
  pub run-IsChained :
      (b : CommandBot) (registering : HttpEnd) (ts : List Turn)
      → b.bot_token ≢ ""
      → b.allowed_chat_id ≢ ""
      → IsHonest (negsuc 0) ts
      → ((run env json b registering ts).registers
          ≡ some (record { url = api_url b.bot_token "setMyCommands"; commands = command_list }))
        × IsChained b (negsuc 0) (run env json b registering ts).turns
        × IsRising (pos 0) (all_updates (run env json b registering ts).turns)
  unfolding run register_commands
  run-IsChained b registering ts p q honest =
      let named = not_empty b.bot_token p in
      let chosen = not_empty b.allowed_chat_id q in
      let chain = run_loop-IsChained b (negsuc 0) ts honest in
      rw (run, named, chosen) (refl, chain, IsChained-IsRising b (negsuc 0) _ (omega arith) chain)
