-- ===== src/Alert/CommandBot/Replies/Delivered.antt =====
-- The dedupe of the notifier never takes a reply of the bot.
use text.Mathlib.TextLemmas.{append_cancel_left}
use text.Mathlib.TextPositions.{starts_with-append}
use server_space_manager_ai.Prelude.{
  not_empty, ℕ, ◌+◌, ◌-◌, ◌≤◌, ◌≡◌, ◌≢◌, refl, ap, ◌∙◌, String, Bool, true, false, Option, none,
  some, List, [], ◌∷◌, ◌++◌, arith, str_eq, eq_iff, starts_with, Bool-cases, Option-cases, inl, inr,
  ltb, length,
}
use server_space_manager_ai.Prelude.Dict.{
  get, put, IsUnique, get-put, get-sweep, put-IsUnique, unless,
}
use server_space_manager_ai.Alert.CommandBot.Replies.{
  Handled, reply_text, reply_prefix, reply_key, send_reply, Sending, performs, notifies,
  sent_replies,
}
use server_space_manager_ai.Alert.Telegram.{
  Telegram, Outcome, Call, max_dedupe_entries, enabled, is_recent, remember, new_telegram, send,
}
use server_space_manager_ai.Alert.Telegram.Dedupe.{
  remember-fixed, remember-IsUnique, post-IsPosted, send-posted, send-suppressed,
}

abbrev text_list : Option String → List String
text_list none = []
text_list (some text) = text ∷ []

-- the replies of the effects, in order
abbrev pub replies_of : Handled → List Sending → List String
replies_of h [] = []
replies_of h (performs e now outcome ∷ ss) = text_list (reply_text h e) ++ replies_of h ss
replies_of h (notifies c ∷ ss) = replies_of h ss

-- The clock moves on from one reply to the next, and no other key looks like one of a reply.
abbrev pub IsTicking : ℕ → List Sending → Type 0
IsTicking low [] = Unit
IsTicking low (performs e now outcome ∷ ss) = (low ≤ now) × IsTicking (now + 1) ss
IsTicking low (notifies c ∷ ss) = (starts_with c.key reply_prefix ≡ false) × IsTicking low ss

unless-none : {V : Type 0} (old : V → Bool) (o : Option V) → o ≡ none → unless old o ≡ none
unless-none old o h = rw h refl

-- A key is new to a map that has noted another one.
remember_other :
    (key k : String) (now : ℕ) (t : Telegram)
    → IsUnique t.last
    → str_eq key k ≡ false
    → get t.last k ≡ none
    → get (remember key now t).last k ≡ none
unfolding remember
remember_other key k now t u other h =
    let noted : get (put t.last key now) k ≡ none = get-put t.last key k now ∙ rw other h in
    elim (Bool-cases (ltb max_dedupe_entries (length (put t.last key now)))) [
      | inl e ↦ rw e (
          get-sweep (λ ts. ltb ts (now - t.dedupe_window)) (put t.last key now) k
            (put-IsUnique t.last key now u)
          ∙ unless-none _ _ noted)
      | inr e ↦ rw e noted
    ]

module _ (decimal : ℕ → String) (inject : (a b : ℕ) → decimal a ≡ decimal b → a ≡ b) where
  -- The map has no key of a reply from `low` on.
  abbrev IsFresh : ℕ → Telegram → Type 0
  IsFresh low t = (n : ℕ) → low ≤ n → get t.last (reply_key decimal n) ≡ none

  reply_key_other : (a b : ℕ) → a ≢ b → str_eq (reply_key decimal a) (reply_key decimal b) ≡ false
  reply_key_other a b h = elim (Bool-cases (str_eq (reply_key decimal a) (reply_key decimal b))) [
    | inl e ↦ absurd (
        h (
          inject a b (
            append_cancel_left reply_prefix (decimal a) (decimal b)
              ((eq_iff (reply_key decimal a) (reply_key decimal b)).0 e))))
    | inr e ↦ e
  ]

  other_key :
      (key : String) (n : ℕ)
      → starts_with key reply_prefix ≡ false
      → str_eq key (reply_key decimal n) ≡ false
  other_key key n h = elim (Bool-cases (str_eq key (reply_key decimal n))) [
    | inl e ↦
        let same = (eq_iff key (reply_key decimal n)).0 e in
        let clash : starts_with key reply_prefix ≡ true =
          rw same (starts_with-append reply_prefix (decimal n)) in
        absurd cc
    | inr e ↦ e
  ]

  -- What the sending keeps.
  record IsReady (low : ℕ) (t : Telegram) : Type 0 where
    enables : enabled t ≡ true
    unique : IsUnique t.last
    fresh : IsFresh low t

  remember-IsReady :
      (low next now : ℕ) (key : String) (t : Telegram)
      → low ≤ next
      → ((n : ℕ) → next ≤ n → str_eq key (reply_key decimal n) ≡ false)
      → IsReady low t
      → IsReady next (remember key now t)
  remember-IsReady low next now key t le other r = record {
    enables = (remember-fixed key now t).1 ∙ r.enables;
    unique = remember-IsUnique key now t r.unique;
    fresh = λ n after.
        remember_other key (reply_key decimal n) now t r.unique (other n after)
          (r.fresh n (omega arith));
  }

  reply_sent :
      (low now : ℕ) (outcome : Outcome) (text : String) (t : Telegram)
      → low ≤ now
      → IsReady low t
      → send_reply decimal (some t) now outcome text
        ≡ (text ∷ [], some (remember (reply_key decimal now) now t))
  unfolding send_reply
  reply_sent low now outcome text t le r =
      let old : is_recent t.dedupe_window now (get t.last (reply_key decimal now)) ≡ false =
        rw (r.fresh now le) refl in
      rw (send-posted (reply_key decimal now) now outcome t r.enables old, post-IsPosted outcome)
        refl

  send-IsReady :
      (low : ℕ) (c : Call) (t : Telegram)
      → starts_with c.key reply_prefix ≡ false
      → IsReady low t
      → IsReady low (send c.key c.at c.outcome t).1
  send-IsReady low c t other r =
      elim (Bool-cases (is_recent t.dedupe_window c.at (get t.last c.key))) [
        | inl recent ↦ rw (send-suppressed c.key c.at c.outcome t r.enables recent) r
        | inr old ↦ rw (send-posted c.key c.at c.outcome t r.enables old) (
            remember-IsReady low low c.at c.key t (omega arith) (λ n after. other_key c.key n other)
              r)
      ]

  delivered :
      (h : Handled) (low : ℕ) (t : Telegram) (ss : List Sending)
      → IsTicking low ss
      → IsReady low t
      → sent_replies h decimal (some t) ss ≡ replies_of h ss
  unfolding sent_replies
  delivered h low t [] o r = refl
  delivered h low t (performs e now outcome ∷ ss) o r = elim (Option-cases (reply_text h e)) [
    | inl quiet ↦ rw quiet (
        delivered h (now + 1) t ss o.1 (record {
          enables = r.enables;
          unique = r.unique;
          fresh = λ n after. r.fresh n (omega (arith, o.0));
        }))
    | inr (text, says) ↦
        let key = reply_key decimal now in
        let next =
          remember-IsReady low (now + 1) now key t (omega (arith, o.0))
            (λ n after. reply_key_other now n (λ e. omega (arith, e))) r in
        rw says (
          ap (λ (p : List String × Option Telegram). p.0 ++ sent_replies h decimal p.1 ss)
            (reply_sent low now outcome text t o.0 r)
          ∙ ap (◌∷◌ text) (delivered h (now + 1) (remember key now t) ss o.1 next))
  ]
  delivered h low t (notifies c ∷ ss) o r =
      delivered h low (send c.key c.at c.outcome t).1 ss o.1 (send-IsReady low c t o.0 r)

  -- For a notifier with a token and a chat, a printing of numbers that tells them apart, replies
  -- of the bot at times that rise, and other messages whose keys do not begin with "cmd-reply:": a
  -- request is made for each reply, with its text and in order, whatever is sent between them and
  -- whatever becomes of the requests; only a job that says nothing has no reply.
  pub sent_replies-replies_of :
      (h : Handled) (bot_token chat_id : String) (ss : List Sending)
      → bot_token ≢ ""
      → chat_id ≢ ""
      → IsTicking 0 ss
      → sent_replies h decimal (some (new_telegram bot_token chat_id)) ss ≡ replies_of h ss
  unfolding new_telegram enabled get
  sent_replies-replies_of h bot_token chat_id ss p q o =
      delivered h 0 (new_telegram bot_token chat_id) ss o (record {
        enables = rw (not_empty bot_token p, not_empty chat_id q) refl;
        unique = tt;
        fresh = λ n after. refl;
      })
