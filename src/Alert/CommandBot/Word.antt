-- ===== src/Alert/CommandBot/Word.antt =====
-- The command word of a message.
use server_space_manager_ai.Prelude.{
  ℕ, ◌≤◌, ◌<◌, ◌≡◌, ◌≢◌, ◌⊎◌, refl, ap, [], ◌∷◌, ◌++◌, arith, All, All-map, All-append,
}
use server_space_manager_ai.Prelude.Runes.{Text}
use server_space_manager_ai.Alert.CommandBot.{until, lower_rune, to_lower, command_word}

-- A code point of a command: visible ASCII, no capital and no `@`.
abbrev pub IsPlain : ℕ → Type 0
IsPlain c = (33 ≤ c) × (c < 127) × (c ≢ 64) × ((c < 65) ⊎ (90 < c))

until-append :
    (stop : ℕ) (w rest : Text) → All (λ c. c ≢ stop) w → until stop (w ++ stop ∷ rest) ≡ w
unfolding until
until-append stop [] rest h = ground arith
until-append stop (c ∷ w) rest h = ground (arith, until-append stop w rest h.1)

until-All : (stop : ℕ) (w : Text) → All (λ c. c ≢ stop) w → until stop w ≡ w
unfolding until
until-All stop [] h = refl
until-All stop (c ∷ w) h = ground (arith, until-All stop w h.1)

to_lower-append :
    (beyond : ℕ → ℕ) (s t : Text)
    → to_lower beyond (s ++ t) ≡ to_lower beyond s ++ to_lower beyond t
unfolding to_lower
to_lower-append beyond [] t = refl
to_lower-append beyond (c ∷ s) t = ap (◌∷◌ (lower_rune beyond c)) (to_lower-append beyond s t)

to_lower_plain : (beyond : ℕ → ℕ) (w : Text) → All IsPlain w → to_lower beyond w ≡ w
unfolding to_lower
to_lower_plain beyond [] h = refl
to_lower_plain beyond (c ∷ w) h = ground (arith, to_lower_plain beyond w h.1)

plain-no_space : (w : Text) → All IsPlain w → All (λ c. c ≢ 32) w
plain-no_space = All-map (λ c h. omega arith)

plain-no_at : (w : Text) → All IsPlain w → All (λ c. c ≢ 64) w
plain-no_at = All-map (λ c h. h.2)

-- A command of printable ASCII characters other than a space, `@` and capital letters reads the
-- same alone, with arguments behind it, and with a bot's name without a space and arguments behind
-- it.
pub command_word_lem :
    (beyond : ℕ → ℕ) (w name args : Text)
    → All IsPlain w
    → All (λ c. c ≢ 32) name
    → (command_word beyond w ≡ w)
      × (command_word beyond (w ++ 32 ∷ args) ≡ w)
      × (command_word beyond ((w ++ 64 ∷ name) ++ 32 ∷ args) ≡ w)
unfolding command_word
command_word_lem beyond w name args p n =
    let no_space = plain-no_space w p in
    let no_at = plain-no_at w p in
    let named = All-append (λ c. c ≢ 32) w (64 ∷ name) no_space (λ e. cc, n) in
    (
      rw (until-All 32 w no_space, to_lower_plain beyond w p) (until-All 64 w no_at),
      rw (until-append 32 w args no_space, to_lower_plain beyond w p) (until-All 64 w no_at),
      rw
          (
            until-append 32 (w ++ 64 ∷ name) args named,
            to_lower-append beyond w (64 ∷ name),
            to_lower_plain beyond w p,
          )
          (until-append 64 w (to_lower beyond name) no_at),
    )
