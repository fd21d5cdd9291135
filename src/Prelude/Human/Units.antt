-- ===== src/Prelude/Human/Units.antt =====
-- The unit that humanBytes and human choose.
use Prim.Native.Nat.{ℕ, ◌+◌, ◌-◌, ◌*◌, ◌/◌, ◌^◌, ◌≤◌, ◌<◌}
use Prim.Native.String.{String}
use mathlib.Core.Path.{◌≡◌, refl, ap, ◌∙◌}
use mathlib.Core.Logic.{◌≢◌}
use mathlib.Core.Bool.{Bool, true, false}
use mathlib.Core.Option.{Option, none, some}
use native.Mathlib.Omega.{arith}
use server_space_manager_ai.Prelude.Int.{pos, negsuc, neg64, sub64, wrap64, ◌-ℤ◌}
use server_space_manager_ai.Prelude.Human.{
  Human, scaled, unit_of, scaled_by, human_bytes, human, Formats, print, IsScale, scale-IsScale,
}

unit_of-IsScale : (n : ℕ) → 1024 ≤ n → n < 2 ^ 63 → IsScale n (unit_of (pos n))
unit_of-IsScale n lo hi =
    scale-IsScale n 6 (n / 1024) 1024 0 (omega arith) refl (omega arith) (omega arith) (omega arith)
      (omega arith)

-- The unit of index `exp` has the divisor `div`, and the size is one of it at least and less than
-- 1024 of it.
pub record IsUnit (n div exp : ℕ) : Type 0 where
  pub index : exp ≤ 5
  pub power : div ≡ 1024 ^ (exp + 1)
  pub at_least : div ≤ n
  pub below : n < 1024 * div

IsScale-cases :
    (n : ℕ) (o : Option (ℕ × ℕ))
    → IsScale n o
    → (div : ℕ) × (exp : ℕ) × (o ≡ some (div, exp)) × IsUnit n div exp
IsScale-cases n none h = absurd h
IsScale-cases n (some (div, exp)) h =
    (div, exp, refl, record { index = h.0; power = h.1; at_least = h.2; below = h.3 })

human_bytes-pos :
    (n : ℕ) → 1024 ≤ n → human_bytes (pos n) ≡ scaled_by false (pos n) (unit_of (pos n))
unfolding human_bytes
human_bytes-pos n lo = ground arith

human-pos : (n : ℕ) → 1024 ≤ n → human (pos n) ≡ scaled_by false (pos n) (unit_of (pos n))
unfolding human
human-pos n lo = ground arith

neg64-negsuc : (n : ℕ) → 0 < n → n < 2 ^ 63 → neg64 (negsuc (n - 1)) ≡ pos n
unfolding neg64 sub64 wrap64 ◌-ℤ◌
neg64-negsuc n p h = ground arith

human-negsuc :
    (n : ℕ)
    → 1024 ≤ n
    → n < 2 ^ 63
    → human (negsuc (n - 1)) ≡ scaled_by true (pos n) (unit_of (pos n))
unfolding human
human-negsuc n lo hi = ground (arith, neg64-negsuc n (omega arith) hi)

-- A size from 1024 bytes up to the largest int64 is shown in the unit that fits it, by humanBytes
-- and by human, and human shows the same size below zero in the same unit, with its sign.
pub human_bytes-IsUnit :
    (n : ℕ)
    → 1024 ≤ n
    → n < 2 ^ 63
    → (div : ℕ) × (exp : ℕ) × IsUnit n div exp
      × (human_bytes (pos n) ≡ scaled false (pos n) div exp)
      × (human (pos n) ≡ scaled false (pos n) div exp)
      × (human (negsuc (n - 1)) ≡ scaled true (pos n) div exp)
human_bytes-IsUnit n lo hi =
    let (div, exp, e, u) = IsScale-cases n (unit_of (pos n)) (unit_of-IsScale n lo hi) in
    (
      div,
      exp,
      u,
      human_bytes-pos n lo ∙ ap (scaled_by false (pos n)) e,
      human-pos n lo ∙ ap (scaled_by false (pos n)) e,
      human-negsuc n lo hi ∙ ap (scaled_by true (pos n)) e,
    )

module _ (fmt : Formats) where
  abbrev Prints : Human → Type 0
  Prints h = print fmt h ≢ none
