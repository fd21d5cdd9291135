-- ===== src/Prelude/Human.antt =====
-- humanBytes, which internal/alert/rules.go, internal/api/server.go and cmd/ssm/main.go have in
-- the same words, and human of internal/aireview/aireview.go. A size is kept as the number that
-- is printed, its divisor and the index of its unit; the printing is `Formats`.
pub mod Units
use Prim.Native.Nat.{ℕ, zero, suc, ◌+◌, ◌*◌, ◌/◌, ◌^◌, ◌≤◌, ◌<◌}
use Prim.Native.String.{String, ◌++◌ as cat}
use mathlib.Core.Path.{◌≡◌, refl}
use mathlib.Core.Bool.{Bool, true, false}
use mathlib.Core.Logic.{inl, inr}
use mathlib.Core.Option.{Option, none, some}
use native.Mathlib.Nat.{pow-suc}
use native.Mathlib.Numerals.{add-one, towards_suc}
use native.Mathlib.Omega.{arith}
use server_space_manager_ai.Prelude.Tests.{ltb, leb, if◌then◌else◌, Bool-cases, ltb→lt, leb→le}
use server_space_manager_ai.Prelude.Int.{
  ℤ, pos, negsuc, IsInt64, neg64, ltb_ℤ, leb_ℤ, pos_part, ◌<ℤ◌, ◌≤ℤ◌,
}

pub data Human : Type 0 where
  plain : ℤ → Human
  scaled : Bool → ℤ → ℕ → ℕ → Human

-- `for n := b / u; n >= u; n /= u { div *= u; exp++ }`; `none` where the fuel runs out
unfoldable pub scale : ℕ → ℕ → ℕ → ℕ → Option (ℕ × ℕ)
scale zero n div exp = none
scale (suc fuel) n div exp =
    let rest = scale fuel (n / 1024) (div * 1024) (exp + 1) in
    if leb 1024 n then rest else some (div, exp)

-- Six rounds are enough for an int64.
abbrev pub scale_fuel : ℕ
scale_fuel = 6

-- The divisor and the index of the unit for a size of 1024 bytes at least.
abbrev pub unit_of : ℤ → Option (ℕ × ℕ)
unit_of (pos n) = scale scale_fuel (n / 1024) 1024 0
unit_of (negsuc n) = some (1024, 0)

abbrev pub scaled_by : Bool → ℤ → Option (ℕ × ℕ) → Human
scaled_by neg b none = plain b
scaled_by neg b (some (div, exp)) = scaled neg b div exp

-- humanBytes
unfoldable pub human_bytes : ℤ → Human
human_bytes b = if ltb_ℤ b (pos 1024) then plain b else scaled_by false b (unit_of b)

-- human: with the sign apart, so that a negative size gets its unit too
unfoldable pub human : ℤ → Human
human b =
    if ltb_ℤ (negsuc 1023) b
    then if ltb_ℤ b (pos 1024) then plain b else scaled_by false b (unit_of b)
    else scaled_by true (neg64 b) (unit_of (neg64 b))

-- What `fmt` prints: `%d`, and `%.1f` of a quotient.
pub record Formats : Type 0 where
  pub decimal : ℤ → String
  pub tenths : ℤ → ℕ → String

-- `"KMGTPE"[exp]`: no value where the index is out of range
abbrev pub unit_letter : ℕ → Option String
unit_letter zero = some "K"
unit_letter (suc zero) = some "M"
unit_letter (suc (suc zero)) = some "G"
unit_letter (suc (suc (suc zero))) = some "T"
unit_letter (suc (suc (suc (suc zero)))) = some "P"
unit_letter (suc (suc (suc (suc (suc zero))))) = some "E"
unit_letter (suc (suc (suc (suc (suc (suc n)))))) = none

abbrev with_unit : Option String → String → Option String
with_unit none s = none
with_unit (some u) s = some (cat s (cat " " (cat u "B")))

-- The text; `none` stands for the panic of an index out of range.
unfoldable pub print : Formats → Human → Option String
print fmt (plain b) = some (cat (fmt.decimal b) " B")
print fmt (scaled neg b div exp) =
    with_unit (unit_letter exp) (cat (if neg then "-" else "") (fmt.tenths b div))

-- `div` is the unit of index `exp`, and `b` lies between one and 1024 of it.
abbrev pub IsScale : ℕ → Option (ℕ × ℕ) → Type 0
IsScale b none = ⊥
IsScale b (some (div, exp)) = (exp ≤ 5) × (div ≡ 1024 ^ (exp + 1)) × (div ≤ b) × (b < 1024 * div)

mul_mono : (a b r : ℕ) → a ≤ b → a * r ≤ b * r
mul_mono a b r h = grind arith

pow_next : (e : ℕ) → 1024 ^ (e + 1) ≡ 1024 ^ e * 1024
pow_next e = simp towards_suc (pow-suc 1024 e)

pub scale-IsScale :
    (b fuel n div exp : ℕ)
    → exp + fuel ≡ 6
    → div ≡ 1024 ^ (exp + 1)
    → 0 < n
    → n < 1024 ^ fuel
    → n * div ≤ b
    → b < n * div + div
    → IsScale b (scale fuel n div exp)
unfolding scale
scale-IsScale b zero n div exp f d p t lo hi = absurd (omega arith)
scale-IsScale b (suc fuel) n div exp f d p t lo hi = elim (Bool-cases (leb 1024 n)) [
  | inl more ↦ rw more (
      scale-IsScale b fuel (n / 1024) (div * 1024) (exp + 1) (omega arith)
        (omega (arith, d, pow_next (exp + 1))) (omega (arith, leb→le 1024 n more))
        (omega (arith, t, pow_next fuel, add-one fuel))
        (omega (arith, mul_mono (n / 1024 * 1024) n div (omega arith)))
        (omega (arith, mul_mono (n + 1) (n / 1024 * 1024 + 1024) div (omega arith))))
  | inr done ↦ rw done (
    omega arith,
    d,
    omega (arith, mul_mono 1 n div p),
    omega (arith, mul_mono (n + 1) 1024 div (ground arith)),
  )
]
