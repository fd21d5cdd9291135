-- ===== src/Prelude/Dict.antt =====
-- A Go map with string keys, as an association list without repeated keys. The program never
-- depends on the order in which a map is walked.
use Prim.Native.Nat.{◌+◌, ◌≤◌}
use Prim.Native.String.{String}
use mathlib.Core.Path.{◌≡◌, refl}
use mathlib.Core.Bool.{Bool}
use mathlib.Core.Option.{Option, none, some}
use mathlib.Core.List.{List, [], ◌∷◌}
use native.Mathlib.Omega.{arith}
use text.Mathlib.Text.{◌==◌}
use text.Mathlib.TextEquality.{eq_iff}
use server_space_manager_ai.Prelude.Tests.{if◌then◌else◌}
use server_space_manager_ai.Prelude.Lists.{length}

abbrev pub Dict {ℓ} : Type ℓ → Type ℓ
Dict V = List (String × V)

module _ {ℓ} {V : Type ℓ} where
  -- `v, ok := m[k]`
  unfoldable pub get : Dict V → String → Option V
  get [] k = none
  get ((j, v) ∷ m) k = if j == k then some v else get m k

  -- `delete(m, k)`
  unfoldable pub remove : Dict V → String → Dict V
  remove [] k = []
  remove ((j, v) ∷ m) k = let rest = remove m k in if j == k then rest else (j, v) ∷ rest

  -- `m[k] = v`
  unfoldable pub put : Dict V → String → V → Dict V
  unfolding remove
  put m k v = (k, v) ∷ remove m k

  -- `for k, v := range m { if old(v) { delete(m, k) } }`
  unfoldable pub sweep : (V → Bool) → Dict V → Dict V
  sweep old [] = []
  sweep old ((j, v) ∷ m) = let rest = sweep old m in if old v then rest else (j, v) ∷ rest

  -- No key stands twice.
  abbrev pub IsUnique : Dict V → Type ℓ
  IsUnique [] = Unit
  IsUnique ((j, v) ∷ m) = (get m j ≡ none) × IsUnique m

  abbrev pub unless : (V → Bool) → Option V → Option V
  unless old none = none
  unless old (some v) = if old v then none else some v

module _ {ℓ} {V : Type ℓ} where
  pub get-remove :
      (m : Dict V) (k j : String) → get (remove m k) j ≡ (if k == j then none else get m j)
  unfolding get remove
  get-remove [] k j = ground arith
  get-remove ((i, v) ∷ m) k j = ground (arith, get-remove m k j, eq_iff i k, eq_iff i j, eq_iff k j)

  pub get-put :
      (m : Dict V) (k j : String) (v : V) → get (put m k v) j ≡ (if k == j then some v else get m j)
  unfolding get put
  get-put m k j v = ground (arith, get-remove m k j)

  pub get-sweep-none :
      (old : V → Bool) (m : Dict V) (k : String) → get m k ≡ none → get (sweep old m) k ≡ none
  unfolding get sweep
  get-sweep-none old [] k h = refl
  get-sweep-none old ((j, v) ∷ m) k h = ground (arith, get-sweep-none old m k)

  pub get-sweep :
      (old : V → Bool) (m : Dict V) (k : String)
      → IsUnique m
      → get (sweep old m) k ≡ unless old (get m k)
  unfolding get sweep
  get-sweep old [] k u = refl
  get-sweep old ((j, v) ∷ m) k u =
      ground (arith, get-sweep old m k u.1, get-sweep-none old m j u.0, eq_iff j k)

  pub remove-IsUnique : (m : Dict V) (k : String) → IsUnique m → IsUnique (remove m k)
  unfolding remove
  remove-IsUnique [] k u = tt
  remove-IsUnique ((j, v) ∷ m) k u =
      ground (arith, remove-IsUnique m k u.1, get-remove m k j, eq_iff j k, eq_iff k j)

  pub put-IsUnique : (m : Dict V) (k : String) (v : V) → IsUnique m → IsUnique (put m k v)
  unfolding put
  put-IsUnique m k v u = ground (arith, get-remove m k k, eq_iff k k, remove-IsUnique m k u)

  pub sweep-IsUnique : (old : V → Bool) (m : Dict V) → IsUnique m → IsUnique (sweep old m)
  unfolding sweep
  sweep-IsUnique old [] u = tt
  sweep-IsUnique old ((j, v) ∷ m) u =
      ground (arith, sweep-IsUnique old m u.1, get-sweep-none old m j u.0)

  pub length-remove-le : (m : Dict V) (k : String) → length (remove m k) ≤ length m
  unfolding remove
  length-remove-le [] k = omega arith
  length-remove-le ((j, v) ∷ m) k = ground (arith, length-remove-le m k)

  pub length-sweep-le : (old : V → Bool) (m : Dict V) → length (sweep old m) ≤ length m
  unfolding sweep
  length-sweep-le old [] = omega arith
  length-sweep-le old ((j, v) ∷ m) = ground (arith, length-sweep-le old m)

  pub length-put-le : (m : Dict V) (k : String) (v : V) → length (put m k v) ≤ length m + 1
  unfolding put
  length-put-le m k v = omega (arith, length-remove-le m k)

  pub remove_absent : (m : Dict V) (k : String) → get m k ≡ none → remove m k ≡ m
  unfolding get remove
  remove_absent [] k h = refl
  remove_absent ((j, v) ∷ m) k h = ground (arith, remove_absent m k)
