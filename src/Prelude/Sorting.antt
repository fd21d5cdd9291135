-- ===== src/Prelude/Sorting.antt =====
-- `sort.Slice`: its documented contract as an interface, and an insertion sort that meets it.
-- The order of entries that compare equal is left open, as the documentation leaves it.
use Prim.Native.Nat.{ℕ, zero, suc, min}
use mathlib.Core.Path.{◌≡◌, refl, ap, ◌∙◌, subst}
use mathlib.Core.Bool.{Bool, true, false}
use mathlib.Core.List.{List, [], ◌∷◌, ◌++◌, Permᴰ}
use native.Mathlib.Omega.{arith}
use server_space_manager_ai.Prelude.Lists.{
  All, length, length-take, take-append-drop, All-take, take, drop,
}
use server_space_manager_ai.Prelude.Int.{ℤ, ltb_ℤ}

module _ {A : Type 0} where
  -- A strict weak order, which `sort.Slice` asks of its `less`.
  pub record IsWeakOrder (less : A → A → Bool) : Type 0 where
    pub asym : (a b : A) → less a b ≡ true → less b a ≡ false
    pub trans : (a b c : A) → less a b ≡ false → less b c ≡ false → less a c ≡ false

  -- No entry is less than one before it.
  abbrev pub IsSortedBy : (A → A → Bool) → List A → Type 0
  IsSortedBy less [] = Unit
  IsSortedBy less (x ∷ xs) = All (λ y. less y x ≡ false) xs × IsSortedBy less xs

  -- `sort.Slice(xs, func(i, j int) bool { return key(xs[i]) > key(xs[j]) })`
  abbrev pub by_desc : (A → ℤ) → A → A → Bool
  by_desc key a b = ltb_ℤ (key b) (key a)

  pub by_desc-IsWeakOrder : (key : A → ℤ) → IsWeakOrder (by_desc key)
  by_desc-IsWeakOrder key = record {
    asym = λ a b h. ground arith;
    trans = λ a b c h k. ground arith;
  }

  pub All-perm {κ} : (P : A → Type κ) {xs ys : List A} → Permᴰ xs ys → All P xs → All P ys
  All-perm P Permᴰ.nil h = h
  All-perm P (Permᴰ.cons e p) h = (subst P e h.0, All-perm P p h.1)
  All-perm P (Permᴰ.swap e f) h = (subst P f h.1.0, (subst P e h.0, h.1.1))
  All-perm P (Permᴰ.trans p q) h = All-perm P q (All-perm P p h)

  pub length-perm : {xs ys : List A} → Permᴰ xs ys → length xs ≡ length ys
  length-perm Permᴰ.nil = refl
  length-perm (Permᴰ.cons x p) = ap suc (length-perm p)
  length-perm (Permᴰ.swap x y) = refl
  length-perm (Permᴰ.trans p q) = length-perm p ∙ length-perm q

  All-drop {κ} : (P : A → Type κ) (n : ℕ) (xs : List A) → All P xs → All P (drop n xs)
  All-drop P zero xs h = h
  All-drop P (suc n) [] h = tt
  All-drop P (suc n) (x ∷ xs) h = All-drop P n xs h.1

  -- What a cut after `n` entries of a sorted list leaves out is not less than what it keeps.
  pub take-IsLeast :
      (less : A → A → Bool) (n : ℕ) (xs : List A)
      → IsSortedBy less xs
      → All (λ y. All (λ z. less z y ≡ false) (drop n xs)) (take n xs)
  take-IsLeast less zero xs s = tt
  take-IsLeast less (suc n) [] s = tt
  take-IsLeast less (suc n) (x ∷ xs) s =
      (All-drop (λ z. less z x ≡ false) n xs s.0, take-IsLeast less n xs s.1)

  pub take-IsSortedBy :
      (less : A → A → Bool) (n : ℕ) (xs : List A) → IsSortedBy less xs → IsSortedBy less (take n xs)
  take-IsSortedBy less zero xs s = tt
  take-IsSortedBy less (suc n) [] s = tt
  take-IsSortedBy less (suc n) (x ∷ xs) s =
      (All-take (λ z. less z x ≡ false) n xs s.0, take-IsSortedBy less n xs s.1)

  -- `ys` are the first `n` entries of `xs` in the order of `less`, or all if there are fewer.
  pub record IsTop (less : A → A → Bool) (n : ℕ) (xs ys : List A) : Type 0 where
    pub rest : List A
    pub split : Permᴰ (ys ++ rest) xs
    pub sorted : IsSortedBy less ys
    pub least : All (λ y. All (λ z. less z y ≡ false) rest) ys
    pub size : length ys ≡ min n (length xs)

-- The contract of `sort.Slice`.
pub record Sorter : Type 1 where
  pub sort : {A : Type 0} → (A → A → Bool) → List A → List A
  pub sort-perm : {A : Type 0} (less : A → A → Bool) (xs : List A) → Permᴰ (sort less xs) xs
  pub sort-IsSortedBy :
      {A : Type 0} (less : A → A → Bool) (xs : List A)
      → IsWeakOrder less
      → IsSortedBy less (sort less xs)

module _ {A : Type 0} (less : A → A → Bool) (n : ℕ) (xs : List A) where
  pub cut_sorted-IsTop :
      (all : List A) → Permᴰ all xs → IsSortedBy less all → IsTop less n xs (take n all)
  cut_sorted-IsTop all perm sorted = record {
    rest = drop n all;
    split = rw take-append-drop perm;
    sorted = take-IsSortedBy less n all sorted;
    least = take-IsLeast less n all sorted;
    size = length-take n all ∙ ap (min n) (length-perm perm);
  }

  pub take_sort-IsTop : (s : Sorter) → IsWeakOrder less → IsTop less n xs (take n (s.sort less xs))
  take_sort-IsTop s order =
      cut_sorted-IsTop (s.sort less xs) (s.sort-perm less xs) (s.sort-IsSortedBy less xs order)
