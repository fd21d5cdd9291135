-- ===== src/Prelude/Insertion.antt =====
-- An insertion sort, which shows that the contract of `sort.Slice` can be met. It also runs.
use mathlib.Core.Path.{◌≡◌, refl}
use mathlib.Core.Logic.{inl, inr}
use mathlib.Core.Bool.{Bool, false}
use mathlib.Core.List.Permᴰ
use mathlib.Core.List.{List, [], ◌∷◌, Permᴰ}
use server_space_manager_ai.Prelude.Tests.{if◌then◌else◌, Bool-cases}
use server_space_manager_ai.Prelude.Lists.{All-map}
use server_space_manager_ai.Prelude.Sorting.{IsWeakOrder, IsSortedBy, Sorter, All-perm}

module _ {A : Type 0} (less : A → A → Bool) where
  pub insert : A → List A → List A
  insert x [] = x ∷ []
  insert x (y ∷ ys) = let later = y ∷ insert x ys in if less y x then later else x ∷ y ∷ ys

  pub insertion_sort : List A → List A
  unfolding insert
  insertion_sort [] = []
  insertion_sort (x ∷ xs) = insert x (insertion_sort xs)

  pub insert-perm : (x : A) (ys : List A) → Permᴰ (insert x ys) (x ∷ ys)
  unfolding insert
  insert-perm x [] = Permᴰ.cons refl Permᴰ.nil
  insert-perm x (y ∷ ys) = elim (Bool-cases (less y x)) [
    | inl h ↦ rw h (Permᴰ.trans (Permᴰ.cons refl (insert-perm x ys)) (Permᴰ.swap refl refl))
    | inr h ↦ rw h (Permᴰ.cons refl (Permᴰ.cons refl (Permᴰ.refl ys)))
  ]

  pub insertion_sort-perm : (xs : List A) → Permᴰ (insertion_sort xs) xs
  unfolding insertion_sort
  insertion_sort-perm [] = Permᴰ.nil
  insertion_sort-perm (x ∷ xs) =
      Permᴰ.trans (insert-perm x (insertion_sort xs)) (Permᴰ.cons refl (insertion_sort-perm xs))

module _ {A : Type 0} (less : A → A → Bool) (order : IsWeakOrder less) where
  pub insert-IsSortedBy :
      (x : A) (ys : List A) → IsSortedBy less ys → IsSortedBy less (insert less x ys)
  unfolding insert
  insert-IsSortedBy x [] s = (tt, tt)
  insert-IsSortedBy x (y ∷ ys) s = elim (Bool-cases (less y x)) [
    | inl h ↦ rw h (
      All-perm (λ z. less z y ≡ false) (Permᴰ.symm (insert-perm less x ys)) (order.asym y x h, s.0),
      insert-IsSortedBy x ys s.1,
    )
    | inr h ↦ rw h ((h, All-map (λ z below. order.trans z y x below h) ys s.0), s)
  ]

  pub insertion_sort-IsSortedBy : (xs : List A) → IsSortedBy less (insertion_sort less xs)
  unfolding insertion_sort
  insertion_sort-IsSortedBy [] = tt
  insertion_sort-IsSortedBy (x ∷ xs) =
      insert-IsSortedBy x (insertion_sort less xs) (insertion_sort-IsSortedBy xs)

unfoldable pub insertion_sorter : Sorter
unfolding insertion_sort insertion_sort-perm insertion_sort-IsSortedBy
insertion_sorter = record {
  sort = λ less xs. insertion_sort less xs;
  sort-perm = λ less xs. insertion_sort-perm less xs;
  sort-IsSortedBy = λ less xs order. insertion_sort-IsSortedBy less order xs;
}
