-- ===== src/Scanner/Host/Keys.antt =====
-- Which folders the loop over a file's folders gives an entry.
use server_space_manager_ai.Prelude.{
  ◌≡◌, refl, Bool, false, ◌&&◌, ◌||◌, String, List, [], ◌∷◌, ◌++◌, arith, Bool-cases, inl, inr,
}
use server_space_manager_ai.Prelude.Int.{ℤ}
use server_space_manager_ai.Scanner.Paths.{FilePath, rooted, path_eq, dir, names_of}
use server_space_manager_ai.Scanner.Paths.Suffix.{path_eq_refl, path_eq→≡}
use server_space_manager_ai.Scanner.Host.{Root, Sizes, Visit, add_size, is_shallow, count_in}
use server_space_manager_ai.Scanner.Host.Totals.{
  is_between, folders, count_all, between_root, between_step,
}

-- Whether the map has an entry for a folder, be it 0.
abbrev pub holds : FilePath → Sizes → Bool
holds p [] = false
holds p ((k, m) ∷ sizes) = let rest = holds p sizes in path_eq k p || rest

-- A file at or below a folder that is at or below the root and not too deep.
abbrev pub is_counted : Root → List String → FilePath → List Visit → Bool
is_counted r root p [] = false
is_counted r root p (v ∷ vs) =
    let rest = is_counted r root p vs in
    (is_between root p (names_of (dir v.path)) && is_shallow r p) || rest

holds-add_size :
    (p q : FilePath) (n : ℤ) (sizes : Sizes)
    → holds p (add_size q n sizes) ≡ (path_eq q p || holds p sizes)
unfolding add_size
holds-add_size p q n [] = refl
holds-add_size p q n ((k, m) ∷ sizes) = elim (Bool-cases (path_eq k q)) [
  | inl same ↦ rw same (rw (path_eq→≡ k q same) (ground arith))
  | inr other ↦ rw other (ground (arith, holds-add_size p q n sizes))
]

holds-count_in :
    (r : Root) (p q : FilePath) (n : ℤ) (sizes : Sizes)
    → holds p (count_in r q n sizes) ≡ ((path_eq q p && is_shallow r p) || holds p sizes)
holds-count_in r p q n sizes = elim (Bool-cases (path_eq q p)) [
  | inl h ↦ rw (path_eq→≡ q p h) (ground (arith, path_eq_refl p, holds-add_size p p n sizes))
  | inr h ↦ ground (arith, h, holds-add_size p q n sizes)
]

pub holds-count_all :
    (r : Root) (p : FilePath) (ds root : List String) (n : ℤ) (sizes : Sizes)
    → holds p (count_all r (folders ds root) n sizes)
      ≡ ((is_between root p (ds ++ root) && is_shallow r p) || holds p sizes)
holds-count_all r p [] root n sizes =
    rw (between_root root p) (holds-count_in r p (rooted root) n sizes)
holds-count_all r p (d ∷ ds) root n sizes =
    let q = rooted (d ∷ (ds ++ root)) in
    ground (
      arith,
      holds-count_all r p ds root n (count_in r q n sizes),
      holds-count_in r p q n sizes,
      between_step root ds d p,
    )
