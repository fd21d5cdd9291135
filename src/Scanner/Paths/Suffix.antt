-- ===== src/Scanner/Paths/Suffix.antt =====
-- Equal paths, and the names of a folder above another.
use server_space_manager_ai.Prelude.{
  ◌≤◌, ◌<◌, ◌≡◌, refl, ap, String, Bool, true, false, List, [], ◌∷◌, ◌++◌, arith, eq_iff, length,
  if◌then◌else◌, Bool-cases, inl, inr,
}
use server_space_manager_ai.Scanner.Paths.{
  FilePath, rooted, relative, path_eq, names_eq, names_eq_refl, names_eq→≡,
}

-- `xs` are the last names of `ys`, or all of them: the names of a folder above, or of the same one.
abbrev pub is_suffix : List String → List String → Bool
is_suffix xs [] = names_eq xs []
is_suffix xs (y ∷ ys) = let rest = is_suffix xs ys in if names_eq xs (y ∷ ys) then true else rest

pub path_eq_refl : (p : FilePath) → path_eq p p ≡ true
path_eq_refl (rooted ns) = names_eq_refl ns
path_eq_refl (relative ns) = names_eq_refl ns

pub path_eq→≡ : (p q : FilePath) → path_eq p q ≡ true → p ≡ q
path_eq→≡ (rooted ns) (rooted ms) h = ap rooted (names_eq→≡ ns ms h)
path_eq→≡ (rooted ns) (relative ms) h = absurd cc
path_eq→≡ (relative ns) (rooted ms) h = absurd cc
path_eq→≡ (relative ns) (relative ms) h = ap relative (names_eq→≡ ns ms h)

pub path_eq_other :
    (k p q : FilePath) → path_eq k p ≡ true → path_eq k q ≡ false → path_eq q p ≡ false
path_eq_other k p q h o = elim (Bool-cases (path_eq q p)) [
  | inl e ↦
      let same : path_eq k q ≡ true = rw (path_eq→≡ k p h, path_eq→≡ q p e) (path_eq_refl p) in
      absurd (cc (same, o))
  | inr e ↦ e
]

pub names_eq_sym : (ns ms : List String) → names_eq ns ms ≡ names_eq ms ns
names_eq_sym [] [] = refl
names_eq_sym [] (m ∷ ms) = refl
names_eq_sym (n ∷ ns) [] = refl
names_eq_sym (n ∷ ns) (m ∷ ms) = ground (arith, names_eq_sym ns ms, eq_iff n m, eq_iff m n)

pub length-is_suffix : (xs ys : List String) → is_suffix xs ys ≡ true → length xs ≤ length ys
length-is_suffix xs [] h = rw (names_eq→≡ xs [] h) (omega arith)
length-is_suffix xs (y ∷ ys) h = elim (Bool-cases (names_eq xs (y ∷ ys))) [
  | inl e ↦ rw (names_eq→≡ xs (y ∷ ys) e) (omega arith)
  | inr o ↦ omega (arith, length-is_suffix xs ys (rw o at h))
]

pub is_suffix_refl : (ys : List String) → is_suffix ys ys ≡ true
is_suffix_refl [] = refl
is_suffix_refl (y ∷ ys) = rw (names_eq_refl (y ∷ ys)) refl

pub is_suffix-append : (ds root : List String) → is_suffix root (ds ++ root) ≡ true
is_suffix-append [] root = is_suffix_refl root
is_suffix-append (d ∷ ds) root = ground (arith, is_suffix-append ds root)

pub same_length :
    (xs ys : List String) → is_suffix xs ys ≡ true → length ys ≤ length xs → names_eq xs ys ≡ true
same_length xs [] h l = h
same_length xs (y ∷ ys) h l = elim (Bool-cases (names_eq xs (y ∷ ys))) [
  | inl e ↦ e
  | inr o ↦ absurd (omega (arith, l, length-is_suffix xs ys (rw o at h)))
]

pub longer_no_suffix : (ps ys : List String) → length ys < length ps → is_suffix ps ys ≡ false
longer_no_suffix ps ys h = elim (Bool-cases (is_suffix ps ys)) [
  | inl e ↦ absurd (omega (arith, h, length-is_suffix ps ys e))
  | inr e ↦ e
]
