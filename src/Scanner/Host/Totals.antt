-- ===== src/Scanner/Host/Totals.antt =====
-- What the loop over a file's folders adds up, folder by folder.
use server_space_manager_ai.Prelude.{
  suc, ◌≡◌, refl, ap, sym, ◌∙◌, Bool, true, false, ◌&&◌, ◌||◌, Option, some, String, List, [], ◌∷◌,
  ◌++◌, arith, length, ltb, length-append, if◌then◌else◌, Bool-cases, inl, inr, All,
}
use server_space_manager_ai.Prelude.Int.{ℤ, pos, add64}
use server_space_manager_ai.Scanner.Paths.{
  FilePath, rooted, relative, path_eq, dir, separators, names_eq, names_eq_refl, names_eq→≡,
}
use server_space_manager_ai.Scanner.Paths.Suffix.{
  is_suffix, path_eq_refl, path_eq→≡, path_eq_other, names_eq_sym, length-is_suffix, is_suffix_refl,
  is_suffix-append, same_length, longer_no_suffix,
}
use server_space_manager_ai.Scanner.Host.{
  Root, Sizes, add_size, root_depth, is_last, is_shallow, count_in, attribute,
}

-- What the map holds for a folder, 0 for none.
abbrev pub total_at : FilePath → Sizes → ℤ
total_at p [] = pos 0
total_at p ((k, m) ∷ sizes) = let rest = total_at p sizes in if path_eq k p then m else rest

-- No folder stands twice.
abbrev pub IsOnce : Sizes → Type 0
IsOnce [] = Unit
IsOnce ((k, m) ∷ sizes) = All (λ e. path_eq k e.0 ≡ false) sizes × IsOnce sizes

-- A folder from `root` down to the one with the names `ns`.
abbrev pub is_between : List String → FilePath → List String → Bool
is_between root (rooted ps) ns = is_suffix root ps && is_suffix ps ns
is_between root (relative ps) ns = false

total_at-add_size :
    (p q : FilePath) (n : ℤ) (sizes : Sizes)
    → total_at p (add_size q n sizes)
      ≡ (if path_eq q p then add64 (total_at p sizes) n else total_at p sizes)
unfolding add_size
total_at-add_size p q n [] = refl
total_at-add_size p q n ((k, m) ∷ sizes) = elim (Bool-cases (path_eq k q)) [
  | inl same ↦
      let e = path_eq→≡ k q same in
      rw same (rw e (elim (Bool-cases (path_eq q p)) [ inl h ↦ rw h refl | inr h ↦ rw h refl ]))
  | inr other ↦ rw other (elim (Bool-cases (path_eq k p)) [
    | inl h ↦ rw h (rw (path_eq_other k p q h other) refl)
    | inr h ↦ rw h (total_at-add_size p q n sizes)
  ])
]

add_size-All :
    (k q : FilePath) (n : ℤ) (sizes : Sizes)
    → path_eq k q ≡ false
    → All (λ e. path_eq k e.0 ≡ false) sizes
    → All (λ e. path_eq k e.0 ≡ false) (add_size q n sizes)
unfolding add_size
add_size-All k q n [] h a = (h, tt)
add_size-All k q n ((j, m) ∷ sizes) h a = elim (Bool-cases (path_eq j q)) [
  | inl same ↦ rw same a
  | inr other ↦ rw other (a.0, add_size-All k q n sizes h a.1)
]

pub add_size-IsOnce :
    (q : FilePath) (n : ℤ) (sizes : Sizes) → IsOnce sizes → IsOnce (add_size q n sizes)
unfolding add_size
add_size-IsOnce q n [] o = (tt, tt)
add_size-IsOnce q n ((k, m) ∷ sizes) o = elim (Bool-cases (path_eq k q)) [
  | inl same ↦ rw same o
  | inr other ↦ rw other (add_size-All k q n sizes other o.0, add_size-IsOnce q n sizes o.1)
]

-- folders below the root, from the lowest up
abbrev pub folders : List String → List String → List FilePath
folders [] root = rooted root ∷ []
folders (d ∷ ds) root = rooted (d ∷ (ds ++ root)) ∷ folders ds root

-- one folder further down
pub between_step :
    (root ds : List String) (d : String) (p : FilePath)
    → is_between root p (d ∷ (ds ++ root))
      ≡ (path_eq (rooted (d ∷ (ds ++ root))) p || is_between root p (ds ++ root))
between_step root ds d (relative ps) = refl
between_step root ds d (rooted ps) = elim (Bool-cases (names_eq ps (d ∷ (ds ++ root)))) [
  | inl e ↦
      let same = names_eq→≡ ps (d ∷ (ds ++ root)) e in
      let above : is_suffix root ps ≡ true = rw same (is_suffix-append (d ∷ ds) root) in
      ground (arith, e, above, names_eq_sym ps (d ∷ (ds ++ root)))
  | inr o ↦ ground (arith, o, names_eq_sym ps (d ∷ (ds ++ root)))
]

not_lower :
    (root ds : List String) (d : String) (p : FilePath)
    → path_eq (rooted (d ∷ (ds ++ root))) p ≡ true
    → is_between root p (ds ++ root) ≡ false
not_lower root ds d (relative ps) h = refl
not_lower root ds d (rooted ps) h =
    let same : ps ≡ d ∷ (ds ++ root) = sym (names_eq→≡ (d ∷ (ds ++ root)) ps h) in
    let no : is_suffix ps (ds ++ root) ≡ false =
      longer_no_suffix ps (ds ++ root) (rw same (omega arith)) in
    ground (arith, no)

pub between_root :
    (root : List String) (p : FilePath) → is_between root p root ≡ path_eq (rooted root) p
between_root root (relative ps) = refl
between_root root (rooted ps) = elim (Bool-cases (names_eq root ps)) [
  | inl e ↦
      let same = names_eq→≡ root ps e in
      rw (← same) (ground (arith, is_suffix_refl root, names_eq_refl root))
  | inr o ↦ elim (Bool-cases (is_suffix root ps)) [
    | inl h ↦ elim (Bool-cases (is_suffix ps root)) [
      | inl k ↦ let l = length-is_suffix ps root k in absurd (cc (o, same_length root ps h l))
      | inr k ↦ rw (h, k, o) refl
    ]
    | inr h ↦ rw (h, o) refl
  ]
]

-- The rounds of the loop over these folders, without its tests.
abbrev pub count_all : Root → List FilePath → ℤ → Sizes → Sizes
count_all r [] n sizes = sizes
count_all r (q ∷ qs) n sizes = count_all r qs n (count_in r q n sizes)

at_depth :
    (ds root : List String)
    → ltb (separators (rooted (ds ++ root))) (separators (rooted root)) ≡ false
unfolding separators
at_depth [] [] = refl
at_depth [] (n ∷ ns) = ground arith
at_depth (d ∷ ds) [] = ground arith
at_depth (d ∷ ds) (n ∷ ns) = ground (arith, length-append ds (n ∷ ns))

names_eq-longer : (d : String) (ds root : List String) → names_eq (d ∷ (ds ++ root)) root ≡ false
names_eq-longer d ds root = elim (Bool-cases (names_eq (d ∷ (ds ++ root)) root)) [
  | inl h ↦
      let e = ap length (names_eq→≡ (d ∷ (ds ++ root)) root h) in
      absurd (omega (arith, e, length-append ds root))
  | inr h ↦ h
]

not_last :
    (r : Root) (d : String) (ds root : List String)
    → r.clean ≡ rooted root
    → is_last r (rooted (d ∷ (ds ++ root))) ≡ false
not_last r d ds root e =
    let longer : names_eq (d ∷ (ds ++ root)) root ≡ false = names_eq-longer d ds root in
    rw (e, longer) (ground arith)

round_ends :
    {A : Type 0} (b c : Bool) (x y : A) (rest : Option A)
    → b ≡ false
    → c ≡ true
    → (if b then some x else if c then some y else rest) ≡ some y
round_ends b c x y rest h k = rw (h, k) refl

round_goes :
    {A : Type 0} (b c : Bool) (x y : A) (rest : Option A)
    → b ≡ false
    → c ≡ false
    → (if b then some x else if c then some y else rest) ≡ rest
round_goes b c x y rest h k = rw (h, k) refl

depth_kept :
    (r : Root) (ds root : List String)
    → r.clean ≡ rooted root
    → ltb (separators (rooted (ds ++ root))) (root_depth r) ≡ false
depth_kept r ds root e = rw e (at_depth ds root)

root_last :
    (r : Root) (root : List String)
    → r.clean ≡ rooted root
    → r.is_clean ≡ true
    → is_last r (rooted root) ≡ true
root_last r root e c = rw (c, e, names_eq_refl) refl

pub attribute-count_all :
    (r : Root) (ds root : List String) (n : ℤ) (sizes : Sizes)
    → r.clean ≡ rooted root
    → r.is_clean ≡ true
    → attribute (suc (length (ds ++ root))) r (rooted (ds ++ root)) n sizes
      ≡ some (count_all r (folders ds root) n sizes)
unfolding attribute dir
attribute-count_all r [] root n sizes e c =
    round_ends _ _ sizes (count_in r (rooted root) n sizes) _ (depth_kept r [] root e)
      (root_last r root e c)
attribute-count_all r (d ∷ ds) root n sizes e c =
    round_goes _ _ sizes (count_in r (rooted (d ∷ (ds ++ root))) n sizes) _
      (depth_kept r (d ∷ ds) root e) (not_last r d ds root e)
    ∙ attribute-count_all r ds root n (count_in r (rooted (d ∷ (ds ++ root))) n sizes) e c

total_at-count_in :
    (r : Root) (p q : FilePath) (n : ℤ) (sizes : Sizes)
    → total_at p (count_in r q n sizes)
      ≡ (if path_eq q p && is_shallow r p then add64 (total_at p sizes) n else total_at p sizes)
total_at-count_in r p q n sizes = elim (Bool-cases (path_eq q p)) [
  | inl h ↦
      let same = path_eq→≡ q p h in
      rw same (elim (Bool-cases (is_shallow r p)) [
        | inl s ↦ rw s (total_at-add_size p p n sizes ∙ (rw path_eq_refl refl))
        | inr s ↦ rw (s, path_eq_refl) refl
      ])
  | inr h ↦ rw h (elim (Bool-cases (is_shallow r q)) [
    | inl s ↦ rw s (total_at-add_size p q n sizes ∙ (rw h refl))
    | inr s ↦ rw s refl
  ])
]

combine :
    (a b s c : Bool) (t n now later : ℤ)
    → now ≡ (if a && s then add64 t n else t)
    → later ≡ (if b && s then add64 now n else now)
    → c ≡ (a || b)
    → (a ≡ true → b ≡ false)
    → later ≡ (if c && s then add64 t n else t)
combine a b s c t n now later e f g h = ground (arith, e, f, g, h)

pub total_at-count_all :
    (r : Root) (p : FilePath) (ds root : List String) (n : ℤ) (sizes : Sizes)
    → total_at p (count_all r (folders ds root) n sizes) ≡ (
        if is_between root p (ds ++ root) && is_shallow r p
        then add64 (total_at p sizes) n
        else total_at p sizes)
total_at-count_all r p [] root n sizes =
    rw (between_root root p) (total_at-count_in r p (rooted root) n sizes)
total_at-count_all r p (d ∷ ds) root n sizes =
    let q = rooted (d ∷ (ds ++ root)) in
    let now = total_at-count_in r p q n sizes in
    let later = total_at-count_all r p ds root n (count_in r q n sizes) in
    combine (path_eq q p) (is_between root p (ds ++ root)) (is_shallow r p)
      (is_between root p (d ∷ (ds ++ root))) (total_at p sizes) n _ _ now later
      (between_step root ds d p) (not_lower root ds d p)
