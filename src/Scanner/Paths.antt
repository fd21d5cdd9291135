-- ===== src/Scanner/Paths.antt =====
-- What internal/scanner/host.go uses of package filepath: clean paths, as lists of their names from
-- the last to the first, and the tree that WalkDir walks.
pub mod Suffix
use server_space_manager_ai.Prelude.{
  ℕ, suc, ◌≡◌, refl, ap, ap₂, String, Bool, true, false, Option, List, [], ◌∷◌, ◌++◌, cat, length,
  arith, str_eq, eq_iff, eq_refl, if◌then◌else◌,
}
use server_space_manager_ai.Prelude.Int.{ℤ}

-- A path that is its own Clean: "/" is `rooted []`, and "." is `relative []`.
pub data FilePath : Type 0 where
  rooted relative : List String → FilePath

abbrev pub names_of : FilePath → List String
names_of (rooted ns) = ns
names_of (relative ns) = ns

abbrev pub names_eq : List String → List String → Bool
names_eq [] [] = true
names_eq [] (m ∷ ms) = false
names_eq (n ∷ ns) [] = false
names_eq (n ∷ ns) (m ∷ ms) = let rest = names_eq ns ms in if str_eq n m then rest else false

abbrev pub path_eq : FilePath → FilePath → Bool
path_eq (rooted ns) (rooted ms) = names_eq ns ms
path_eq (relative ns) (relative ms) = names_eq ns ms
path_eq _ _ = false

-- filepath.Dir
abbrev parent : List String → List String
parent [] = []
parent (n ∷ ns) = ns

unfoldable pub dir : FilePath → FilePath
dir (rooted ns) = rooted (parent ns)
dir (relative ns) = relative (parent ns)

-- strings.Count(path, "/")
unfoldable pub separators : FilePath → ℕ
separators (rooted []) = 1
separators (rooted (n ∷ ns)) = suc (length ns)
separators (relative []) = 0
separators (relative (n ∷ ns)) = length ns

-- filepath.Join(path, name), for a name that WalkDir finds
abbrev pub join_name : FilePath → String → FilePath
join_name (rooted ns) name = rooted (name ∷ ns)
join_name (relative ns) name = relative (name ∷ ns)

-- the text of a path
abbrev rooted_text : List String → String
rooted_text [] = ""
rooted_text (n ∷ ns) = cat (rooted_text ns) (cat "/" n)

abbrev relative_text : List String → String
relative_text [] = ""
relative_text (n ∷ []) = n
relative_text (n ∷ m ∷ ns) = cat (relative_text (m ∷ ns)) (cat "/" n)

unfoldable pub path_text : FilePath → String
path_text (rooted []) = "/"
path_text (rooted (n ∷ ns)) = rooted_text (n ∷ ns)
path_text (relative []) = "."
path_text (relative (n ∷ ns)) = relative_text (n ∷ ns)

-- What is found at a path: a file with its size (`none` where Info fails), or a folder with its
-- entries in the order of their names, as far as it can be read.
mutual
  pub data Node : Type 0 where
    file : Option ℤ → Node
    folder : Nodes → Node

  pub data Nodes : Type 0 where
    end : Nodes
    entry : String → Node → Nodes → Nodes

pub names_eq_refl : (ns : List String) → names_eq ns ns ≡ true
names_eq_refl [] = refl
names_eq_refl (n ∷ ns) = rw (eq_refl n) (names_eq_refl ns)

pub names_eq→≡ : (ns ms : List String) → names_eq ns ms ≡ true → ns ≡ ms
names_eq→≡ [] [] h = refl
names_eq→≡ [] (m ∷ ms) h = absurd cc
names_eq→≡ (n ∷ ns) [] h = absurd cc
names_eq→≡ (n ∷ ns) (m ∷ ms) h = ground (arith, eq_iff n m, names_eq→≡ ns ms)
