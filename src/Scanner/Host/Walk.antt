-- ===== src/Scanner/Host/Walk.antt =====
-- What walkPath adds up over a tree of files.
use server_space_manager_ai.Prelude.{
  ℕ, ◌≡◌, refl, ap, ◌∙◌, Bool, true, false, ◌&&◌, ◌||◌, none, some, String, List, [], ◌∷◌, ◌++◌,
  arith, map, if◌then◌else◌, Bool-cases, inl, inr, All, All-append,
}
use server_space_manager_ai.Prelude.Int.{ℤ, pos, add64}
use server_space_manager_ai.Scanner.Paths.{
  FilePath, rooted, dir, names_of, Node, file, folder, Nodes, end, entry,
}
use server_space_manager_ai.Scanner.BigFiles.{HeapPackage, BigFilesHeap, consider, consider_all}
use server_space_manager_ai.Scanner.Host.{
  Root, Sizes, is_shallow, count_in, attribute, enough, Visit, big_file, visit, visit_all,
  walk_files, walk_path, path_sample, Host, HostScanner, ignored, visits_of,
}
use server_space_manager_ai.Scanner.Host.Totals.{
  total_at, IsOnce, add_size-IsOnce, is_between, folders, count_all, attribute-count_all,
  total_at-count_all,
}
use server_space_manager_ai.Scanner.Host.Keys.{holds, is_counted, holds-count_all}

-- A file in a folder at or below the root.
abbrev IsInside : List String → Visit → Type 0
IsInside root v = (ds : List String) × (dir v.path ≡ rooted (ds ++ root))

module _ (ignores : String → Bool) (root : List String) where
  mutual
    unfolding visit dir

    visit-IsInside :
        (ds : List String) (name last : String) (node : Node)
        → All (IsInside root) (visit ignores (rooted (last ∷ (ds ++ root))) name node)
    visit-IsInside ds name last (file none) = ground arith
    visit-IsInside ds name last (file (some n)) = elim (Bool-cases (ignores name)) [
      | inl h ↦ rw h tt
      | inr h ↦ rw h ((ds, refl), tt)
    ]
    visit-IsInside ds name last (folder es) = elim (Bool-cases (ignores name)) [
      | inl h ↦ rw h tt
      | inr h ↦ rw h (visit_all-IsInside (last ∷ ds) es)
    ]

    visit_all-IsInside :
        (ds : List String) (es : Nodes)
        → All (IsInside root) (visit_all ignores (rooted (ds ++ root)) es)
    visit_all-IsInside ds end = tt
    visit_all-IsInside ds (entry name node es) =
        All-append (IsInside root) _ _ (visit-IsInside ds name name node) (visit_all-IsInside ds es)

-- What the files add to a folder, in the order of the walk.
abbrev pub sum_at : Root → List String → FilePath → List Visit → ℤ → ℤ
sum_at r root p [] n = n
sum_at r root p (v ∷ vs) n =
    sum_at r root p vs
      (if is_between root p (names_of (dir v.path)) && is_shallow r p then add64 n v.size else n)

count_all-IsOnce :
    (r : Root) (qs : List FilePath) (n : ℤ) (sizes : Sizes)
    → IsOnce sizes
    → IsOnce (count_all r qs n sizes)
count_all-IsOnce r [] n sizes o = o
count_all-IsOnce r (q ∷ qs) n sizes o =
    count_all-IsOnce r qs n (count_in r q n sizes) (ground (arith, add_size-IsOnce q n sizes o))

-- The end of a walk: it comes, the map holds the totals, and the heap has been shown all files.
record IsWalked (heap : HeapPackage) (r : Root) (root : List String) (vs : List Visit)
    (before : Sizes) (bigs : BigFilesHeap) : Type 0 where
  sizes : Sizes
  returns :
      walk_files heap r vs before bigs ≡ some (sizes, consider_all heap (map big_file vs) bigs)
  totals : (p : FilePath) → total_at p sizes ≡ sum_at r root p vs (total_at p before)
  held : (p : FilePath) → holds p sizes ≡ (is_counted r root p vs || holds p before)
  once : IsOnce sizes

then_counted :
    (c rest before mid after : Bool)
    → mid ≡ (c || before)
    → after ≡ (rest || mid)
    → after ≡ ((c || rest) || before)
then_counted c rest before mid after h k = ground (arith, h, k)

no_other : (b : Bool) → (b || false) ≡ b
no_other b = ground arith

module _ (heap : HeapPackage) (r : Root) (root : List String) (clean : r.clean ≡ rooted root)
    (is_clean : r.is_clean ≡ true) where
  walk_files-IsWalked :
      (vs : List Visit) (before : Sizes) (bigs : BigFilesHeap)
      → All (IsInside root) vs
      → IsOnce before
      → IsWalked heap r root vs before bigs
  unfolding walk_files consider_all
  walk_files-IsWalked [] before bigs a o = record {
    sizes = before;
    returns = refl;
    totals = λ p. refl;
    held = λ p. refl;
    once = o;
  }
  walk_files-IsWalked (v ∷ vs) before bigs (inside, a) o =
      let (ds, e) = inside in
      let mid = count_all r (folders ds root) v.size before in
      let attr : attribute (enough (dir v.path)) r (dir v.path) v.size before ≡ some mid =
        rw e (attribute-count_all r ds root v.size before clean is_clean) in
      let rest =
        walk_files-IsWalked vs mid (consider heap (big_file v) bigs) a
          (count_all-IsOnce r (folders ds root) v.size before o) in
      record {
        sizes = rest.sizes;
        returns = rw (walk_files, attr) rest.returns;
        totals = λ p.
            rest.totals p
            ∙ rw e (ap (sum_at r root p vs) (total_at-count_all r p ds root v.size before));
        held = λ p.
            let now : holds p mid ≡ (
                (is_between root p (names_of (dir v.path)) && is_shallow r p) || holds p before) =
              rw e (holds-count_all r p ds root v.size before) in
            then_counted _ (is_counted r root p vs) _ _ _ now (rest.held p);
        once = rest.once;
      }

-- The end of walkPath at a root: the samples of a map with one entry for each folder at or below the
-- root that is not too deep and has a visited file at or below it, which holds the sum of their sizes,
-- and the heap after all files.
pub record IsTotalled (heap : HeapPackage) (host : Host) (h : HostScanner) (now : ℕ) (r : Root)
    (root : List String) (bigs : BigFilesHeap) : Type 0 where
  pub sizes : Sizes
  pub returns :
      walk_path heap host h now r bigs
      ≡ some (
        map (path_sample now) sizes,
        consider_all heap (map big_file (visits_of host h r (host.tree r.clean))) bigs,
      )
  pub totals :
      (p : FilePath)
      → total_at p sizes ≡ sum_at r root p (visits_of host h r (host.tree r.clean)) (pos 0)
  pub held :
      (p : FilePath) → holds p sizes ≡ is_counted r root p (visits_of host h r (host.tree r.clean))
  pub once : IsOnce sizes

root-IsInside :
    (ignores : String → Bool) (root : List String) (name : String) (es : Nodes)
    → All (IsInside root) (visit ignores (rooted root) name (folder es))
unfolding visit
root-IsInside ignores root name es = elim (Bool-cases (ignores name)) [
  | inl h ↦ rw h tt
  | inr h ↦ rw h (visit_all-IsInside ignores root [] es)
]

-- For a configured path that is rooted, written clean and a folder: the walk ends, and its samples
-- are those of a map that has an entry, and one only, for exactly the folders at or below the
-- configured path that are not too deep and have a visited file in them or below, and there the
-- sizes of all those files, added up with int64 wrap-around; the heap has been shown exactly the
-- visited files.
pub walk_path-IsTotalled :
    (heap : HeapPackage) (host : Host) (h : HostScanner) (now : ℕ) (r : Root) (root : List String)
    (name : String) (es : Nodes) (bigs : BigFilesHeap)
    → r.clean ≡ rooted root
    → r.is_clean ≡ true
    → host.tree r.clean ≡ some (name, folder es)
    → IsTotalled heap host h now r root bigs
unfolding walk_path
walk_path-IsTotalled heap host h now r root name es bigs clean is_clean found =
    let vs = visits_of host h r (host.tree r.clean) in
    let inside : All (IsInside root) vs =
      rw (found, clean) (root-IsInside (ignored host.matches h.ignore) root name es) in
    let w = walk_files-IsWalked heap r root clean is_clean vs [] bigs inside tt in
    record {
      sizes = w.sizes;
      returns = rw (walk_path, w.returns) refl;
      totals = w.totals;
      held = λ p. w.held p ∙ no_other (is_counted r root p vs);
      once = w.once;
    }
