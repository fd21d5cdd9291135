-- ===== src/Scanner/Host/Biggest.antt =====
-- The big files of a scan of the host.
use server_space_manager_ai.Prelude.{
  ℕ, ◌≡◌, refl, ap, Bool, Option, none, some, String, List, [], ◌∷◌, ◌++◌, map, str_eq, Bool-cases,
  Option-cases, inl, inr, All, All-append, select, select-append,
}
use mathlib.Core.List.{map-append}
use server_space_manager_ai.Prelude.Int.{ℤ}
use server_space_manager_ai.Prelude.Sorting.{Sorter, IsTop}
use server_space_manager_ai.Store.{Sample}
use server_space_manager_ai.Scanner.Paths.{
  FilePath, rooted, dir, Node, file, folder, Nodes, end, entry,
}
use server_space_manager_ai.Scanner.BigFiles.{
  BigFile, HeapPackage, BigFilesHeap, new_big_files_heap, larger, consider, consider_all, sorted,
}
use server_space_manager_ai.Scanner.BigFiles.Largest.{sorted-IsTop}
use server_space_manager_ai.Scanner.Host.{
  Root, Sizes, attribute, enough, Visit, big_file, visit, visit_all, walk_files, walk_path,
  walk_paths, path_sample, file_sample, fs_sample, fs_samples, Host, HostScanner, ignored,
  visits_of, shown_as, as_written, big_files_top, scan,
}
use server_space_manager_ai.Scanner.Host.Loop.{rooted_returns}

abbrev pub IsRooted : FilePath → Type 0
IsRooted p = (ns : List String) × (p ≡ rooted ns)

abbrev HasRooted : Visit → Type 0
HasRooted v = IsRooted (dir v.path)

module _ (ignores : String → Bool) where
  mutual
    unfolding visit dir

    visit-HasRooted :
        (ns : List String) (name : String) (node : Node)
        → All HasRooted (visit ignores (rooted ns) name node)
    visit-HasRooted ns name (file none) = elim (Bool-cases (ignores name)) [
      | inl h ↦ rw h tt
      | inr h ↦ rw h tt
    ]
    visit-HasRooted ns name (file (some n)) = elim (Bool-cases (ignores name)) [
      | inl h ↦ rw h tt
      | inr h ↦ rw h ((_, refl), tt)
    ]
    visit-HasRooted ns name (folder es) = elim (Bool-cases (ignores name)) [
      | inl h ↦ rw h tt
      | inr h ↦ rw h (visit_all-HasRooted ns es)
    ]

    visit_all-HasRooted :
        (ns : List String) (es : Nodes) → All HasRooted (visit_all ignores (rooted ns) es)
    visit_all-HasRooted ns end = tt
    visit_all-HasRooted ns (entry name node es) =
        All-append HasRooted _ _ (visit-HasRooted (name ∷ ns) name node) (visit_all-HasRooted ns es)

shown_as-HasRooted :
    (written : String) (vs : List Visit)
    → All HasRooted vs
    → All HasRooted (map (shown_as written) vs)
shown_as-HasRooted written [] a = tt
shown_as-HasRooted written (v ∷ vs) (h, a) = (h, shown_as-HasRooted written vs a)

as_written-HasRooted :
    (written : String) (node : Node) (vs : List Visit)
    → All HasRooted vs
    → All HasRooted (as_written written node vs)
as_written-HasRooted written (file size) vs a = shown_as-HasRooted written vs a
as_written-HasRooted written (folder es) vs a = a

visits_of-HasRooted :
    (host : Host) (h : HostScanner) (r : Root) (found : Option (String × Node))
    → IsRooted r.clean
    → All HasRooted (visits_of host h r found)
visits_of-HasRooted host h r none e = tt
visits_of-HasRooted host h r (some (name, node)) (ns, e) = rw e (
    as_written-HasRooted r.written node _
      (visit-HasRooted (ignored host.matches h.ignore) ns name node))

-- All files that a scan visits, root by root.
abbrev pub all_visits : Host → HostScanner → List Root → List Visit
all_visits host h [] = []
all_visits host h (r ∷ rs) = visits_of host h r (host.tree r.clean) ++ all_visits host h rs

abbrev pub is_big : Sample → Bool
is_big s = str_eq s.kind "big_file"

no_big : (now : ℕ) (sizes : Sizes) → select is_big (map (path_sample now) sizes) ≡ []
no_big now [] = refl
no_big now (s ∷ sizes) = no_big now sizes

no_big_fs_sample :
    (decimal : ℤ → String) (now : ℕ) (p : String) (o : Option (ℤ × ℤ))
    → select is_big (fs_sample decimal now p o) ≡ []
no_big_fs_sample decimal now p none = refl
no_big_fs_sample decimal now p (some (total, avail)) = refl

no_big_fs : (host : Host) (now : ℕ) (ps : List String) → select is_big (fs_samples host now ps) ≡ []
unfolding fs_samples
no_big_fs host now [] = refl
no_big_fs host now (p ∷ ps) =
    let one = no_big_fs_sample host.decimal now p (host.statfs p) in
    rw (select-append, one) (no_big_fs host now ps)

all_big :
    (now : ℕ) (fs : List BigFile)
    → select is_big (map (file_sample now) fs) ≡ map (file_sample now) fs
all_big now [] = refl
all_big now (f ∷ fs) = ap (◌∷◌ (file_sample now f)) (all_big now fs)

module _ (heap : HeapPackage) where
  consider_all-append :
      (fs gs : List BigFile) (b : BigFilesHeap)
      → consider_all heap (fs ++ gs) b ≡ consider_all heap gs (consider_all heap fs b)
  unfolding consider_all
  consider_all-append [] gs b = refl
  consider_all-append (f ∷ fs) gs b = consider_all-append fs gs (consider heap f b)

  walk_files_returns :
      (r : Root) (vs : List Visit) (sizes : Sizes) (bigs : BigFilesHeap)
      → All HasRooted vs
      → (end : Sizes) × (walk_files heap r vs sizes bigs
          ≡ some (end, consider_all heap (map big_file vs) bigs))
  unfolding walk_files consider_all
  walk_files_returns r [] sizes bigs a = (sizes, refl)
  walk_files_returns r (v ∷ vs) sizes bigs ((ns, e), a) =
      elim (Option-cases (attribute (enough (dir v.path)) r (dir v.path) v.size sizes)) [
        | inl stuck ↦ absurd (rooted_returns r ns v.size sizes (rw e at stuck))
        | inr (next, done) ↦
            let (last, rest) = walk_files_returns r vs next (consider heap (big_file v) bigs) a in
            (last, rw (walk_files, done) rest)
      ]

  walk_paths_returns :
      (host : Host) (h : HostScanner) (now : ℕ) (rs : List Root) (bigs : BigFilesHeap)
      → All (λ r. IsRooted r.clean) rs
      → (samples : List Sample) × (walk_paths heap host h now rs bigs
          ≡ some (samples, consider_all heap (map big_file (all_visits host h rs)) bigs))
        × (select is_big samples ≡ [])
  unfolding walk_paths walk_path
  walk_paths_returns host h now [] bigs a = ([], (unfold consider_all in refl), refl)
  walk_paths_returns host h now (r ∷ rs) bigs (e, a) =
      let vs = visits_of host h r (host.tree r.clean) in
      let (sizes, done) =
        walk_files_returns r vs [] bigs (visits_of-HasRooted host h r (host.tree r.clean) e) in
      let mid = consider_all heap (map big_file vs) bigs in
      let (later, went, few) = walk_paths_returns host h now rs mid a in
      (
        map (path_sample now) sizes ++ later,
        rw (walk_paths, walk_path, done, went, map-append, consider_all-append) refl,
        rw (select-append, no_big, few) refl,
      )

  -- What a scan shows as big files: `tops`, and no other sample of the kind.
  pub record ShowsBiggest (host : Host) (h : HostScanner) (now : ℕ) (result : Option (List Sample))
      : Type 0 where
    pub samples : List Sample
    pub tops : List BigFile
    pub returns : result ≡ some samples
    pub shown : select is_big samples ≡ map (file_sample now) tops
    pub largest : IsTop larger 20 (map big_file (all_visits host h h.paths)) tops

  -- For configured paths that are rooted, whatever the tree, the heap package and the sort: the
  -- scan of the host ends, and its samples of the kind big_file are, in order, the 20 largest of
  -- all files visited on all the paths, the largest first, or all if there are fewer.
  pub scan-ShowsBiggest :
      (sorter : Sorter) (host : Host) (h : HostScanner) (now : ℕ)
      → All (λ r. IsRooted r.clean) h.paths
      → ShowsBiggest host h now (scan heap sorter host h now)
  unfolding scan
  scan-ShowsBiggest sorter host h now a =
      let start = new_big_files_heap big_files_top in
      let (samples, went, few) = walk_paths_returns host h now h.paths start a in
      let files = map big_file (all_visits host h h.paths) in
      let tops = sorted sorter (consider_all heap files start) in
      record {
        samples = samples ++ (fs_samples host now h.filesystems ++ map (file_sample now) tops);
        tops = tops;
        returns = rw (scan, went) refl;
        shown = rw (select-append, few, select-append, no_big_fs) (all_big now tops);
        largest = sorted-IsTop heap sorter big_files_top files;
      }
