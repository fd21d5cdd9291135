-- ===== src/Scanner/Host.antt =====
-- internal/scanner/host.go: walkPath over a tree of files, and Scan. What filepath.Match, statfs and
-- strconv answer are arguments. The loop over a file's folders runs on fuel.
pub mod Loop
pub mod Totals
pub mod Keys
pub mod Walk
pub mod Biggest
use server_space_manager_ai.Prelude.{
  ℕ, zero, suc, ◌-◌, String, Bool, true, false, not, ◌&&◌, ◌||◌, Option, none, some, List, [], ◌∷◌,
  ◌++◌, map, cat, join, length, ltb, if◌then◌else◌,
}
use server_space_manager_ai.Prelude.Int.{ℤ, pos, leb_ℤ, add64, sub64}
use server_space_manager_ai.Prelude.Sorting.{Sorter}
use server_space_manager_ai.Store.{Sample}
use server_space_manager_ai.Scanner.Paths.{
  FilePath, rooted, relative, names_of, path_eq, dir, separators, join_name, path_text, Node, file,
  folder, Nodes, end, entry,
}
use server_space_manager_ai.Scanner.BigFiles.{
  BigFile, HeapPackage, BigFilesHeap, new_big_files_heap, consider, sorted,
}

-- A configured path: its text, its Clean, whether it is written so, and max_depth.
pub record Root : Type 0 where
  pub written : String
  pub clean : FilePath
  pub is_clean : Bool
  pub max_depth : ℤ

-- bigFilesTop
abbrev pub big_files_top : ℤ
big_files_top = pos 20

-- `sizes`, and `sizes[dir] += n`
abbrev pub Sizes : Type 0
Sizes = List (FilePath × ℤ)

unfoldable pub add_size : FilePath → ℤ → Sizes → Sizes
add_size q n [] = (q, add64 (pos 0) n) ∷ []
add_size q n ((p, m) ∷ sizes) =
    let rest = (p, m) ∷ add_size q n sizes in if path_eq p q then (p, add64 m n) ∷ sizes else rest

-- rootDepth
abbrev pub root_depth : Root → ℕ
root_depth r = separators r.clean

-- `p.MaxDepth == 0 || depth <= p.MaxDepth`, for a depth that is not negative
abbrev pub is_shallow : Root → FilePath → Bool
is_shallow r q =
    (leb_ℤ r.max_depth (pos 0) && leb_ℤ (pos 0) r.max_depth)
    || leb_ℤ (pos (separators q - root_depth r)) r.max_depth

-- `dir == p.Path || dir == "/"`
abbrev pub is_last : Root → FilePath → Bool
is_last r q = (r.is_clean && path_eq q r.clean) || path_eq q (rooted [])

abbrev pub count_in : Root → FilePath → ℤ → Sizes → Sizes
count_in r q n sizes = if is_shallow r q then add_size q n sizes else sizes

-- The loop that attributes a file's size to its folders, from `q` up; `none` where the fuel runs out.
unfoldable pub attribute : ℕ → Root → FilePath → ℤ → Sizes → Option Sizes
unfolding add_size
attribute zero r q n sizes = none
attribute (suc fuel) r q n sizes =
    let rest = attribute fuel r (dir q) n (count_in r q n sizes) in
    if ltb (separators q) (root_depth r)
    then some sizes
    else if is_last r q
    then some (count_in r q n sizes)
    else rest

-- One round for each name of the folder and one for the root are enough for a rooted path.
abbrev pub enough : FilePath → ℕ
enough q = suc (length (names_of q))

-- A file: its path, cleaned, and as WalkDir gives it.
pub record Visit : Type 0 where
  pub path : FilePath
  pub shown : String
  pub size : ℤ

abbrev pub visit_file : FilePath → Option ℤ → List Visit
visit_file path none = []
visit_file path (some n) = record { path = path; shown = path_text path; size = n } ∷ []

-- The files that WalkDir shows to the callback and that it does not skip.
module _ (ignored : String → Bool) where
  unfoldable mutual
    pub visit : FilePath → String → Node → List Visit
    visit path name (file size) = if ignored name then [] else visit_file path size
    visit path name (folder es) =
        let inside = visit_all path es in if ignored name then [] else inside

    pub visit_all : FilePath → Nodes → List Visit
    visit_all path end = []
    visit_all path (entry name node es) = visit (join_name path name) name node ++ visit_all path es

abbrev pub big_file : Visit → BigFile
big_file v = record { path = v.shown; size = v.size }

abbrev pub path_sample : ℕ → FilePath × ℤ → Sample
path_sample now (q, n) = record {
  kind = "host_path";
  key = path_text q;
  label = path_text q;
  bytes = n;
  extra = "";
  taken_at = now;
}

-- ignored, for the patterns of the configuration: whether one matches without an error
unfoldable pub ignored : (String → String → Bool) → List String → String → Bool
ignored matches [] name = false
ignored matches (pat ∷ pats) name =
    let rest = ignored matches pats name in if matches pat name then true else rest

abbrev pub file_sample : ℕ → BigFile → Sample
file_sample now f = record {
  kind = "big_file";
  key = f.path;
  label = f.path;
  bytes = f.size;
  extra = "";
  taken_at = now;
}

-- formatFSExtra
unfoldable pub format_fs_extra : (ℤ → String) → ℤ → ℤ → String
format_fs_extra decimal total avail =
    join ("{\"total\":" ∷ decimal total ∷ ",\"avail\":" ∷ decimal avail ∷ "}" ∷ [])

abbrev pub fs_sample : (ℤ → String) → ℕ → String → Option (ℤ × ℤ) → List Sample
fs_sample decimal now path none = []
fs_sample decimal now path (some (total, avail)) =
    record {
      kind = "fs";
      key = path;
      label = path;
      bytes = sub64 total avail;
      extra = format_fs_extra decimal total avail;
      taken_at = now;
    }
    ∷ []

-- What a scan of the host finds: the tree at each configured path, if there is one, with the name
-- that the walk gives it, and the answers of statfs.
pub record Host : Type 0 where
  pub tree : FilePath → Option (String × Node)
  pub statfs : String → Option (ℤ × ℤ)
  pub matches : String → String → Bool
  pub decimal : ℤ → String

-- HostScanner
pub record HostScanner : Type 0 where
  pub paths : List Root
  pub filesystems : List String
  pub ignore : List String

-- WalkDir gives a configured path that is itself a file as it is written.
abbrev pub shown_as : String → Visit → Visit
shown_as written v = record v { shown = written }

abbrev pub as_written : String → Node → List Visit → List Visit
as_written written (file size) vs = map (shown_as written) vs
as_written written (folder es) vs = vs

abbrev pub visits_of : Host → HostScanner → Root → Option (String × Node) → List Visit
visits_of host h r none = []
visits_of host h r (some (name, node)) =
    as_written r.written node (visit (ignored host.matches h.ignore) r.clean name node)

-- the loop of Scan over the filesystems
unfoldable pub fs_samples : Host → ℕ → List String → List Sample
unfolding format_fs_extra
fs_samples host now [] = []
fs_samples host now (p ∷ ps) =
    fs_sample host.decimal now p (host.statfs p) ++ fs_samples host now ps

module _ (heap : HeapPackage) where
  -- the callback of walkPath on each file it is not to skip
  unfoldable pub walk_files :
      Root → List Visit → Sizes → BigFilesHeap → Option (Sizes × BigFilesHeap)
  unfolding attribute
  walk_files r [] sizes bigs = some (sizes, bigs)
  walk_files r (v ∷ vs) sizes bigs =
      elim (attribute (enough (dir v.path)) r (dir v.path) v.size sizes) [
        | none ↦ none
        | some sizes' ↦ walk_files r vs sizes' (consider heap (big_file v) bigs)
      ]

  -- walkPath: `none` if the callback's loop does not end
  unfoldable pub walk_path :
      Host → HostScanner → ℕ → Root → BigFilesHeap → Option (List Sample × BigFilesHeap)
  unfolding walk_files visit path_text ignored
  walk_path host h now r bigs =
      elim (walk_files r (visits_of host h r (host.tree r.clean)) [] bigs) [
        | none ↦ none
        | some (sizes, bigs') ↦ some (map (path_sample now) sizes, bigs')
      ]

  -- the loop of Scan over the paths
  unfoldable pub walk_paths :
      Host → HostScanner → ℕ → List Root → BigFilesHeap → Option (List Sample × BigFilesHeap)
  unfolding walk_path
  walk_paths host h now [] bigs = some ([], bigs)
  walk_paths host h now (r ∷ rs) bigs = elim (walk_path host h now r bigs) [
    | none ↦ none
    | some (samples, bigs') ↦ elim (walk_paths host h now rs bigs') [
      | none ↦ none
      | some (later, bigs'') ↦ some (samples ++ later, bigs'')
    ]
  ]

  -- Scan
  unfoldable pub scan : Sorter → Host → HostScanner → ℕ → Option (List Sample)
  unfolding walk_paths fs_samples new_big_files_heap sorted
  scan sorter host h now = elim (walk_paths host h now h.paths (new_big_files_heap big_files_top)) [
    | none ↦ none
    | some (samples, bigs) ↦ some (
        samples
        ++ (fs_samples host now h.filesystems ++ map (file_sample now) (sorted sorter bigs)))
  ]
