-- ===== src/Tests/Scanner.antt =====
-- A scan of Docker and the heap of big files at concrete values.
use server_space_manager_ai.Prelude.{
  str_eq, if◌then◌else◌, arith, refl, ◌≢◌, ◌≡◌, Bool, true, false, none, some, List, [], ◌∷◌,
  select,
}
use server_space_manager_ai.Prelude.Int.{pos}
use server_space_manager_ai.Prelude.Sorting.{IsWeakOrder, IsSortedBy}
use server_space_manager_ai.Prelude.Insertion.{
  insert, insertion_sort, insert-perm, insert-IsSortedBy, insertion_sort-perm,
  insertion_sort-IsSortedBy, insertion_sorter,
}
use server_space_manager_ai.Scanner.BigFiles.{smaller, HeapPackage, new_big_files_heap}
use server_space_manager_ai.Config.{DockerCfg}
use server_space_manager_ai.Scanner.Docker.{Container, Volume, Answers, Files, Marshal, scan}
use server_space_manager_ai.Scanner.Docker.Volumes.{is_volume, AreReported, scan-AreReported}
use server_space_manager_ai.Scanner.Paths.{rooted, relative, file, folder, Nodes, end, entry}
use server_space_manager_ai.Scanner.Host.{
  Root, Host, HostScanner, big_files_top, attribute, enough, scan as scan_host,
}
use server_space_manager_ai.Scanner.Host.Loop.{below, attribute_returns, attribute_stuck}
use server_space_manager_ai.Scanner.Host.Walk.{IsTotalled, walk_path-IsTotalled}
use server_space_manager_ai.Scanner.Host.Biggest.{ShowsBiggest, scan-ShowsBiggest}
use server_space_manager_ai.Scanner.Docker.Engine.{
  Engine, responds, scan_engine, scan_engine_refused,
}

-- Every path is a file of ten bytes.
abbrev pub flat_files : Files
flat_files = record {
  stat = λ path. some (record { is_dir = false; size = pos 10 });
  read_dir = λ path. none;
  walk = λ path. [];
  dir = λ path. path;
  base = λ path. path;
}

abbrev pub no_json : Marshal
no_json = record {
  label_extra = λ stack service state. "{}";
  volume_extra = λ in_use driver. "{}";
  image_extra = λ shared containers. "{}";
}

abbrev pub all_tracked : DockerCfg
all_tracked = record {
  enabled = true;
  host = "";
  track_volumes = true;
  track_images = true;
  track_logs = true;
  track_bind_mounts = true;
}

abbrev database : Container
database = record {
  id = "c1";
  names = "/db" ∷ [];
  state = "running";
  labels = [];
  mounts =
      record { mount_type = "volume"; source = ""; name = "data" }
      ∷ record { mount_type = "bind"; source = "/srv/db"; name = "" }
      ∷ [];
}

abbrev two_volumes : List Volume
two_volumes =
    record { name = "data"; driver = "local"; mountpoint = "" }
    ∷ record { name = "old"; driver = "local"; mountpoint = "/mnt/old" }
    ∷ []

abbrev pub full_answers : Answers
full_answers = record {
  containers = some (database ∷ []);
  log_path = λ id. some "/logs/c1";
  volumes = some two_volumes;
  images = none;
}

scan-AreReported_example :
    AreReported
      (database ∷ [])
      two_volumes
      (select is_volume (scan flat_files no_json all_tracked full_answers 7))
scan-AreReported_example =
    scan-AreReported flat_files no_json all_tracked full_answers 7 (database ∷ []) two_volumes refl
      refl refl

-- A proxy that lets only the list of the volumes through.
abbrev strict_proxy : Engine
strict_proxy = record {
  base_url = "http://proxy:2375";
  request = λ url.
      if str_eq url "http://proxy:2375/volumes" then responds 200 "volumes" else responds 403 "no";
  path_escape = λ id. id;
  containers = λ body. none;
  log_path = λ body. none;
  volumes = λ body. some two_volumes;
  images = λ body. none;
}

scan_engine_refused_example :
    AreReported [] two_volumes
      (select is_volume (scan_engine strict_proxy flat_files no_json all_tracked 7))
scan_engine_refused_example =
    scan_engine_refused strict_proxy flat_files no_json all_tracked 7 403 200 "no" "volumes"
      two_volumes refl refl (omega arith) refl (omega arith) refl

pub smaller-IsWeakOrder : IsWeakOrder smaller
smaller-IsWeakOrder = record { asym = λ a b h. ground arith; trans = λ a b c h k. ground arith }

-- The contract of the heap package, met by a list in rising order.
abbrev pub sorted_heap : HeapPackage
sorted_heap = record {
  IsHeap = IsSortedBy smaller;
  push = insert smaller;
  fix_root = insertion_sort smaller;
  empty-IsHeap = tt;
  root_least = λ x xs h. h.0;
  push-perm = insert-perm smaller;
  push-IsHeap = insert-IsSortedBy smaller smaller-IsWeakOrder;
  fix_root-perm = insertion_sort-perm smaller;
  fix_root-IsHeap = λ x y xs h. insertion_sort-IsSortedBy smaller smaller-IsWeakOrder (y ∷ xs);
}

-- A root with a file, and another in a folder of it.
abbrev pub srv : Root
srv = record { written = "/srv"; clean = rooted ("srv" ∷ []); is_clean = true; max_depth = pos 0 }

abbrev srv_files : Nodes
srv_files =
    entry "a" (file (some (pos 5))) (entry "sub" (folder (entry "b" (file (some (pos 7))) end)) end)

abbrev pub small_host : Host
small_host = record {
  tree = λ p. some ("srv", folder srv_files);
  statfs = λ p. some (pos 100, pos 40);
  matches = λ pattern name. false;
  decimal = λ n. "n";
}

abbrev pub srv_scanner : HostScanner
srv_scanner = record { paths = srv ∷ []; filesystems = "/" ∷ []; ignore = [] }

walk_path-IsTotalled_example :
    IsTotalled sorted_heap small_host srv_scanner 7 srv
      ("srv" ∷ [])
      (new_big_files_heap big_files_top)
walk_path-IsTotalled_example =
    walk_path-IsTotalled sorted_heap small_host srv_scanner 7 srv ("srv" ∷ []) "srv" srv_files
      (new_big_files_heap big_files_top) refl refl refl

scan-ShowsBiggest_example :
    ShowsBiggest sorted_heap small_host srv_scanner 7
      (scan_host sorted_heap insertion_sorter small_host srv_scanner 7)
scan-ShowsBiggest_example =
    scan-ShowsBiggest sorted_heap insertion_sorter small_host srv_scanner 7 (("srv" ∷ [], refl), tt)

-- A relative root, written clean and not.
abbrev data_root : Bool → Root
data_root is_clean = record {
  written = if is_clean then "data" else "./data";
  clean = relative ("data" ∷ []);
  is_clean = is_clean;
  max_depth = pos 0;
}

attribute_returns_example :
    attribute
      (enough (relative ("x" ∷ "data" ∷ [])))
      (data_root true)
      (relative ("x" ∷ "data" ∷ []))
      (pos 5)
      []
    ≢ none
attribute_returns_example =
    attribute_returns (data_root true) (relative ("x" ∷ "data" ∷ [])) (pos 5) []
      (below (data_root true) ("x" ∷ []) ("data" ∷ []) refl refl)

attribute_stuck_example :
    attribute 9 (data_root false) (relative ("x" ∷ "data" ∷ [])) (pos 5) [] ≡ none
attribute_stuck_example =
    attribute_stuck (data_root false) ("data" ∷ []) ("x" ∷ "data" ∷ []) (pos 5) 9 [] refl refl
      (omega arith)
