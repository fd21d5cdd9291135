-- ===== src/Scanner/Docker.antt =====
-- internal/scanner/docker.go: Scan over the answers of the Docker API. The calls of the operating
-- system, the paths of `filepath` and the JSON writer are arguments.
pub mod Volumes
pub mod Address
pub mod Engine
use server_space_manager_ai.Prelude.{
  ℕ, String, Bool, true, false, not, ◌&&◌, ◌||◌, Option, none, some, List, [], ◌∷◌, ◌++◌, map, cat,
  contains, trim_prefix, starts_with, str_eq, if◌then◌else◌,
}
use server_space_manager_ai.Prelude.Int.{ℤ, pos, add64}
use server_space_manager_ai.Prelude.Dict.{Dict, get}
use server_space_manager_ai.Store.{Sample}
use server_space_manager_ai.Config.{DockerCfg}

-- containerMount
pub record Mount : Type 0 where
  pub mount_type : String
  pub source : String
  pub name : String

-- containerSummary
pub record Container : Type 0 where
  pub id : String
  pub names : List String
  pub state : String
  pub labels : Dict String
  pub mounts : List Mount

pub record Volume : Type 0 where
  pub name : String
  pub driver : String
  pub mountpoint : String

-- duImage
pub record Image : Type 0 where
  pub id : String
  pub repo_tags : List String
  pub size : ℤ
  pub shared_size : ℤ
  pub containers : ℤ

-- What the Docker API answers; `none` where `get` returns an error.
pub record Answers : Type 0 where
  pub containers : Option (List Container)
  pub log_path : String → Option String
  pub volumes : Option (List Volume)
  pub images : Option (List Image)

pub record Stat : Type 0 where
  pub is_dir : Bool
  pub size : ℤ

-- What the operating system answers: os.Stat, os.ReadDir (each entry with its size, if Info gives
-- one), and the entries that WalkDir visits without an error and that are no directories.
pub record Files : Type 0 where
  pub stat : String → Option Stat
  pub read_dir : String → Option (List (String × Option ℤ))
  pub walk : String → List (Option ℤ)
  pub dir : String → String
  pub base : String → String

-- json.Marshal of the three maps.
pub record Marshal : Type 0 where
  pub label_extra : String → String → String → String
  pub volume_extra : Bool → String → String
  pub image_extra : ℤ → ℤ → String

-- skipBindSource
unfoldable pub skip_bind_source : String → Bool
skip_bind_source src =
    contains src
      ("" ∷ "/" ∷ "/proc" ∷ "/sys" ∷ "/dev" ∷ "/var/run/docker.sock" ∷ "/run/docker.sock" ∷ [])
    || (starts_with src "/proc/" || (starts_with src "/sys/" || starts_with src "/dev/"))

-- firstName
abbrev pub first_name : List String → String
first_name [] = ""
first_name (n ∷ ns) = n

-- `c.Labels[k]`, empty for a missing key
abbrev or_empty : Option String → String
or_empty none = ""
or_empty (some s) = s

-- the loop of a walk
unfoldable pub total_size : ℤ → List (Option ℤ) → ℤ
total_size total [] = total
total_size total (none ∷ es) = total_size total es
total_size total (some n ∷ es) = total_size (add64 total n) es

-- the loop over a folder's entries, which takes those whose names start with `prefix`
unfoldable pub total_prefixed : String → ℤ → List (String × Option ℤ) → ℤ
total_prefixed prefix total [] = total
total_prefixed prefix total ((name, none) ∷ es) = total_prefixed prefix total es
total_prefixed prefix total ((name, some n) ∷ es) =
    total_prefixed prefix (if starts_with name prefix then add64 total n else total) es

abbrev pub or_else : Option ℤ → Option ℤ → Option ℤ
or_else none o = o
or_else (some n) o = some n

abbrev pub or_zero : Option ℤ → ℤ
or_zero none = pos 0
or_zero (some n) = n

module _ (files : Files) where
  abbrev dir_size_of : String → Option Stat → Option ℤ
  dir_size_of path none = none
  dir_size_of path (some st) =
      if st.is_dir then some (total_size (pos 0) (files.walk path)) else some st.size

  -- dirSize
  unfoldable pub dir_size : String → Option ℤ
  unfolding total_size
  dir_size path = dir_size_of path (files.stat path)

  -- `dirSize("/host" + p)`, and else `dirSize(p)`
  unfoldable pub host_size : String → Option ℤ
  unfolding dir_size
  host_size path = or_else (dir_size (cat "/host" path)) (dir_size path)

  -- the body of the loop of logSize: the size that it returns, if it does
  abbrev log_size_in : String → Option Stat → Option (List (String × Option ℤ)) → Option ℤ
  log_size_in path none entries = none
  log_size_in path (some st) none = some st.size
  log_size_in path (some st) (some entries) =
      some (total_prefixed (files.base path) (pos 0) entries)

  abbrev log_size_at : String → Option ℤ
  log_size_at path = log_size_in path (files.stat path) (files.read_dir (files.dir path))

  -- logSize
  unfoldable pub log_size : Option String → Option ℤ
  unfolding total_prefixed
  log_size none = none
  log_size (some path) =
      if str_eq path "" then none else or_else (log_size_at path) (log_size_at (cat "/host" path))

  module _ (m : Marshal) (now : ℕ) where
    abbrev sample : String → String → String → ℤ → String → Sample
    sample kind key label bytes extra = record {
      kind = kind;
      key = key;
      label = label;
      bytes = bytes;
      extra = extra;
      taken_at = now;
    }

    abbrev pub name_of : Container → String
    name_of c = trim_prefix (first_name c.names) "/"

    unfoldable pub extra_of : Container → String
    extra_of c =
        m.label_extra (or_empty (get c.labels "com.docker.compose.project"))
          (or_empty (get c.labels "com.docker.compose.service")) c.state

    abbrev pub log_sample : Container → Option ℤ → List Sample
    log_sample c none = []
    log_sample c (some n) = sample "container_log" c.id (name_of c) n (extra_of c) ∷ []

    abbrev pub bind_sample : Container → String → Option ℤ → List Sample
    bind_sample c source none = []
    bind_sample c source (some n) =
        sample "bind_mount" (cat c.id (cat ":" source)) (cat (name_of c) (cat " -> " source)) n
          (extra_of c)
        ∷ []

    -- the loop over the bind mounts of a container
    unfoldable pub bind_samples : Container → List Mount → List Sample
    unfolding skip_bind_source host_size extra_of
    bind_samples c [] = []
    bind_samples c (b ∷ bs) =
        let rest = bind_samples c bs in
        if not (str_eq b.mount_type "bind") || skip_bind_source b.source
        then rest
        else bind_sample c b.source (host_size b.source) ++ rest

    -- the loop over the containers
    unfoldable pub container_samples :
        DockerCfg → (String → Option String) → List Container → List Sample
    unfolding log_size bind_samples extra_of
    container_samples cfg log_path [] = []
    container_samples cfg log_path (c ∷ cs) =
        (if cfg.track_logs then log_sample c (log_size (log_path c.id)) else [])
        ++ ((if cfg.track_bind_mounts then bind_samples c c.mounts else [])
            ++ container_samples cfg log_path cs)

    -- the sample of a volume
    unfoldable pub volume_sample : List String → Volume → Sample
    unfolding host_size
    volume_sample in_use v =
        let path =
          if str_eq v.mountpoint ""
          then cat "/var/lib/docker/volumes/" (cat v.name "/_data")
          else v.mountpoint in
        sample (if contains v.name in_use then "volume" else "orphan_volume") v.name v.name
          (or_zero (host_size path)) (m.volume_extra (contains v.name in_use) v.driver)

    abbrev tag_of : List String → String
    tag_of [] = "<none>"
    tag_of (t ∷ ts) = t

    abbrev pub image_sample : Image → Sample
    image_sample i =
        sample "image" i.id (tag_of i.repo_tags) i.size (m.image_extra i.shared_size i.containers)

-- volumesInUse
abbrev volumes_of : List Mount → List String
volumes_of [] = []
volumes_of (b ∷ bs) =
    let rest = volumes_of bs in
    if str_eq b.mount_type "volume" && not (str_eq b.name "") then b.name ∷ rest else rest

unfoldable pub volumes_in_use : Option (List Container) → List String
volumes_in_use none = []
volumes_in_use (some []) = []
volumes_in_use (some (c ∷ cs)) = volumes_of c.mounts ++ volumes_in_use (some cs)

abbrev pub listed {ℓ} : {A : Type ℓ} → Option (List A) → List A
listed none = []
listed (some xs) = xs

-- Scan
unfoldable pub scan : Files → Marshal → DockerCfg → Answers → ℕ → List Sample
unfolding container_samples volume_sample volumes_in_use
scan files m cfg answers now =
    container_samples files m now cfg answers.log_path (listed answers.containers)
    ++ ((if cfg.track_volumes
          then map (volume_sample files m now (volumes_in_use answers.containers))
              (listed answers.volumes)
          else [])
        ++ (if cfg.track_images
            then map (image_sample files m now) (listed answers.images)
            else []))
