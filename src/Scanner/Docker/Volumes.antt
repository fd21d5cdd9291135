-- ===== src/Scanner/Docker/Volumes.antt =====
-- Which volumes a scan reports, and which of them as orphans.
use server_space_manager_ai.Prelude.{
  ℕ, ◌≡◌, refl, ap, ap₂, ◌∙◌, String, Bool, true, false, not, ◌&&◌, ◌||◌, Option, none, some, List,
  [], ◌∷◌, ◌++◌, arith, map, select, select-append, contains, str_eq, if◌then◌else◌, Bool-cases,
  inl, inr,
}
use mathlib.Core.List.{append-nil}
use server_space_manager_ai.Prelude.Int.{ℤ}
use server_space_manager_ai.Store.{Sample}
use server_space_manager_ai.Config.{DockerCfg}
use server_space_manager_ai.Scanner.Docker.{
  Mount, Container, Volume, Image, Answers, Files, Marshal, host_size, log_size, bind_samples,
  container_samples, volume_sample, image_sample, volumes_of, volumes_in_use, listed, scan,
  skip_bind_source, log_sample, bind_sample,
}

-- A container mounts a named volume.
abbrev pub mounts : String → List Mount → Bool
mounts name [] = false
mounts name (b ∷ bs) =
    let rest = mounts name bs in
    if str_eq b.mount_type "volume" && (not (str_eq b.name "") && str_eq b.name name)
    then true
    else rest

abbrev pub is_mounted : String → List Container → Bool
is_mounted name [] = false
is_mounted name (c ∷ cs) = let rest = is_mounted name cs in mounts name c.mounts || rest

abbrev pub is_volume : Sample → Bool
is_volume s = str_eq s.kind "volume" || str_eq s.kind "orphan_volume"

contains-append :
    (k : String) (xs ys : List String) → contains k (xs ++ ys) ≡ contains k xs || contains k ys
contains-append k [] ys = refl
contains-append k (x ∷ xs) ys = ground (arith, contains-append k xs ys)

contains-volumes_of :
    (name : String) (bs : List Mount) → contains name (volumes_of bs) ≡ mounts name bs
contains-volumes_of name [] = refl
contains-volumes_of name (b ∷ bs) = ground (arith, contains-volumes_of name bs)

contains-volumes_in_use :
    (name : String) (cs : List Container)
    → contains name (volumes_in_use (some cs)) ≡ is_mounted name cs
unfolding volumes_in_use
contains-volumes_in_use name [] = refl
contains-volumes_in_use name (c ∷ cs) =
    contains-append name (volumes_of c.mounts) (volumes_in_use (some cs))
    ∙ ap₂ ◌||◌ (contains-volumes_of name c.mounts) (contains-volumes_in_use name cs)

select_none :
    (xs ys : List Sample)
    → select is_volume xs ≡ []
    → select is_volume ys ≡ []
    → select is_volume (xs ++ ys) ≡ []
select_none xs ys e f = rw (select-append, e, f) refl

module _ (files : Files) (m : Marshal) (now : ℕ) where
  log_sample-no_volume :
      (c : Container) (size : Option ℤ) → select is_volume (log_sample files m now c size) ≡ []
  log_sample-no_volume c none = refl
  log_sample-no_volume c (some n) = refl

  bind_sample-no_volume :
      (c : Container) (source : String) (size : Option ℤ)
      → select is_volume (bind_sample files m now c source size) ≡ []
  bind_sample-no_volume c source none = refl
  bind_sample-no_volume c source (some n) = refl

  bind_samples-no_volume :
      (c : Container) (bs : List Mount) → select is_volume (bind_samples files m now c bs) ≡ []
  unfolding bind_samples
  bind_samples-no_volume c [] = refl
  bind_samples-no_volume c (b ∷ bs) =
      let rest = bind_samples-no_volume c bs in
      elim (Bool-cases (not (str_eq b.mount_type "bind") || skip_bind_source b.source)) [
        | inl h ↦ rw h rest
        | inr h ↦ rw h (
            select_none (bind_sample files m now c b.source (host_size files b.source)) _
              (bind_sample-no_volume c b.source (host_size files b.source)) rest)
      ]

  container_samples-no_volume :
      (cfg : DockerCfg) (log_path : String → Option String) (cs : List Container)
      → select is_volume (container_samples files m now cfg log_path cs) ≡ []
  unfolding container_samples
  container_samples-no_volume cfg log_path [] = refl
  container_samples-no_volume cfg log_path (c ∷ cs) =
      let size = log_size files (log_path c.id) in
      let logs = if cfg.track_logs then log_sample files m now c size else [] in
      let binds = if cfg.track_bind_mounts then bind_samples files m now c c.mounts else [] in
      let rest = container_samples files m now cfg log_path cs in
      select_none logs (binds ++ rest) (ground (arith, log_sample-no_volume c size)) (
        select_none binds rest (ground (arith, bind_samples-no_volume c c.mounts))
          (container_samples-no_volume cfg log_path cs))

  image_samples-no_volume :
      (is : List Image) → select is_volume (map (image_sample files m now) is) ≡ []
  image_samples-no_volume [] = refl
  image_samples-no_volume (i ∷ is) = image_samples-no_volume is

  volume_sample-is_volume :
      (in_use : List String) (v : Volume) → is_volume (volume_sample files m now in_use v) ≡ true
  unfolding volume_sample
  volume_sample-is_volume in_use v = elim (Bool-cases (contains v.name in_use)) [
    | inl h ↦ rw h refl
    | inr h ↦ rw h refl
  ]

  volume_samples-is_volume :
      (in_use : List String) (vs : List Volume)
      → select is_volume (map (volume_sample files m now in_use) vs)
        ≡ map (volume_sample files m now in_use) vs
  volume_samples-is_volume in_use [] = refl
  volume_samples-is_volume in_use (v ∷ vs) =
      rw (volume_sample-is_volume in_use v)
        (ap (◌∷◌ (volume_sample files m now in_use v)) (volume_samples-is_volume in_use vs))

  -- the samples of the kinds of volumes are those of the loop over the volumes
  scan-volume_samples :
      (cfg : DockerCfg) (answers : Answers) (vs : List Volume)
      → cfg.track_volumes ≡ true
      → answers.volumes ≡ some vs
      → select is_volume (scan files m cfg answers now)
        ≡ map (volume_sample files m now (volumes_in_use answers.containers)) vs
  unfolding scan
  scan-volume_samples cfg answers vs track e =
      let images =
        if cfg.track_images then map (image_sample files m now) (listed answers.images) else [] in
      let no_image : select is_volume images ≡ [] =
        ground (arith, image_samples-no_volume (listed answers.images)) in
      let in_use = volumes_in_use answers.containers in
      let found =
        if cfg.track_volumes
        then map (volume_sample files m now in_use) (listed answers.volumes)
        else [] in
      let reported : select is_volume found ≡ map (volume_sample files m now in_use) vs =
        rw (track, e) (volume_samples-is_volume in_use vs) in
      let before = container_samples files m now cfg answers.log_path (listed answers.containers) in
      let none_before =
        container_samples-no_volume cfg answers.log_path (listed answers.containers) in
      select-append is_volume before (found ++ images)
      ∙ ap₂ ◌++◌ none_before
          (select-append is_volume found images ∙ ap₂ ◌++◌ reported no_image ∙ append-nil _)

-- The sample of a volume, an orphan exactly if no container of the list mounts it.
abbrev pub IsReported : List Container → Volume → Sample → Type 0
IsReported cs v s =
    (s.key ≡ v.name) × (s.kind ≡ (if is_mounted v.name cs then "volume" else "orphan_volume"))

-- One sample for each volume, in order.
abbrev pub AreReported : List Container → List Volume → List Sample → Type 0
AreReported cs [] [] = Unit
AreReported cs [] (s ∷ ss) = ⊥
AreReported cs (v ∷ vs) [] = ⊥
AreReported cs (v ∷ vs) (s ∷ ss) = IsReported cs v s × AreReported cs vs ss

volume_samples-AreReported :
    (files : Files) (m : Marshal) (now : ℕ) (cs : List Container) (vs : List Volume)
    → AreReported cs vs (map (volume_sample files m now (volumes_in_use (some cs))) vs)
unfolding volume_sample
volume_samples-AreReported files m now cs [] = tt
volume_samples-AreReported files m now cs (v ∷ vs) = (
  (refl, rw (contains-volumes_in_use v.name cs) refl),
  volume_samples-AreReported files m now cs vs,
)

-- When volumes are tracked and both lists can be read, a scan reports each volume exactly once, in
-- order, whatever the files, logs and images: as an orphan exactly if no container mounts it by
-- name.
pub scan-AreReported :
    (files : Files) (m : Marshal) (cfg : DockerCfg) (answers : Answers) (now : ℕ)
    (cs : List Container) (vs : List Volume)
    → cfg.track_volumes ≡ true
    → answers.containers ≡ some cs
    → answers.volumes ≡ some vs
    → AreReported cs vs (select is_volume (scan files m cfg answers now))
scan-AreReported files m cfg answers now cs vs track c v =
    rw (scan-volume_samples files m now cfg answers vs track v, c)
      (volume_samples-AreReported files m now cs vs)

-- If the list of containers cannot be read while that of the volumes can, and volumes are tracked,
-- a scan reports every volume as an orphan, also those that are mounted.
pub scan_containers_lost :
    (files : Files) (m : Marshal) (cfg : DockerCfg) (answers : Answers) (now : ℕ) (vs : List Volume)
    → cfg.track_volumes ≡ true
    → answers.containers ≡ none
    → answers.volumes ≡ some vs
    → AreReported [] vs (select is_volume (scan files m cfg answers now))
unfolding volumes_in_use
scan_containers_lost files m cfg answers now vs track c v =
    rw (scan-volume_samples files m now cfg answers vs track v, c)
      (volume_samples-AreReported files m now [] vs)
