-- ===== src/Scanner/Stamps.antt =====
-- Every sample of a scan carries the time of the scan.
use server_space_manager_ai.Prelude.{
  ℕ, ◌≡◌, refl, Bool, true, false, not, ◌||◌, Option, none, some, String, List, [], ◌∷◌, All,
  All-append, map-All, Bool-cases, Option-cases, inl, inr, str_eq, if◌then◌else◌,
}
use server_space_manager_ai.Prelude.Int.{ℤ}
use server_space_manager_ai.Prelude.Sorting.{Sorter}
use server_space_manager_ai.Store.{Sample}
use server_space_manager_ai.Config.{DockerCfg}
use server_space_manager_ai.Scanner.BigFiles.{HeapPackage, BigFilesHeap, new_big_files_heap, sorted}
use server_space_manager_ai.Scanner.Host.{
  Root, Host, HostScanner, walk_files, walk_path, walk_paths, visits_of, path_sample, fs_sample,
  fs_samples, file_sample, big_files_top,
}
use server_space_manager_ai.Scanner.Host as Host
use server_space_manager_ai.Scanner.Docker.{
  Mount, Container, Volume, Answers, Files, Marshal, skip_bind_source, host_size, log_size,
  log_sample, bind_sample, bind_samples, container_samples, volume_sample, volumes_in_use,
  image_sample, listed,
}
use server_space_manager_ai.Scanner.Docker as Docker

module _ (now : ℕ) where
  abbrev pub IsStamped : Sample → Type 0
  IsStamped s = s.taken_at ≡ now

  abbrev AreStamped : List Sample → Type 0
  AreStamped = All IsStamped

  when-AreStamped :
      (b : Bool) (xs : List Sample) → AreStamped xs → AreStamped (if b then xs else [])
  when-AreStamped true xs a = a
  when-AreStamped false xs a = tt

  fs_sample-AreStamped :
      (decimal : ℤ → String) (p : String) (o : Option (ℤ × ℤ))
      → AreStamped (fs_sample decimal now p o)
  fs_sample-AreStamped decimal p none = tt
  fs_sample-AreStamped decimal p (some (total, avail)) = (refl, tt)

  fs_samples-AreStamped : (host : Host) (ps : List String) → AreStamped (fs_samples host now ps)
  unfolding fs_samples
  fs_samples-AreStamped host [] = tt
  fs_samples-AreStamped host (p ∷ ps) =
      All-append IsStamped _ _ (fs_sample-AreStamped host.decimal p (host.statfs p))
        (fs_samples-AreStamped host ps)

  -- of a result, if there is one
  abbrev AreStampedIn : Option (List Sample × BigFilesHeap) → Type 0
  AreStampedIn none = Unit
  AreStampedIn (some (samples, bigs)) = AreStamped samples

  abbrev IsStampedResult : Option (List Sample) → Type 0
  IsStampedResult none = Unit
  IsStampedResult (some samples) = AreStamped samples

  module _ (heap : HeapPackage) (host : Host) (h : HostScanner) where
    walk_paths-AreStamped :
        (rs : List Root) (bigs : BigFilesHeap) → AreStampedIn (walk_paths heap host h now rs bigs)
    unfolding walk_paths walk_path
    walk_paths-AreStamped [] bigs = tt
    walk_paths-AreStamped (r ∷ rs) bigs =
        elim (Option-cases (walk_files heap r (visits_of host h r (host.tree r.clean)) [] bigs)) [
          | inl e ↦ rw (walk_paths, walk_path, e) tt
          | inr ((sizes, next), e) ↦ elim (Option-cases (walk_paths heap host h now rs next)) [
            | inl f ↦ rw (walk_paths, walk_path, e, f) tt
            | inr ((later, end), f) ↦
                let rest : AreStamped later = rw f at (walk_paths-AreStamped rs next) in
                rw (walk_paths, walk_path, e, f)
                  (All-append IsStamped _ _ (map-All IsStamped (path_sample now) (λ s. refl) sizes)
                    rest)
          ]
        ]

    scan-IsStampedResult : (sorter : Sorter) → IsStampedResult (Host.scan heap sorter host h now)
    unfolding Host.scan
    scan-IsStampedResult sorter =
        let start = new_big_files_heap big_files_top in
        elim (Option-cases (walk_paths heap host h now h.paths start)) [
          | inl e ↦ rw (Host.scan, e) tt
          | inr ((samples, bigs), e) ↦
              let walked : AreStamped samples = rw e at (walk_paths-AreStamped h.paths start) in
              rw (Host.scan, e)
                (All-append IsStamped _ _ walked (
                  All-append IsStamped _ _ (fs_samples-AreStamped host h.filesystems)
                    (map-All IsStamped (file_sample now) (λ f. refl) (sorted sorter bigs))))
        ]

    pub scan-AreStamped :
        (sorter : Sorter) (samples : List Sample)
        → Host.scan heap sorter host h now ≡ some samples
        → AreStamped samples
    scan-AreStamped sorter samples e = rw e at (scan-IsStampedResult sorter)

  module _ (files : Files) (m : Marshal) where
    log_sample-AreStamped : (c : Container) (o : Option ℤ) → AreStamped (log_sample files m now c o)
    log_sample-AreStamped c none = tt
    log_sample-AreStamped c (some n) = (refl, tt)

    bind_sample-AreStamped :
        (c : Container) (source : String) (o : Option ℤ)
        → AreStamped (bind_sample files m now c source o)
    bind_sample-AreStamped c source none = tt
    bind_sample-AreStamped c source (some n) = (refl, tt)

    bind_samples-AreStamped :
        (c : Container) (bs : List Mount) → AreStamped (bind_samples files m now c bs)
    unfolding bind_samples
    bind_samples-AreStamped c [] = tt
    bind_samples-AreStamped c (b ∷ bs) =
        let rest = bind_samples-AreStamped c bs in
        let one = bind_sample-AreStamped c b.source (host_size files b.source) in
        elim (Bool-cases (not (str_eq b.mount_type "bind") || skip_bind_source b.source)) [
          | inl e ↦ rw e rest
          | inr e ↦ rw e (All-append IsStamped _ _ one rest)
        ]

    container_samples-AreStamped :
        (cfg : DockerCfg) (log_path : String → Option String) (cs : List Container)
        → AreStamped (container_samples files m now cfg log_path cs)
    unfolding container_samples
    container_samples-AreStamped cfg log_path [] = tt
    container_samples-AreStamped cfg log_path (c ∷ cs) =
        All-append IsStamped _ _
          (when-AreStamped cfg.track_logs _
            (log_sample-AreStamped c (log_size files (log_path c.id))))
          (All-append IsStamped _ _
            (when-AreStamped cfg.track_bind_mounts _ (bind_samples-AreStamped c c.mounts))
            (container_samples-AreStamped cfg log_path cs))

    pub docker-AreStamped :
        (cfg : DockerCfg) (answers : Answers) → AreStamped (Docker.scan files m cfg answers now)
    unfolding Docker.scan volume_sample
    docker-AreStamped cfg answers =
        let in_use = volumes_in_use answers.containers in
        All-append IsStamped _ _
          (container_samples-AreStamped cfg answers.log_path (listed answers.containers))
          (All-append IsStamped _ _
            (when-AreStamped cfg.track_volumes _ (
              map-All IsStamped (volume_sample files m now in_use) (λ v. refl)
                (listed answers.volumes)))
            (when-AreStamped cfg.track_images _
              (map-All IsStamped (image_sample files m now) (λ i. refl) (listed answers.images))))
