-- ===== src/Api/Dashboard/Tops.antt =====
-- The lists of /api/summary: the largest samples of each kind, and all filesystems.
use server_space_manager_ai.Prelude.{
  ◌≡◌, refl, sym, ap, String, ℕ, List, [], ◌∷◌, map, arith, ltb, str_eq, length, select, take,
  take_all, if◌then◌else◌, Bool-cases, inl, inr,
}
use server_space_manager_ai.Prelude.Int.{ℤ}
use server_space_manager_ai.Prelude.Floats.{Floats}
use server_space_manager_ai.Prelude.Sorting.{Sorter, by_desc-IsWeakOrder, IsTop, take_sort-IsTop}
use server_space_manager_ai.Store.{Sample}
use server_space_manager_ai.Api.Dashboard.{
  SummaryItem, summary_item, larger, top_n, Snapshot, Summary, fs_item, fs_items, handle_summary,
}

-- `items` are the `n` largest samples of a kind, the largest first, or all if there are fewer.
pub record IsLargest (samples : List Sample) (kind : String) (n : ℕ) (items : List SummaryItem)
    : Type 0 where
  pub shown : List Sample
  pub top : IsTop larger n (select (λ s. str_eq s.kind kind) samples) shown
  pub items_of : items ≡ map summary_item shown

if_cut :
    {A : Type 0} (n : ℕ) (xs : List A) → (if ltb n (length xs) then take n xs else xs) ≡ take n xs
if_cut n xs = elim (Bool-cases (ltb n (length xs))) [
  | inl h ↦ rw h refl
  | inr h ↦ rw h (sym (take_all n xs (ground arith)))
]

top_n-IsLargest :
    (sorter : Sorter) (samples : List Sample) (kind : String) (n : ℕ)
    → IsLargest samples kind n (top_n sorter samples kind n)
unfolding top_n
top_n-IsLargest sorter samples kind n =
    let found = select (λ s. str_eq s.kind kind) samples in
    record {
      shown = take n (sorter.sort larger found);
      top = take_sort-IsTop larger n found sorter (by_desc-IsWeakOrder (λ s. s.bytes));
      items_of = ap (map summary_item) (if_cut n (sorter.sort larger found));
    }

module _ (F : Floats) (total_of : String → ℤ) where
  fs_items-map :
      (xs : List Sample)
      → fs_items F total_of xs ≡ map (fs_item F total_of) (select (λ x. str_eq x.kind "fs") xs)
  unfolding fs_items
  fs_items-map [] = refl
  fs_items-map (x ∷ xs) = elim (Bool-cases (str_eq x.kind "fs")) [
    | inl h ↦ rw h (ap (◌∷◌ (fs_item F total_of x)) (fs_items-map xs))
    | inr h ↦ rw h (fs_items-map xs)
  ]

  -- What the summary shows of the samples of a scan.
  pub record IsSummary (snap : Snapshot) (s : Summary F) : Type 0 where
    pub filesystems :
        s.filesystems ≡ map (fs_item F total_of) (select (λ x. str_eq x.kind "fs") snap.samples)
    pub logs : IsLargest snap.samples "container_log" 10 s.top_logs
    pub volumes : IsLargest snap.samples "volume" 10 s.top_volumes
    pub paths : IsLargest snap.samples "host_path" 10 s.top_paths
    pub images : IsLargest snap.samples "image" 10 s.top_images
    pub files : IsLargest snap.samples "big_file" 15 s.top_files

  -- The summary shows every filesystem of the scan, in its order, and of the logs, volumes, paths,
  -- images and big files the largest (10 each, 15 files), the largest first.
  pub handle_summary-IsSummary :
      (sorter : Sorter) (snap : Snapshot) → IsSummary snap (handle_summary F total_of sorter snap)
  unfolding handle_summary
  handle_summary-IsSummary sorter snap = record {
    filesystems = fs_items-map snap.samples;
    logs = top_n-IsLargest sorter snap.samples "container_log" 10;
    volumes = top_n-IsLargest sorter snap.samples "volume" 10;
    paths = top_n-IsLargest sorter snap.samples "host_path" 10;
    images = top_n-IsLargest sorter snap.samples "image" 10;
    files = top_n-IsLargest sorter snap.samples "big_file" 15;
  }
