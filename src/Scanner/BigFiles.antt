-- ===== src/Scanner/BigFiles.antt =====
-- internal/scanner/bigfiles.go: the heap of the largest files. The package container/heap is its
-- documented contract: the minimum is at index 0, and Push and Fix keep the heap's order.
pub mod Largest
use mathlib.Core.List.{Permᴰ}
use server_space_manager_ai.Prelude.{
  ◌≡◌, String, Bool, true, false, List, [], ◌∷◌, All, length, if◌then◌else◌,
}
use server_space_manager_ai.Prelude.Int.{ℤ, pos, ltb_ℤ, leb_ℤ}
use server_space_manager_ai.Prelude.Sorting.{Sorter, by_desc}

pub record BigFile : Type 0 where
  pub path : String
  pub size : ℤ

-- Less
abbrev pub smaller : BigFile → BigFile → Bool
smaller a b = ltb_ℤ a.size b.size

-- container/heap over a minHeap: Push, and Fix at index 0.
pub record HeapPackage : Type 1 where
  pub IsHeap : List BigFile → Type 0
  pub push : BigFile → List BigFile → List BigFile
  pub fix_root : List BigFile → List BigFile
  pub empty-IsHeap : IsHeap []
  pub root_least :
      (x : BigFile) (xs : List BigFile) → IsHeap (x ∷ xs) → All (λ y. smaller y x ≡ false) xs
  pub push-perm : (x : BigFile) (xs : List BigFile) → Permᴰ (push x xs) (x ∷ xs)
  pub push-IsHeap : (x : BigFile) (xs : List BigFile) → IsHeap xs → IsHeap (push x xs)
  pub fix_root-perm : (xs : List BigFile) → Permᴰ (fix_root xs) xs
  pub fix_root-IsHeap :
      (x y : BigFile) (xs : List BigFile) → IsHeap (x ∷ xs) → IsHeap (fix_root (y ∷ xs))

-- bigFilesHeap
pub record BigFilesHeap : Type 0 where
  pub cap : ℤ
  pub h : List BigFile

-- newBigFilesHeap
unfoldable pub new_big_files_heap : ℤ → BigFilesHeap
new_big_files_heap capacity = record { cap = capacity; h = [] }

abbrev pub larger : BigFile → BigFile → Bool
larger = by_desc (λ f. f.size)

module _ (heap : HeapPackage) where
  -- the second half of consider; an empty heap, whose root Go could not read, is never full
  unfoldable pub displace : BigFile → List BigFile → List BigFile
  displace file [] = []
  displace file (root ∷ rest) =
      if ltb_ℤ root.size file.size then heap.fix_root (file ∷ rest) else root ∷ rest

  -- consider
  unfoldable pub consider : BigFile → BigFilesHeap → BigFilesHeap
  unfolding displace
  consider file b =
      if leb_ℤ b.cap (pos 0)
      then b
      else if ltb_ℤ (pos (length b.h)) b.cap
      then record b { h = heap.push file b.h }
      else record b { h = displace file b.h }

  -- the calls of consider in a walk
  unfoldable pub consider_all : List BigFile → BigFilesHeap → BigFilesHeap
  unfolding consider
  consider_all [] b = b
  consider_all (f ∷ fs) b = consider_all fs (consider f b)

-- sorted
unfoldable pub sorted : Sorter → BigFilesHeap → List BigFile
sorted sorter b = sorter.sort larger b.h
