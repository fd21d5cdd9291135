-- ===== src/Scanner/BigFiles/Largest.antt =====
-- The heap keeps the largest of the files that were considered.
use Prim.Native.Nat.{min}
use mathlib.Core.List.{Permᴰ, append-nil}
use mathlib.Core.List.Permᴰ
use server_space_manager_ai.Prelude.{
  ℕ, ◌+◌, ◌<◌, ◌≤◌, ◌≡◌, refl, ◌∙◌, sym, subst, true, false, List, [], ◌∷◌, ◌++◌, arith, All,
  All-map, All-both, length, length-append, Bool-cases, inl, inr,
}
use server_space_manager_ai.Prelude.Int.{ℤ, pos, pos_part, ltb_ℤ, leb_ℤ}
use server_space_manager_ai.Prelude.Sorting.{
  Sorter, by_desc-IsWeakOrder, IsTop, All-perm, length-perm,
}
use server_space_manager_ai.Scanner.BigFiles.{
  BigFile, HeapPackage, BigFilesHeap, new_big_files_heap, larger, displace, consider, consider_all,
  sorted,
}

-- No file of `rest` is larger than one of `h`.
abbrev AreLeast : List BigFile → List BigFile → Type 0
AreLeast rest h = All (λ y. All (λ z. larger z y ≡ false) rest) h

module _ (heap : HeapPackage) where
  -- `h` holds the `n` largest files of `seen`.
  record IsKept (n : ℕ) (seen h : List BigFile) : Type 0 where
    rest : List BigFile
    split : Permᴰ (h ++ rest) seen
    is_heap : heap.IsHeap h
    least : AreLeast rest h
    size : length h ≡ min n (length seen)

  length-split :
      (h rest seen : List BigFile) → Permᴰ (h ++ rest) seen → length h + length rest ≡ length seen
  length-split h rest seen p = sym (length-append h rest) ∙ length-perm p

  IsKept-perm :
      (n : ℕ) (seen seen' h : List BigFile) → Permᴰ seen seen' → IsKept n seen h → IsKept n seen' h
  IsKept-perm n seen seen' h p k = record {
    rest = k.rest;
    split = Permᴰ.trans k.split p;
    is_heap = k.is_heap;
    least = k.least;
    size = omega (arith, k.size, length-perm p);
  }

  none-IsKept :
      (n : ℕ) (x : BigFile) (seen h : List BigFile)
      → n ≡ 0
      → IsKept n seen h
      → IsKept n (x ∷ seen) h
  none-IsKept n x seen [] e k = record {
    rest = x ∷ seen;
    split = Permᴰ.refl (x ∷ seen);
    is_heap = heap.empty-IsHeap;
    least = tt;
    size = omega (arith, e);
  }
  none-IsKept n x seen (y ∷ h) e k = absurd (omega (arith, e, k.size))

  no_rest :
      (n : ℕ) (seen h rest : List BigFile)
      → Permᴰ (h ++ rest) seen
      → length h ≡ min n (length seen)
      → length h < n
      → rest ≡ []
  no_rest n seen h [] p s lt = refl
  no_rest n seen h (r ∷ rest) p s lt =
      absurd (omega (arith, length-split h (r ∷ rest) seen p, s, lt))

  least_none : (h : List BigFile) → AreLeast [] h
  least_none [] = tt
  least_none (y ∷ h) = (tt, least_none h)

  push-IsKept :
      (n : ℕ) (x : BigFile) (seen h : List BigFile)
      → length h < n
      → IsKept n seen h
      → IsKept n (x ∷ seen) (heap.push x h)
  push-IsKept n x seen h lt k =
      let e = no_rest n seen h k.rest k.split k.size lt in
      let all : Permᴰ h seen =
        subst (λ r. Permᴰ r seen) (append-nil h) (subst (λ r. Permᴰ (h ++ r) seen) e k.split) in
      record {
        rest = [];
        split =
            Permᴰ.trans (Permᴰ.append-nil (heap.push x h))
              (Permᴰ.trans (heap.push-perm x h) (Permᴰ.cons refl all));
        is_heap = heap.push-IsHeap x h k.is_heap;
        least = least_none (heap.push x h);
        size = omega (arith, length-perm (heap.push-perm x h), k.size, lt, length-perm all);
      }

  -- the heap after its root `y` gave way to a larger file `x`
  replaced_least :
      (x y : BigFile) (h rest : List BigFile)
      → ltb_ℤ y.size x.size ≡ true
      → heap.IsHeap (y ∷ h)
      → AreLeast rest (y ∷ h)
      → AreLeast (y ∷ rest) (x ∷ h)
  replaced_least x y h rest more ordered l = (
    (ground arith, All-map (λ z below. ground (arith, below)) rest l.0),
    All-both (λ w. larger y w ≡ false) (λ w. All (λ z. larger z w ≡ false) rest) h
        (heap.root_least y h ordered) l.1,
  )

  -- and after a file `x` that is not larger was left out
  refused_least :
      (x y : BigFile) (h rest : List BigFile)
      → ltb_ℤ y.size x.size ≡ false
      → heap.IsHeap (y ∷ h)
      → AreLeast rest (y ∷ h)
      → AreLeast (x ∷ rest) (y ∷ h)
  refused_least x y h rest less ordered l = (
    (less, l.0),
    All-both (λ w. larger x w ≡ false) (λ w. All (λ z. larger z w ≡ false) rest) h
        (All-map (λ w above. ground (arith, above)) h (heap.root_least y h ordered)) l.1,
  )

  replaced_split :
      (x y : BigFile) (h rest seen : List BigFile)
      → Permᴰ (y ∷ (h ++ rest)) seen
      → Permᴰ (heap.fix_root (x ∷ h) ++ y ∷ rest) (x ∷ seen)
  replaced_split x y h rest seen p =
      Permᴰ.trans (Permᴰ.append_right (y ∷ rest) (heap.fix_root-perm (x ∷ h)))
        (Permᴰ.cons refl (Permᴰ.trans (Permᴰ.middle y h rest) p))

  displace-IsKept :
      (n : ℕ) (x : BigFile) (seen h : List BigFile)
      → 0 < n
      → n ≤ length h
      → IsKept n seen h
      → IsKept n (x ∷ seen) (displace heap x h)
  unfolding displace
  displace-IsKept n x seen [] p full k = absurd (omega (arith, p, full))
  displace-IsKept n x seen (y ∷ h) p full k = elim (Bool-cases (ltb_ℤ y.size x.size)) [
    | inl more ↦ rw more record {
      rest = y ∷ k.rest;
      split = replaced_split x y h k.rest seen k.split;
      is_heap = heap.fix_root-IsHeap y x h k.is_heap;
      least =
          All-perm (λ w. All (λ z. larger z w ≡ false) (y ∷ k.rest))
            (Permᴰ.symm (heap.fix_root-perm (x ∷ h)))
            (replaced_least x y h k.rest more k.is_heap k.least);
      size = omega (arith, length-perm (heap.fix_root-perm (x ∷ h)), k.size, full);
    }
    | inr less ↦ rw less record {
      rest = x ∷ k.rest;
      split = Permᴰ.trans (Permᴰ.middle x (y ∷ h) k.rest) (Permᴰ.cons refl k.split);
      is_heap = k.is_heap;
      least = refused_least x y h k.rest less k.is_heap k.least;
      size = omega (arith, k.size, full);
    }
  ]

  consider-IsKept :
      (x : BigFile) (b : BigFilesHeap) (seen : List BigFile)
      → IsKept (pos_part b.cap) seen b.h
      → IsKept (pos_part b.cap) (x ∷ seen) (consider heap x b).h × ((consider heap x b).cap ≡ b.cap)
  unfolding consider
  consider-IsKept x b seen k = elim (Bool-cases (leb_ℤ b.cap (pos 0))) [
    | inl zero_cap ↦ rw zero_cap (none-IsKept _ x seen b.h (ground arith) k, refl)
    | inr some_cap ↦ rw some_cap (elim (Bool-cases (ltb_ℤ (pos (length b.h)) b.cap)) [
      | inl room ↦ rw room (push-IsKept _ x seen b.h (ground arith) k, refl)
      | inr full ↦ rw full (displace-IsKept _ x seen b.h (ground arith) (ground arith) k, refl)
    ])
  ]

  consider_all-IsKept :
      (fs : List BigFile) (b : BigFilesHeap) (seen : List BigFile)
      → IsKept (pos_part b.cap) seen b.h
      → IsKept (pos_part b.cap) (fs ++ seen) (consider_all heap fs b).h
  unfolding consider_all
  consider_all-IsKept [] b seen k = k
  consider_all-IsKept (f ∷ fs) b seen k =
      let one = consider-IsKept f b seen k in
      let next = consider heap f b in
      let later : IsKept (pos_part next.cap) (fs ++ f ∷ seen) (consider_all heap fs next).h =
        consider_all-IsKept fs next (f ∷ seen)
          (subst (λ c. IsKept (pos_part c) (f ∷ seen) next.h) (sym one.1) one.0) in
      IsKept-perm (pos_part b.cap) (fs ++ f ∷ seen) (f ∷ (fs ++ seen)) _ (Permᴰ.middle f fs seen) (
        subst (λ c. IsKept (pos_part c) (fs ++ f ∷ seen) (consider_all heap fs next).h) one.1 later)

kept :
    (heap : HeapPackage) (capacity : ℤ) (fs : List BigFile)
    → IsKept heap (pos_part capacity) fs (consider_all heap fs (new_big_files_heap capacity)).h
unfolding new_big_files_heap
kept heap capacity fs =
    let empty = new_big_files_heap capacity in
    subst (λ l. IsKept heap (pos_part capacity) l (consider_all heap fs empty).h) (append-nil fs)
      (consider_all-IsKept heap fs empty [] record {
        rest = [];
        split = Permᴰ.nil;
        is_heap = heap.empty-IsHeap;
        least = tt;
        size = omega arith;
      })

-- Whatever the files and the heap package that keeps its documented contract: what is shown after
-- all files have been considered are the largest of them, the largest first, as many as the
-- capacity, or all if there are fewer.
pub sorted-IsTop :
    (heap : HeapPackage) (sorter : Sorter) (capacity : ℤ) (fs : List BigFile)
    → IsTop larger
        (pos_part capacity)
        fs
        (sorted sorter (consider_all heap fs (new_big_files_heap capacity)))
unfolding sorted new_big_files_heap
sorted-IsTop heap sorter capacity fs =
    let b = consider_all heap fs (new_big_files_heap capacity) in
    let k = kept heap capacity fs in
    let order = by_desc-IsWeakOrder (λ (f : BigFile). f.size) in
    let p = sorter.sort-perm larger b.h in
    record {
      rest = k.rest;
      split = Permᴰ.trans (Permᴰ.append_right k.rest p) k.split;
      sorted = sorter.sort-IsSortedBy larger b.h order;
      least = All-perm (λ y. All (λ z. larger z y ≡ false) k.rest) (Permᴰ.symm p) k.least;
      size = length-perm p ∙ k.size;
    }
