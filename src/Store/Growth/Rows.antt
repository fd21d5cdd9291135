-- ===== src/Store/Growth/Rows.antt =====
-- Each row of GrowthSince is the difference of two samples of one item.
use mathlib.Core.List.{Memᴰ}
use mathlib.Core.List.Permᴰ
use server_space_manager_ai.Prelude.{
  ℕ, ◌≤◌, ◌≡◌, refl, Bool, true, ◌&&◌, Option, none, some, String, List, [], ◌∷◌, arith, All,
  All-append, All-both, All-take, All-map, select, leb, ltb, str_eq, eq_iff, if◌then◌else◌, inl,
  inr, Bool-cases, length, length-take-le, Option-cases, leb→le, le→leb, select-All,
}
use server_space_manager_ai.Prelude.Sorting.{
  Sorter, IsSortedBy, take-IsSortedBy, by_desc-IsWeakOrder, All-perm,
}
use server_space_manager_ai.Store.{Sample, Db}
use server_space_manager_ai.Store.Growth.{
  GrowthRow, min_time, max_time, is_time, same_item, first_rows, last_rows, growth_row, join_one,
  join_rows, by_delta, growth_since,
}

-- `l` is a latest sample of its item, of this kind.
pub record IsLast (xs : List Sample) (kind : String) (l : Sample) : Type 0 where
  pub is_kind : l.kind ≡ kind
  pub latest : All (λ y. same_item l y ≡ true → y.taken_at ≤ l.taken_at) xs

-- `f` is an earliest sample of its item since `since`, of this kind.
pub record IsFirst (xs : List Sample) (kind : String) (since : ℕ) (f : Sample) : Type 0 where
  pub is_kind : f.kind ≡ kind
  pub recent : since ≤ f.taken_at
  pub earliest : All (λ y. same_item f y ≡ true → since ≤ y.taken_at → f.taken_at ≤ y.taken_at) xs

max_time-bound :
    (xs : List Sample) (b : ℕ)
    → ((t : ℕ) → max_time xs ≡ some t → t ≤ b)
    → All (λ y. y.taken_at ≤ b) xs
unfolding max_time
max_time-bound [] b h = tt
max_time-bound (x ∷ xs) b h = elim (Option-cases (max_time xs)) [
  | inl e ↦ (h x.taken_at (rw e), max_time-bound xs b (λ t d. absurd (cc (e, d))))
  | inr (m, e) ↦
      let top = h (if ltb m x.taken_at then x.taken_at else m) (rw e) in
      (ground (arith, top), max_time-bound xs b (λ t d. ground (arith, top, e, d)))
]

min_time-bound :
    (xs : List Sample) (b : ℕ)
    → ((t : ℕ) → min_time xs ≡ some t → b ≤ t)
    → All (λ y. b ≤ y.taken_at) xs
unfolding min_time
min_time-bound [] b h = tt
min_time-bound (x ∷ xs) b h = elim (Option-cases (min_time xs)) [
  | inl e ↦ (h x.taken_at (rw e), min_time-bound xs b (λ t d. absurd (cc (e, d))))
  | inr (m, e) ↦
      let low = h (if ltb x.taken_at m then x.taken_at else m) (rw e) in
      (ground (arith, low), min_time-bound xs b (λ t d. ground (arith, low, e, d)))
]

All-of_select {κ} :
    {A : Type 0} (p : A → Bool) (P : A → Type κ) (xs : List A)
    → All P (select p xs)
    → All (λ x. p x ≡ true → P x) xs
All-of_select p P [] h = tt
All-of_select p P (x ∷ xs) h = elim (Bool-cases (p x)) [
  | inl e ↦ let k = rw e at h in ((λ _. k.0), All-of_select p P xs k.1)
  | inr e ↦ let k = rw e at h in ((λ d. absurd (cc (d, e))), All-of_select p P xs k)
]

is_time-eq : (o : Option ℕ) (u t : ℕ) → is_time o u ≡ true → o ≡ some t → t ≡ u
is_time-eq none u t h e = absurd (cc)
is_time-eq (some s) u t h e = ground arith

&&-split : (a b : Bool) → (a && b) ≡ true → (a ≡ true) × (b ≡ true)
&&-split a b h = ground arith

last_rows-IsLast : (kind : String) (xs : List Sample) → All (IsLast xs kind) (last_rows kind xs)
unfolding last_rows
last_rows-IsLast kind xs =
    All-map
      (λ l e.
        let parts = &&-split _ _ e in
        record {
          is_kind = (eq_iff l.kind kind).0 parts.0;
          latest =
              All-of_select (same_item l) (λ y. y.taken_at ≤ l.taken_at) xs
                (max_time-bound (select (same_item l) xs) l.taken_at
                  (λ t d. let same = is_time-eq _ l.taken_at t parts.1 d in omega arith));
        })
      (select _ xs) (select-All _ xs)

first_rows-IsFirst :
    (kind : String) (since : ℕ) (xs : List Sample)
    → All (IsFirst xs kind since) (first_rows kind since xs)
unfolding first_rows
first_rows-IsFirst kind since xs =
    All-map
      (λ f e.
        let parts = &&-split _ _ e in
        let times = &&-split _ _ parts.1 in
        let window = λ (y : Sample). same_item f y && leb since y.taken_at in
        let bound =
          min_time-bound (select window xs) f.taken_at
            (λ t d. let same = is_time-eq _ f.taken_at t times.0 d in omega arith) in
        record {
          is_kind = (eq_iff f.kind kind).0 parts.0;
          recent = leb→le since f.taken_at times.1;
          earliest =
              All-map (λ y w a b. w (rw (a, le→leb since y.taken_at b))) xs
                (All-of_select window (λ y. f.taken_at ≤ y.taken_at) xs bound);
        })
      (select _ xs) (select-All _ xs)

select-Memᴰ : {A : Type 0} (p : A → Bool) (xs : List A) → All (λ x. Memᴰ x xs) (select p xs)
select-Memᴰ p [] = tt
select-Memᴰ p (x ∷ xs) =
    let rest = All-map (λ y m. Memᴰ.tail m) (select p xs) (select-Memᴰ p xs) in
    elim (Bool-cases (p x)) [ inl e ↦ rw e (Memᴰ.head refl, rest) | inr e ↦ rw e rest ]

-- `g` is the growth of an item of this kind: from an earliest stored sample since `since` to a
-- latest one.
pub record IsGrowth (xs : List Sample) (kind : String) (since : ℕ) (g : GrowthRow) : Type 0 where
  pub last : Sample
  pub first : Sample
  pub last_stored : Memᴰ last xs
  pub first_stored : Memᴰ first xs
  pub is_last : IsLast xs kind last
  pub is_first : IsFirst xs kind since first
  pub same_key : last.key ≡ first.key
  pub row : g ≡ growth_row last first

module _ (xs : List Sample) (kind : String) (since : ℕ) where
  join_one-IsGrowth :
      (l : Sample) (fs : List Sample)
      → IsLast xs kind l × Memᴰ l xs
      → All (λ f. IsFirst xs kind since f × Memᴰ f xs) fs
      → All (IsGrowth xs kind since) (join_one l fs)
  unfolding join_one
  join_one-IsGrowth l [] hl hf = tt
  join_one-IsGrowth l (f ∷ fs) hl hf =
      let rest = join_one-IsGrowth l fs hl hf.1 in
      elim (Bool-cases (str_eq l.key f.key)) [
        | inl e ↦ rw e (
          record {
            last = l;
            first = f;
            last_stored = hl.1;
            first_stored = hf.0.1;
            is_last = hl.0;
            is_first = hf.0.0;
            same_key = (eq_iff l.key f.key).0 e;
            row = refl;
          },
          rest,
        )
        | inr e ↦ rw e rest
      ]

  join_rows-IsGrowth :
      (ls fs : List Sample)
      → All (λ l. IsLast xs kind l × Memᴰ l xs) ls
      → All (λ f. IsFirst xs kind since f × Memᴰ f xs) fs
      → All (IsGrowth xs kind since) (join_rows ls fs)
  unfolding join_rows
  join_rows-IsGrowth [] fs hl hf = tt
  join_rows-IsGrowth (l ∷ ls) fs hl hf =
      All-append (IsGrowth xs kind since) (join_one l fs) (join_rows ls fs)
        (join_one-IsGrowth l fs hl.0 hf) (join_rows-IsGrowth ls fs hl.1 hf)

-- Every row of GrowthSince is the growth of an item of the kind from an earliest stored sample
-- since the given time to a latest one; the rows come by falling growth, at most as many as the
-- limit.
pub growth_since-IsGrowth :
    (sorter : Sorter) (kind : String) (since limit : ℕ) (db : Db)
    → All (IsGrowth db.samples kind since) (growth_since sorter kind since limit db)
      × IsSortedBy by_delta (growth_since sorter kind since limit db)
      × (length (growth_since sorter kind since limit db) ≤ limit)
unfolding growth_since
growth_since-IsGrowth sorter kind since limit db =
    let xs = db.samples in
    let ls = last_rows kind xs in
    let fs = first_rows kind since xs in
    let all =
      join_rows-IsGrowth xs kind since ls fs
        (All-both (IsLast xs kind) (λ l. Memᴰ l xs) ls (last_rows-IsLast kind xs)
          (unfold last_rows in select-Memᴰ _ xs))
        (All-both (IsFirst xs kind since) (λ f. Memᴰ f xs) fs (first_rows-IsFirst kind since xs)
          (unfold first_rows in select-Memᴰ _ xs)) in
    let order = by_desc-IsWeakOrder (λ (g : GrowthRow). g.delta_bytes) in
    let rows = join_rows ls fs in
    (
      All-take (IsGrowth xs kind since) limit _
          (All-perm (IsGrowth xs kind since) (Permᴰ.symm (sorter.sort-perm by_delta rows)) all),
      take-IsSortedBy by_delta limit _ (sorter.sort-IsSortedBy by_delta rows order),
      length-take-le limit _,
    )
