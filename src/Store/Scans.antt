-- ===== src/Store/Scans.antt =====
-- Insert, LatestScan and Prune together.
use server_space_manager_ai.Prelude.{
  ℕ, ◌+◌, ◌-◌, ◌≤◌, ◌<◌, ◌≡◌, refl, ap, not, ◌⊎◌, inl, inr, Bool, true, false, ◌&&◌, none, some,
  List, [], ◌∷◌, ◌++◌, arith, All, length, select, select-append, ltb, ltb→lt, ◌==◌, if◌then◌else◌,
  Bool-cases,
}
use mathlib.Core.List.{append_assoc, append-nil}
use server_space_manager_ai.Store.{
  Sample, Finding, Db, Outcome, exec_all, transact, insert, newest, latest_of, latest_scan, prune,
}

module _ {A : Type 0} where
  exec_all_cases :
      (executes : A → Bool) (rows table : List A)
      → (exec_all executes rows table ≡ none)
        ⊎ (exec_all executes rows table ≡ some (table ++ rows))
  unfolding exec_all
  exec_all_cases executes [] table = inr (rw append-nil)
  exec_all_cases executes (x ∷ rows) table = elim (Bool-cases (executes x)) [
    | inl done ↦ rw done (rw append_assoc at (exec_all_cases executes rows (table ++ x ∷ [])))
    | inr failed ↦ rw failed (inl refl)
  ]

  -- A transaction writes every row, in order, or changes nothing and fails.
  pub transact_atomic :
      (o : Outcome A) (rows table : List A)
      → (transact o rows table ≡ (true, table ++ rows)) ⊎ (transact o rows table ≡ (false, table))
  unfolding transact
  transact_atomic o rows table = ground (arith, exec_all_cases o.executes rows table)

-- Whether every call of the database succeeds.
abbrev pub executes_all : Outcome Sample → List Sample → Bool
executes_all o [] = true
executes_all o (x ∷ xs) = let rest = executes_all o xs in if o.executes x then rest else false

abbrev pub succeeds : Outcome Sample → List Sample → Bool
succeeds o samples = o.begins && (o.prepares && (executes_all o samples && o.commits))

exec_all-executes_all :
    (o : Outcome Sample) (rows table : List Sample)
    → exec_all o.executes rows table ≡ (if executes_all o rows then some (table ++ rows) else none)
unfolding exec_all
exec_all-executes_all o [] table = rw append-nil
exec_all-executes_all o (x ∷ rows) table = elim (Bool-cases (o.executes x)) [
  | inl done ↦ rw done (rw append_assoc at (exec_all-executes_all o rows (table ++ x ∷ [])))
  | inr failed ↦ rw failed refl
]

-- Insert writes all the samples, in order, if every call of the database succeeds; if one fails,
-- it reports the failure and leaves both tables as they are.
pub insert_atomic :
    (o : Outcome Sample) (samples : List Sample) (db : Db)
    → insert o samples db ≡ (
        if succeeds o samples
        then (true, record db { samples = db.samples ++ samples })
        else (false, db))
unfolding insert transact
insert_atomic o samples db = ground (arith, exec_all-executes_all o samples db.samples)

newest-append-lt :
    (xs ys : List Sample) (now : ℕ)
    → All (λ x. x.taken_at < now) xs
    → newest ys ≡ now
    → newest (xs ++ ys) ≡ now
unfolding newest
newest-append-lt [] ys now h e = e
newest-append-lt (x ∷ xs) ys now h e = ground (arith, newest-append-lt xs ys now h.1 e)

newest_batch :
    (x : Sample) (xs : List Sample) (now : ℕ)
    → All (λ y. y.taken_at ≡ now) (x ∷ xs)
    → newest (x ∷ xs) ≡ now
unfolding newest
newest_batch x [] now h = ground arith
newest_batch x (y ∷ xs) now h = ground (arith, newest_batch y xs now h.1)

select_older :
    (xs : List Sample) (now : ℕ)
    → All (λ x. x.taken_at < now) xs
    → select (λ x. x.taken_at == now) xs ≡ []
select_older [] now h = refl
select_older (x ∷ xs) now h = ground (arith, select_older xs now h.1)

select_batch :
    (xs : List Sample) (now : ℕ)
    → All (λ x. x.taken_at ≡ now) xs
    → select (λ x. x.taken_at == now) xs ≡ xs
select_batch [] now h = refl
select_batch (x ∷ xs) now h = ground (arith, select_batch xs now h.1)

pub latest_of_batch :
    (latest now : ℕ) (xs : List Sample)
    → All (λ x. x.taken_at ≡ now) xs
    → latest ≡ now
    → latest_of latest xs ≡ now
unfolding latest_of
latest_of_batch latest now [] h e = e
latest_of_batch latest now (x ∷ xs) h e =
    latest_of_batch (if ltb latest x.taken_at then x.taken_at else latest) now xs h.1 (ground arith)

-- After a scan of one sample at least, all with one positive time later than all before it,
-- LatestScan returns the samples of this scan, in order, and its time.
pub latest_scan-insert :
    (db : Db) (x : Sample) (xs : List Sample) (now : ℕ)
    → 0 < now
    → All (λ y. y.taken_at < now) db.samples
    → All (λ y. y.taken_at ≡ now) (x ∷ xs)
    → latest_scan (record db { samples = db.samples ++ x ∷ xs }) ≡ (x ∷ xs, now)
unfolding latest_scan
latest_scan-insert db x xs now p older batch =
    rw
      (
        newest-append-lt db.samples (x ∷ xs) now older (newest_batch x xs now batch),
        select-append (λ y. y.taken_at == now) db.samples (x ∷ xs),
        select_older db.samples now older,
        select_batch (x ∷ xs) now batch,
      )
      (ap (λ t. (x ∷ xs, t))
        (latest_of_batch (if ltb 0 x.taken_at then x.taken_at else 0) now xs batch.1
          (ground arith)))

module _ {A : Type 0} (time : A → ℕ) (t : ℕ) where
  count_split :
      (xs : List A)
      → length (select (λ x. ltb (time x) t) xs) + length (select (λ x. not (ltb (time x) t)) xs)
        ≡ length xs
  count_split [] = refl
  count_split (x ∷ xs) = ground (arith, count_split xs)

  kept_recent : (xs : List A) → All (λ x. t ≤ time x) (select (λ x. not (ltb (time x) t)) xs)
  kept_recent [] = tt
  kept_recent (x ∷ xs) = ground (arith, kept_recent xs)

  keeps_recent :
      (xs : List A) → All (λ x. t ≤ time x) xs → select (λ x. not (ltb (time x) t)) xs ≡ xs
  keeps_recent [] h = refl
  keeps_recent (x ∷ xs) h = ground (arith, keeps_recent xs h.1)

  removes_none : (xs : List A) → All (λ x. t ≤ time x) xs → select (λ x. ltb (time x) t) xs ≡ []
  removes_none [] h = refl
  removes_none (x ∷ xs) h = ground (arith, removes_none xs h.1)

abbrev pub rows : Db → ℕ
rows db = length db.samples + length db.findings

module _ {A : Type 0} (time : A → ℕ) (t : ℕ) where
  -- What is left of a table: the rows from `t` on, in order, and none before it.
  pub data IsPruned : List A → List A → Type 0 where
    done : IsPruned [] []
    keeps : {x : A} {xs ys : List A} → t ≤ time x → IsPruned xs ys → IsPruned (x ∷ xs) (x ∷ ys)
    drops : {x : A} {xs ys : List A} → time x < t → IsPruned xs ys → IsPruned (x ∷ xs) ys

  select-IsPruned : (xs : List A) → IsPruned xs (select (λ x. not (ltb (time x) t)) xs)
  select-IsPruned [] = done
  select-IsPruned (x ∷ xs) = elim (Bool-cases (ltb (time x) t)) [
    | inl h ↦ rw h (drops (ltb→lt (time x) t h) (select-IsPruned xs))
    | inr h ↦ rw h (keeps (ground (arith, h)) (select-IsPruned xs))
  ]

  -- A table after a deletion that succeeds, or one that is not made or fails.
  abbrev pub Pruned : Bool → List A → List A → Type 0
  Pruned true xs ys = IsPruned xs ys
  Pruned false xs ys = ys ≡ xs

-- Prune, whose second deletion is made only if the first succeeds: a deletion that succeeds leaves
-- exactly the rows of its table that are not older than the cutoff, in order, and without it the
-- table stays as it is. The number of rows taken from the two tables is reported if both succeed,
-- and else an error. The same calls once more change nothing, and take no row.
pub prune_removes :
    (first second : Bool) (t : ℕ) (db : Db)
    → let both = first && second in
      let result = prune first second t db in
      (result.0 ≡ (if both then some (rows db - rows result.1) else none))
      × Pruned (λ (x : Sample). x.taken_at) t first db.samples result.1.samples
      × Pruned (λ (f : Finding). f.created_at) t both db.findings result.1.findings
      × (prune first second t result.1 ≡ ((if both then some 0 else none), result.1))
unfolding prune
prune_removes false second t db = (refl, refl, refl, refl)
prune_removes true false t db =
    let time = λ (x : Sample). x.taken_at in
    (
      refl,
      select-IsPruned time t db.samples,
      refl,
      ap (λ (xs : List Sample). (none, record db { samples = xs }))
          (keeps_recent time t _ (kept_recent time t db.samples)),
    )
prune_removes true true t db =
    let of_sample = λ (x : Sample). x.taken_at in
    let of_finding = λ (f : Finding). f.created_at in
    let a = count_split of_sample t db.samples in
    let b = count_split of_finding t db.findings in
    let ra = kept_recent of_sample t db.samples in
    let rb = kept_recent of_finding t db.findings in
    (
      ap some (omega (arith, a, b)),
      select-IsPruned of_sample t db.samples,
      select-IsPruned of_finding t db.findings,
      rw (
        keeps_recent of_sample t _ ra,
        keeps_recent of_finding t _ rb,
        removes_none of_sample t _ ra,
        removes_none of_finding t _ rb,
      ),
    )
