-- ===== src/Store/Growth.antt =====
-- GrowthSince of internal/store/sqlite.go: its query, part by part.
pub mod Rows
pub mod Deltas
use server_space_manager_ai.Prelude.{
  ℕ, String, Bool, false, ◌&&◌, Option, none, some, List, [], ◌∷◌, ◌++◌, str_eq, ltb, leb, ◌==◌,
  select, take, if◌then◌else◌,
}
use server_space_manager_ai.Prelude.Int.{ℤ, sub64}
use server_space_manager_ai.Prelude.Sorting.{Sorter, by_desc}
use server_space_manager_ai.Store.{Sample, Db}

pub record GrowthRow : Type 0 where
  pub key : String
  pub label : String
  pub bytes : ℤ
  pub delta_bytes : ℤ

-- `SELECT MIN(taken_at)` and `SELECT MAX(taken_at)`: no value for no rows
unfoldable pub min_time : List Sample → Option ℕ
min_time [] = none
min_time (x ∷ xs) = elim (min_time xs) [
  | none ↦ some x.taken_at
  | some t ↦ some (if ltb x.taken_at t then x.taken_at else t)
]

unfoldable pub max_time : List Sample → Option ℕ
max_time [] = none
max_time (x ∷ xs) = elim (max_time xs) [
  | none ↦ some x.taken_at
  | some t ↦ some (if ltb t x.taken_at then x.taken_at else t)
]

-- an equation with a value that may be NULL
abbrev pub is_time : Option ℕ → ℕ → Bool
is_time none u = false
is_time (some t) u = t == u

-- `s2.kind = samples.kind AND s2.key = samples.key`
abbrev pub same_item : Sample → Sample → Bool
same_item x y = str_eq y.kind x.kind && str_eq y.key x.key

-- the rows of `first`
unfoldable pub first_rows : String → ℕ → List Sample → List Sample
unfolding min_time
first_rows kind since xs =
    select
      (λ x.
        str_eq x.kind kind
        && (is_time (min_time (select (λ y. same_item x y && leb since y.taken_at) xs)) x.taken_at
            && leb since x.taken_at))
      xs

-- the rows of `last`
unfoldable pub last_rows : String → List Sample → List Sample
unfolding max_time
last_rows kind xs =
    select (λ x. str_eq x.kind kind && is_time (max_time (select (same_item x) xs)) x.taken_at) xs

abbrev pub growth_row : Sample → Sample → GrowthRow
growth_row l f = record {
  key = l.key;
  label = l.label;
  bytes = l.bytes;
  delta_bytes = sub64 l.bytes f.bytes;
}

-- `last l JOIN first f ON l.key = f.key`
unfoldable pub join_one : Sample → List Sample → List GrowthRow
join_one l [] = []
join_one l (f ∷ fs) =
    let rest = join_one l fs in if str_eq l.key f.key then growth_row l f ∷ rest else rest

unfoldable pub join_rows : List Sample → List Sample → List GrowthRow
unfolding join_one
join_rows [] fs = []
join_rows (l ∷ ls) fs = join_one l fs ++ join_rows ls fs

abbrev pub by_delta : GrowthRow → GrowthRow → Bool
by_delta = by_desc (λ g. g.delta_bytes)

-- GrowthSince(kind, since, limit)
unfoldable pub growth_since : Sorter → String → ℕ → ℕ → Db → List GrowthRow
unfolding first_rows last_rows join_rows
growth_since sorter kind since limit db = take limit (
    sorter.sort by_delta (join_rows (last_rows kind db.samples) (first_rows kind since db.samples)))
