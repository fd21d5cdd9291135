-- ===== src/Store.antt =====
-- internal/store/sqlite.go: the two tables, in the order of their rows, and the methods of Store.
-- A query is read as what its SQL says of the tables; whether a call of the database succeeds is
-- an argument. Times are nanoseconds, and 0 is Go's zero time. The text that the driver stores
-- for a time is ordered as the times are.
pub mod Scans
pub mod Findings
pub mod Growth
pub mod Anomalies
pub mod Latest
use server_space_manager_ai.Prelude.{
  ℕ, ◌+◌, String, Bool, true, false, not, ◌&&◌, Option, none, some, List, [], ◌∷◌, ◌++◌, ltb, leb,
  ◌==◌, length, select, take, is_empty, if◌then◌else◌,
}
use server_space_manager_ai.Prelude.Int.{ℤ}
use server_space_manager_ai.Prelude.Sorting.{Sorter}

pub record Sample : Type 0 where
  pub kind : String
  pub key : String
  pub label : String
  pub bytes : ℤ
  pub extra : String
  pub taken_at : ℕ

pub record Finding : Type 0 where
  pub kind : String
  pub key : String
  pub severity : String
  pub reason : String
  pub source : String
  pub created_at : ℕ

-- the tables
pub record Db : Type 0 where
  pub samples : List Sample
  pub findings : List Finding

abbrev pub empty_db : Db
empty_db = record { samples = []; findings = [] }

-- Which calls of a transaction succeed.
pub record Outcome (A : Type 0) : Type 0 where
  pub begins : Bool
  pub prepares : Bool
  pub executes : A → Bool
  pub commits : Bool

module _ {A : Type 0} where
  -- `for … { stmt.Exec(…) }` inside the transaction: `none` after a rollback
  unfoldable pub exec_all : (A → Bool) → List A → List A → Option (List A)
  exec_all executes [] table = some table
  exec_all executes (x ∷ xs) table =
      let rest = exec_all executes xs (table ++ x ∷ []) in if executes x then rest else none

  -- Begin, Prepare, Exec for each row, Commit: whether it succeeded, and the table
  unfoldable pub transact : Outcome A → List A → List A → Bool × List A
  unfolding exec_all
  transact o rows table =
      if o.begins && o.prepares
      then elim (exec_all o.executes rows table) [
        | none ↦ (false, table)
        | some written ↦ if o.commits then (true, written) else (false, table)
      ]
      else (false, table)

-- Insert
unfoldable pub insert : Outcome Sample → List Sample → Db → Bool × Db
unfolding transact
insert o samples db =
    let (done, table) = transact o samples db.samples in (done, record db { samples = table })

-- InsertFindings
unfoldable pub insert_findings : Outcome Finding → List Finding → Db → Bool × Db
unfolding transact
insert_findings o fs db =
    if is_empty fs
    then (true, db)
    else let (done, table) = transact o fs db.findings in (done, record db { findings = table })

-- RecentFindings(since, limit)
unfoldable pub recent_findings : Sorter → ℕ → ℕ → Db → List Finding
recent_findings sorter since limit db = take limit (
    sorter.sort (λ a b. ltb b.created_at a.created_at)
      (select (λ f. leb since f.created_at) db.findings))

-- `SELECT MAX(taken_at)`, 0 for no rows
unfoldable pub newest : List Sample → ℕ
newest [] = 0
newest (x ∷ xs) = let n = newest xs in if ltb n x.taken_at then x.taken_at else n

-- the loop over the rows of LatestScan, which keeps the latest time
unfoldable pub latest_of : ℕ → List Sample → ℕ
latest_of latest [] = latest
latest_of latest (x ∷ xs) = latest_of (if ltb latest x.taken_at then x.taken_at else latest) xs

-- LatestScan
unfoldable pub latest_scan : Db → List Sample × ℕ
unfolding newest latest_of
latest_scan db =
    let rows = select (λ x. x.taken_at == newest db.samples) db.samples in (rows, latest_of 0 rows)

-- Prune(olderThan), where the two deletes succeed or not: the number of rows deleted if both do
unfoldable pub prune : Bool → Bool → ℕ → Db → Option ℕ × Db
prune first second older_than db =
    let samples = select (λ x. not (ltb x.taken_at older_than)) db.samples in
    let findings = select (λ f. not (ltb f.created_at older_than)) db.findings in
    let removed_samples = select (λ x. ltb x.taken_at older_than) db.samples in
    let removed_findings = select (λ f. ltb f.created_at older_than) db.findings in
    if first
    then if second
      then (
        some (length removed_samples + length removed_findings),
        record { samples = samples; findings = findings },
      )
      else (none, record db { samples = samples })
    else (none, db)
