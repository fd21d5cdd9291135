-- ===== src/Store/Findings.antt =====
-- What RecentFindings returns.
use server_space_manager_ai.Prelude.{ℕ, Bool, List, arith, select, ltb, leb}
use server_space_manager_ai.Prelude.Sorting.{Sorter, IsWeakOrder, IsTop, take_sort-IsTop}
use server_space_manager_ai.Store.{Finding, Db, recent_findings}

-- `ORDER BY created_at DESC`
abbrev pub newer : Finding → Finding → Bool
newer a b = ltb b.created_at a.created_at

newer-IsWeakOrder : IsWeakOrder newer
newer-IsWeakOrder = record { asym = λ a b h. ground arith; trans = λ a b c h k. ground arith }

-- The findings that are not older than `since`.
abbrev pub since_findings : ℕ → Db → List Finding
since_findings since db = select (λ f. leb since f.created_at) db.findings

-- RecentFindings returns the newest findings since a time, newest first, as many as the limit, or
-- all of them if there are fewer.
pub recent_findings-IsTop :
    (sorter : Sorter) (since limit : ℕ) (db : Db)
    → IsTop newer limit (since_findings since db) (recent_findings sorter since limit db)
unfolding recent_findings
recent_findings-IsTop sorter since limit db =
    take_sort-IsTop newer limit (since_findings since db) sorter newer-IsWeakOrder
