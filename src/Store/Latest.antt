-- ===== src/Store/Latest.antt =====
-- internal/store/sqlite.go: Latest. Its subquery keeps the rows that `last` of GrowthSince keeps.
use server_space_manager_ai.Prelude.{ℕ, String, List, take}
use server_space_manager_ai.Prelude.Sorting.{Sorter, by_desc}
use server_space_manager_ai.Store.{Sample, Db}
use server_space_manager_ai.Store.Growth.{last_rows}

-- Latest(kind, limit)
unfoldable pub latest : Sorter → String → ℕ → Db → List Sample
unfolding last_rows
latest sorter kind limit db =
    take limit (sorter.sort (by_desc (λ (x : Sample). x.bytes)) (last_rows kind db.samples))
