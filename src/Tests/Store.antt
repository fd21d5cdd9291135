-- ===== src/Tests/Store.antt =====
-- The store's methods, and the printing of sizes, at concrete values.
use server_space_manager_ai.Prelude.{
  ℕ, ◌-◌, ◌≤◌, ◌≡◌, true, false, some, List, [], ◌∷◌, ◌++◌, arith, All, length, if◌then◌else◌,
}
use server_space_manager_ai.Prelude.Int.{pos, negsuc}
use server_space_manager_ai.Prelude.Human.{scaled, human_bytes, human, Formats}
use server_space_manager_ai.Prelude.Human.Units.{IsUnit, human_bytes-IsUnit}
use server_space_manager_ai.Prelude.Sorting.{IsSortedBy, IsTop, by_desc-IsWeakOrder}
use server_space_manager_ai.Prelude.Insertion.{insertion_sorter}
use server_space_manager_ai.Store.{Sample, Finding, Outcome, insert, prune}
use server_space_manager_ai.Store.Scans.{Pruned, rows, succeeds, insert_atomic, prune_removes}
use server_space_manager_ai.Store.Growth.{growth_since, by_delta}
use server_space_manager_ai.Store.Growth.Rows.{IsGrowth, growth_since-IsGrowth}
use server_space_manager_ai.Store.Anomalies.{query_rows, exceeds, baseline_anomalies}
use server_space_manager_ai.Store.Anomalies.Order.{passing, baseline_anomalies-IsTop}
use server_space_manager_ai.Tests.{whole_floats, sample_of, two_scans}

growth_since-IsGrowth_example :
    All
      (IsGrowth two_scans.samples "volume" 500)
      (growth_since insertion_sorter "volume" 500 15 two_scans)
    × IsSortedBy by_delta (growth_since insertion_sorter "volume" 500 15 two_scans)
    × (length (growth_since insertion_sorter "volume" 500 15 two_scans) ≤ 15)
growth_since-IsGrowth_example = growth_since-IsGrowth insertion_sorter "volume" 500 15 two_scans

baseline_anomalies-IsTop_example :
    IsTop
      (exceeds whole_floats)
      10
      (passing whole_floats
        (pos 3)
        (pos 100)
        (query_rows whole_floats "volume" 7 2000 two_scans.samples))
      (baseline_anomalies whole_floats "volume" 7 (pos 3) (pos 100) 10 2000 two_scans)
baseline_anomalies-IsTop_example =
    baseline_anomalies-IsTop whole_floats (by_desc-IsWeakOrder (λ r. r.ratio)) "volume" 7 (pos 3)
      (pos 100) 10 2000 two_scans (omega arith)

abbrev next_scan : List Sample
next_scan = sample_of "volume" "data" (pos 7000) 3000 ∷ []

-- A transaction whose commit fails.
abbrev no_commit : Outcome Sample
no_commit = record { begins = true; prepares = true; executes = λ x. true; commits = false }

insert_atomic_example : insert no_commit next_scan two_scans ≡ (
    if succeeds no_commit next_scan
    then (true, record two_scans { samples = two_scans.samples ++ next_scan })
    else (false, two_scans))
insert_atomic_example = insert_atomic no_commit next_scan two_scans

prune_removes_example :
    let result = prune true true 1550 two_scans in
    (result.0 ≡ some (rows two_scans - rows result.1))
    × Pruned (λ (x : Sample). x.taken_at) 1550 true two_scans.samples result.1.samples
    × Pruned (λ (f : Finding). f.created_at) 1550 true two_scans.findings result.1.findings
    × (prune true true 1550 result.1 ≡ (some 0, result.1))
prune_removes_example = prune_removes true true 1550 two_scans

abbrev no_digits : Formats
no_digits = record { decimal = λ b. ""; tenths = λ b div. "" }

human_bytes-IsUnit_example :
    (div : ℕ) × (exp : ℕ) × IsUnit 3145728 div exp
    × (human_bytes (pos 3145728) ≡ scaled false (pos 3145728) div exp)
    × (human (pos 3145728) ≡ scaled false (pos 3145728) div exp)
    × (human (negsuc (3145728 - 1)) ≡ scaled true (pos 3145728) div exp)
human_bytes-IsUnit_example = human_bytes-IsUnit 3145728 (omega arith) (omega arith)
