-- ===== src/Tests/Main.antt =====
-- A scan of a small host and its Docker engine, and the restart after it.
use server_space_manager_ai.Prelude.{
  ◌++◌, false, ltb, ◌*◌, ◌^◌, arith, ◌≡◌, refl, true, some, [], ◌∷◌, if◌then◌else◌,
}
use server_space_manager_ai.Prelude.Int.{pos}
use server_space_manager_ai.Prelude.Insertion.{insertion_sorter}
use server_space_manager_ai.Config.{Config, loads, load}
use server_space_manager_ai.Alert.Rules.{default_rules}
use server_space_manager_ai.Main.Bars.{Prints}
use server_space_manager_ai.Main.Jobs.{scan_job, review_job, digest_job, build_scheduler}
use server_space_manager_ai.Main.Jobs.Scheduled.{entry_with, build_scheduler-load}
use server_space_manager_ai.Main.Scan.{Machine, DbCalls, Scanned, run_scan, prune_old, restore}
use server_space_manager_ai.Main.Scan.Restart.{is_found, sent_by, restore-run_scan}
use server_space_manager_ai.Tests.{whole_floats, two_scans}
use server_space_manager_ai.Tests.Alert.{full_texts}
use server_space_manager_ai.Tests.Config.{minimal}
use server_space_manager_ai.Tests.Scanner.{
  sorted_heap, small_host, srv_scanner, flat_files, no_json, full_answers,
}
use server_space_manager_ai.Main.Status.{status_less}
use server_space_manager_ai.Main.Status.Shares.{row_of, status_less_exact, status_less_lost}
use server_space_manager_ai.Store.{empty_db}
use server_space_manager_ai.Main.Daemon.{
  Daemon, Reach, start, next, scans, restarts, first_start, or_no_snapshot,
}
use server_space_manager_ai.Main.Daemon.Sound.{IsSound, Reach-IsSound}
use server_space_manager_ai.Main.Daemon.Retention.{IsSince, run_scan-IsSince}
use server_space_manager_ai.Main.Scan.{cutoff}
use server_space_manager_ai.Main.Report.{Queries, build_scan_report}
use server_space_manager_ai.Main.Report.Listed.{IsReport, build_scan_report-IsReport}

abbrev short_prints : Prints whole_floats
short_prints = record {
  size = λ h. "1 B";
  count = λ n. "2";
  whole = λ x. "50";
  tenth = λ x. "1.0";
  truncate = λ x. x;
  time_text = λ t. "now";
  stamp = λ t. "now";
  decode_fs = λ e. some (pos 100, pos 40);
}

abbrev small_machine : Machine
small_machine = record {
  host = small_host;
  host_scanner = srv_scanner;
  files = flat_files;
  marshal = no_json;
  docker = some full_answers;
}

abbrev all_calls : DbCalls
all_calls = record {
  inserts = record { begins = true; prepares = true; executes = λ s. true; commits = true };
  deletes_samples = true;
  deletes_findings = true;
  inserts_findings = record {
    begins = true;
    prepares = true;
    executes = λ f. true;
    commits = true;
  };
  queries = record { reads_growth = true; reads_anomalies = λ k. true };
}

-- It keeps the rows of one day.
abbrev one_day : Config whole_floats
one_day = record minimal { retention_days = pos 1 }

restore-run_scan_example :
    (w : Scanned) × (run_scan whole_floats full_texts short_prints sorted_heap insertion_sorter
        small_machine one_day
        (default_rules whole_floats)
        all_calls
        3000
        3001
        two_scans
      ≡ some w)
    × (w.snapshot.taken_at ≡ 3000)
    × (w.sent
        ≡ sent_by whole_floats full_texts short_prints sorted_heap insertion_sorter one_day
            (default_rules whole_floats)
            all_calls
            3000
            3001
            w)
    × (restore true w.db ≡ (
        if is_found all_calls w.snapshot.samples
        then some (record w.snapshot { alerts = [] })
        else restore true (prune_old all_calls 3000 (pos 1) two_scans)))
restore-run_scan_example =
    restore-run_scan whole_floats full_texts short_prints sorted_heap insertion_sorter small_machine
      one_day (default_rules whole_floats) all_calls 3000 3001 two_scans ((("srv" ∷ []), refl), tt)
      (omega arith) (omega arith, (omega arith, (omega arith, tt)))

-- The first scan, at 3000.
abbrev first_found :
    (w : Scanned) × (run_scan whole_floats full_texts short_prints sorted_heap insertion_sorter
        small_machine one_day
        (default_rules whole_floats)
        all_calls
        3000
        3001
        empty_db
      ≡ some w)
first_found =
    let found =
      restore-run_scan whole_floats full_texts short_prints sorted_heap insertion_sorter
        small_machine one_day (default_rules whole_floats) all_calls 3000 3001 empty_db
        ((("srv" ∷ []), refl), tt) (omega arith) tt in
    (found.0, found.1)

-- The state after it and a restart.
abbrev first_day : Daemon
first_day = record {
  db = first_found.0.db;
  snap = or_no_snapshot (restore true first_found.0.db);
  now = 3010;
}

first_day-Reach :
    Reach whole_floats full_texts short_prints sorted_heap insertion_sorter one_day
      (default_rules whole_floats)
      first_day
first_day-Reach =
    next
      (next start (
        scans first_start small_machine all_calls 3000 3001 3010 first_found.0 (omega arith)
          (omega arith) first_found.1))
      (restarts (record { db = first_found.0.db; snap = first_found.0.snapshot; now = 3010 }) true)

Reach-IsSound_example : IsSound first_day
Reach-IsSound_example =
    Reach-IsSound whole_floats full_texts short_prints sorted_heap insertion_sorter one_day
      (default_rules whole_floats) first_day first_day-Reach

-- Two small filesystems, the second one fuller.
status_less_exact_example :
    status_less (row_of "/" 1000 4000 (pos 3000)) (row_of "/srv" 900 1000 (pos 100))
    ≡ ltb (900 * 4000) (1000 * 1000)
status_less_exact_example =
    status_less_exact "/" "/srv" 1000 900 4000 1000 (pos 3000) (pos 100) (omega arith) (omega arith)
      (omega arith) (omega arith)

-- One of 8 GiB that is half full, and one of 400 GiB that is nearly empty.
status_less_lost_example :
    status_less
      (row_of "/" (2 ^ 32 * 1) (2 ^ 32 * 2) (pos 4294967296))
      (row_of "/srv" (2 ^ 32 * 1) (2 ^ 32 * 100) (pos 4294967296))
    ≡ false
status_less_lost_example = status_less_lost "/" "/srv" 1 1 2 100 (pos 4294967296) (pos 4294967296)

-- The minimal configuration, loaded with no variable of the environment set.
abbrev loaded : Config whole_floats
loaded = record minimal {
  schedules = record { scan = "@every 1h"; ai_review = ""; digest = "0 8 * * *" };
  retention_days = pos 90;
  http = record { listen = ":8080"; password = "file" };
}

load-minimal : load whole_floats (λ e. true) (λ name. "") (some minimal) ≡ loads loaded
unfolding load
load-minimal = refl

build_scheduler-load_example :
    build_scheduler (λ e. true) true loaded.schedules
    ≡ some (
        ("@every 1h", scan_job)
        ∷ (entry_with true "" review_job ++ entry_with true "0 8 * * *" digest_job))
build_scheduler-load_example =
    build_scheduler-load whole_floats (λ e. true) (λ name. "") minimal loaded true load-minimal

-- The queries for anomalies fail.
abbrev no_anomalies : Queries
no_anomalies = record { reads_growth = true; reads_anomalies = λ k. false }

build_scan_report-IsReport_example :
    IsReport whole_floats short_prints insertion_sorter no_anomalies first_found.0.snapshot
      (some two_scans)
      3001
      (build_scan_report whole_floats short_prints insertion_sorter no_anomalies
        first_found.0.snapshot
        (some two_scans)
        3001)
build_scan_report-IsReport_example =
    build_scan_report-IsReport whole_floats short_prints insertion_sorter no_anomalies
      first_found.0.snapshot (some two_scans) 3001

run_scan-IsSince_example : IsSince (cutoff 3000 (pos 1)) first_found.0.db
run_scan-IsSince_example =
    run_scan-IsSince whole_floats full_texts short_prints sorted_heap insertion_sorter small_machine
      one_day (default_rules whole_floats) all_calls 3000 3001 empty_db first_found.0 refl refl refl
      first_found.1
