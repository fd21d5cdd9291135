-- ===== src/Main/Daemon.antt =====
-- cmd/ssm/main.go: what the program does to its database and to the server's snapshot while it runs. The
-- scheduler, the triggers and the bot start scans and reviews at any time; each is one step here.
pub mod Rows
pub mod Sound
pub mod Retention
use server_space_manager_ai.Prelude.{ℕ, ◌≤◌, ◌≡◌, Bool, Option, none, some, [], ◌∷◌}
use server_space_manager_ai.Prelude.Floats.{Floats}
use server_space_manager_ai.Prelude.Sorting.{Sorter}
use server_space_manager_ai.Store.{Db, empty_db}
use server_space_manager_ai.Api.Dashboard.{Snapshot}
use server_space_manager_ai.Alert.Rules.{Rules, Texts}
use server_space_manager_ai.AiReview.{Calls, run_review}
use server_space_manager_ai.Config.{Config}
use server_space_manager_ai.Scanner.BigFiles.{HeapPackage}
use server_space_manager_ai.Main.Bars.{Prints}
use server_space_manager_ai.Main.Scan.{Machine, DbCalls, Scanned, run_scan, restore}

-- The database, the server's snapshot, and the time of the last step.
pub record Daemon : Type 0 where
  pub db : Db
  pub snap : Snapshot
  pub now : ℕ

-- the snapshot of a new Server
abbrev pub no_snapshot : Snapshot
no_snapshot = record { taken_at = 0; sample_count = 0; alerts = []; samples = [] }

-- main sets the snapshot that it restores, if there is one
abbrev pub or_no_snapshot : Option Snapshot → Snapshot
or_no_snapshot none = no_snapshot
or_no_snapshot (some snap) = snap

-- the first start, with an empty database
abbrev pub first_start : Daemon
first_start = record { db = empty_db; snap = no_snapshot; now = 0 }

module _ (F : Floats) (T : Texts F) (P : Prints F) (heap : HeapPackage) (sorter : Sorter) where
  -- One job that ends at `end`, or a restart. A scan stamps its rows with the time `t` it starts at, and
  -- a review with the time its calls give.
  pub data Step (cfg : Config F) (rules : Rules F) : Daemon → Daemon → Type 0 where
    scans :
        (d : Daemon) (m : Machine) (calls : DbCalls) (t report_at end : ℕ) (w : Scanned)
        → d.now ≤ end
        → t ≤ end
        → run_scan F T P heap sorter m cfg rules calls t report_at d.db ≡ some w
        → Step cfg rules d (record { db = w.db; snap = w.snapshot; now = end })
    reviews :
        (d : Daemon) (calls : Calls F) (end : ℕ)
        → d.now ≤ end
        → calls.ended ≤ end
        → Step cfg rules d
            (record { db = (run_review F sorter calls d.db).db; snap = d.snap; now = end })
    restarts :
        (d : Daemon) (readable : Bool)
        → Step cfg rules d
            (record { db = d.db; snap = or_no_snapshot (restore readable d.db); now = d.now })

  pub data Reach (cfg : Config F) (rules : Rules F) : Daemon → Type 0 where
    start : Reach cfg rules first_start
    next : {d e : Daemon} → Reach cfg rules d → Step cfg rules d e → Reach cfg rules e
