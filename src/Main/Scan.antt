-- ===== src/Main/Scan.antt =====
-- cmd/ssm/main.go: runScan, and how main restores the last scan at its start. The clock and the
-- success of the calls of the database are arguments; the notifier's answers are ignored, as the
-- source ignores them, and what it is given is a list of messages.
pub mod Restart
use server_space_manager_ai.Prelude.{
  ℕ, ◌-◌, ◌*◌, String, Bool, Option, none, some, List, [], ◌∷◌, ◌++◌, map, cat, length, ltb,
  is_empty, if◌then◌else◌,
}
use server_space_manager_ai.Prelude.Int.{ℤ, pos, negsuc, ltb_ℤ}
use server_space_manager_ai.Prelude.Floats.{Floats}
use server_space_manager_ai.Prelude.Sorting.{Sorter}
use server_space_manager_ai.Store.{
  Sample, Finding, Db, Outcome, insert, insert_findings, prune, latest_scan,
}
use server_space_manager_ai.Store.Anomalies.{day}
use server_space_manager_ai.Api.Dashboard.{Snapshot}
use server_space_manager_ai.Alert.Rules.{Rules, Message, Texts, evaluate}
use server_space_manager_ai.Config.{Config, DockerCfg, scan_reports_enabled}
use server_space_manager_ai.Scanner.BigFiles.{HeapPackage}
use server_space_manager_ai.Scanner.Host.{Host, HostScanner}
use server_space_manager_ai.Scanner.Docker.{Files, Marshal, Answers}
use server_space_manager_ai.Main.Report.{Queries, build_scan_report}
use server_space_manager_ai.Main.Bars.{Prints}
use server_space_manager_ai.Scanner.Host as Host
use server_space_manager_ai.Scanner.Docker as Docker

-- What a scan looks at: the host, and Docker if there is a scanner for it.
pub record Machine : Type 0 where
  pub host : Host
  pub host_scanner : HostScanner
  pub files : Files
  pub marshal : Marshal
  pub docker : Option Answers

-- Which calls of the database succeed.
pub record DbCalls : Type 0 where
  pub inserts : Outcome Sample
  pub deletes_samples : Bool
  pub deletes_findings : Bool
  pub inserts_findings : Outcome Finding
  -- of the report
  pub queries : Queries

-- `now.AddDate(0, 0, -days)`
abbrev pub cutoff : ℕ → ℤ → ℕ
cutoff now (pos days) = now - days * day
cutoff now (negsuc n) = now

unfoldable pub prune_old : DbCalls → ℕ → ℤ → Db → Db
unfolding prune
prune_old calls now days db =
    if ltb_ℤ (pos 0) days
    then (prune calls.deletes_samples calls.deletes_findings (cutoff now days) db).1
    else db

abbrev pub rule_finding : ℕ → String → Finding
rule_finding now msg = record {
  kind = "rule";
  key = "rule";
  severity = "warn";
  reason = msg;
  source = "rules";
  created_at = now;
}

unfoldable pub persist_fired : DbCalls → ℕ → List String → Db → Db
unfolding insert_findings
persist_fired calls now fired db =
    if ltb 0 (length fired)
    then (insert_findings calls.inserts_findings (map (rule_finding now) fired) db).1
    else db

-- What a scan leaves: the database, the server's snapshot, and what was given to the notifier.
pub record Scanned : Type 0 where
  pub db : Db
  pub snapshot : Snapshot
  pub sent : List Message

abbrev pub docker_samples : DockerCfg → Machine → ℕ → Option Answers → List Sample
docker_samples cfg m now none = []
docker_samples cfg m now (some answers) = Docker.scan m.files m.marshal cfg answers now

abbrev pub snapshot_of : ℕ → List Sample → List String → Snapshot
snapshot_of now samples fired = record {
  taken_at = now;
  sample_count = length samples;
  alerts = fired;
  samples = samples;
}

module _ (F : Floats) (T : Texts F) (P : Prints F) (heap : HeapPackage) (sorter : Sorter) where
  abbrev pub report_message : Queries → ℕ → ℕ → Snapshot → Db → Message
  report_message q now report_at snap db = record {
    key = cat "scan:report:" (P.stamp now);
    text = cat "📊 *scan complete* — " (build_scan_report F P sorter q snap (some db) report_at);
  }

  -- runScan from `st.Insert(samples)` on
  unfoldable pub conclude : Config F → Rules F → DbCalls → ℕ → ℕ → List Sample → Db → Scanned
  unfolding insert prune_old persist_fired evaluate build_scan_report scan_reports_enabled
  conclude cfg rules calls now report_at samples db =
      let stored = prune_old calls now cfg.retention_days (insert calls.inserts samples db).1 in
      let (sent, fired) = evaluate F T sorter rules samples in
      let db' = persist_fired calls now fired stored in
      let snap = snapshot_of now samples fired in
      record {
        db = db';
        snapshot = snap;
        sent =
            if scan_reports_enabled cfg.telegram
            then sent ++ report_message calls.queries now report_at snap db' ∷ []
            else sent;
      }

  -- runScan, at `now`, whose report is built at `report_at`: `none` if the host's scan does not end
  unfoldable pub run_scan : Machine → Config F → Rules F → DbCalls → ℕ → ℕ → Db → Option Scanned
  unfolding Host.scan Docker.scan conclude
  run_scan m cfg rules calls now report_at db =
      elim (Host.scan heap sorter m.host m.host_scanner now) [
        | none ↦ none
        | some samples ↦ some (
            conclude cfg rules calls now report_at
              (samples ++ docker_samples cfg.docker m now m.docker) db)
      ]

-- The `switch` on LatestScan at the start of main: the snapshot that is set, if one is. `readable`
-- is whether the query succeeds.
abbrev pub restored_from : List Sample × ℕ → Option Snapshot
restored_from (samples, taken) =
    if is_empty samples then none else some (snapshot_of taken samples [])

unfoldable pub restore : Bool → Db → Option Snapshot
unfolding latest_scan
restore readable db = if readable then restored_from (latest_scan db) else none
