-- ===== src/Api/Dashboard.antt =====
-- internal/api/server.go: what /api/summary and /api/findings answer. The query's parameters, the
-- JSON in `Extra` and strconv.Atoi are arguments.
pub mod Feed
pub mod Tops
use server_space_manager_ai.Prelude.{
  ℕ, ◌+◌, ◌-◌, ◌*◌, String, Bool, true, false, not, ◌&&◌, Option, none, some, List, [], ◌∷◌, map,
  ltb, leb, str_eq, length, select, take, if◌then◌else◌,
}
use server_space_manager_ai.Prelude.Int.{ℤ, pos, negsuc, ltb_ℤ, leb_ℤ}
use server_space_manager_ai.Prelude.Floats.{Floats}
use server_space_manager_ai.Prelude.Sorting.{Sorter, by_desc}
use server_space_manager_ai.Store.{Sample, Finding, Db, recent_findings}

pub record FindingItem : Type 0 where
  pub created_at : ℕ
  pub source : String
  pub severity : String
  pub kind : String
  pub key : String
  pub reason : String

abbrev pub item_of : Finding → FindingItem
item_of f = record {
  created_at = f.created_at;
  source = f.source;
  severity = f.severity;
  kind = f.kind;
  key = f.key;
  reason = f.reason;
}

-- `n > 0 && n <= 200`
abbrev pub accepted_limit : Option ℤ → ℕ
accepted_limit none = 50
accepted_limit (some (pos n)) = if ltb 0 n && leb n 200 then n else 50
accepted_limit (some (negsuc n)) = 50

-- the `limit` parameter, where an absent one is empty
unfoldable pub limit_of : (String → Option ℤ) → String → ℕ
limit_of atoi v = if str_eq v "" then 50 else accepted_limit (atoi v)

-- how many rows the query asks for
unfoldable pub pull_of : String → ℕ → ℕ
pull_of source limit =
    if str_eq source "" then limit else if ltb 200 (limit * 4) then 200 else limit * 4

-- `source != "" && f.Source != source`
abbrev pub skipped : String → Finding → Bool
skipped source f = not (str_eq source "") && not (str_eq f.source source)

-- The loop over the rows, with `size` items in `out` so far: it stops at `limit`.
unfoldable pub collect : String → ℕ → ℕ → List Finding → List FindingItem
collect source limit size [] = []
collect source limit size (f ∷ fs) =
    let later = collect source limit size fs in
    let after = collect source limit (size + 1) fs in
    if skipped source f
    then later
    else if leb limit (size + 1)
    then item_of f ∷ []
    else item_of f ∷ after

-- 7 days
abbrev pub window : ℕ
window = 604800000000000

-- A request to /api/findings: the two parameters, and whether the query of the store succeeds.
pub record FindingsCall : Type 0 where
  pub limit : String
  pub source : String
  pub now : ℕ
  pub readable : Bool

-- handleFindings: the items, or none for the status 500; without a store there are no items
unfoldable pub handle_findings :
    Sorter → (String → Option ℤ) → Option Db → FindingsCall → Option (List FindingItem)
unfolding limit_of pull_of collect
handle_findings sorter atoi none call = some []
handle_findings sorter atoi (some db) call =
    let limit = limit_of atoi call.limit in
    let rows = recent_findings sorter (call.now - window) (pull_of call.source limit) db in
    if call.readable then some (collect call.source limit 0 rows) else none

pub record SummaryItem : Type 0 where
  pub key : String
  pub label : String
  pub bytes : ℤ

abbrev pub summary_item : Sample → SummaryItem
summary_item s = record { key = s.key; label = s.label; bytes = s.bytes }

abbrev pub larger : Sample → Sample → Bool
larger = by_desc (λ s. s.bytes)

-- topN
unfoldable pub top_n : Sorter → List Sample → String → ℕ → List SummaryItem
top_n sorter samples kind n =
    let filtered = sorter.sort larger (select (λ s. str_eq s.kind kind) samples) in
    map summary_item (if ltb n (length filtered) then take n filtered else filtered)

pub record FsItem (F : Floats) : Type 0 where
  pub path : String
  pub used : ℤ
  pub total : ℤ
  pub used_pct : F.Float

-- The last scan, which the server holds.
pub record Snapshot : Type 0 where
  pub taken_at : ℕ
  pub sample_count : ℕ
  pub alerts : List String
  pub samples : List Sample

pub record Summary (F : Floats) : Type 0 where
  pub taken_at : ℕ
  pub sample_count : ℕ
  pub alerts : List String
  pub filesystems : List (FsItem F)
  pub top_logs : List SummaryItem
  pub top_volumes : List SummaryItem
  pub top_paths : List SummaryItem
  pub top_images : List SummaryItem
  pub top_files : List SummaryItem

module _ (F : Floats) (total_of : String → ℤ) where
  open F use {Float, of_int, mul, div}

  -- The item of a filesystem; `total_of` is `total` of the JSON in `Extra`, 0 if there is none.
  unfoldable pub fs_item : Sample → FsItem F
  fs_item x =
      let total = total_of x.extra in
      record {
        path = x.label;
        used = x.bytes;
        total = total;
        used_pct =
            if ltb_ℤ (pos 0) total
            then div (mul (of_int (pos 100)) (of_int x.bytes)) (of_int total)
            else of_int (pos 0);
      }

  -- the loop over the samples
  unfoldable pub fs_items : List Sample → List (FsItem F)
  fs_items [] = []
  fs_items (x ∷ xs) =
      let rest = fs_items xs in if not (str_eq x.kind "fs") then rest else fs_item x ∷ rest

  -- handleSummary
  unfoldable pub handle_summary : Sorter → Snapshot → Summary F
  handle_summary sorter snap = record {
    taken_at = snap.taken_at;
    sample_count = snap.sample_count;
    alerts = snap.alerts;
    filesystems = fs_items snap.samples;
    top_logs = top_n sorter snap.samples "container_log" 10;
    top_volumes = top_n sorter snap.samples "volume" 10;
    top_paths = top_n sorter snap.samples "host_path" 10;
    top_images = top_n sorter snap.samples "image" 10;
    top_files = top_n sorter snap.samples "big_file" 15;
  }
