-- ===== src/Api/Prompt.antt =====
-- internal/api/server.go: buildPrompt. Which queries of the store succeed and the printing of numbers
-- and times are arguments.
use server_space_manager_ai.Prelude.{
  ℕ, ◌-◌, ◌*◌, String, Bool, true, false, Option, none, some, List, [], ◌∷◌, cat, join, map, str_eq,
  if◌then◌else◌,
}
use server_space_manager_ai.Prelude.Int.{ℤ, pos}
use server_space_manager_ai.Prelude.Floats.{Floats}
use server_space_manager_ai.Prelude.Human.{Human, human_bytes}
use server_space_manager_ai.Prelude.Sorting.{Sorter}
use server_space_manager_ai.Store.{Finding, Db, recent_findings}
use server_space_manager_ai.Store.Growth.{GrowthRow, growth_since}
use server_space_manager_ai.Store.Anomalies.{AnomalyRow, day, baseline_anomalies}
use server_space_manager_ai.Api.Dashboard.{Snapshot, SummaryItem, top_n}

-- What the prompt takes from Go's library.
pub record PromptTexts (F : Floats) : Type 0 where
  pub size : Human → String
  pub tenth : F.Float → String
  pub truncate : F.Float → ℤ
  -- RFC 3339, and "2006-01-02 15:04"
  pub stamp : ℕ → String
  pub minute : ℕ → String

-- Which of its queries succeed: GrowthSince and BaselineAnomalies for a kind, and RecentFindings.
pub record PromptQueries : Type 0 where
  pub reads_growth : String → Bool
  pub reads_anomalies : String → Bool
  pub reads_findings : Bool

-- `if err != nil || len(rows) == 0 { continue }`: a query that fails is like one without rows
abbrev pub read_rows : {A : Type 0} → Bool → List A → List A
read_rows true rows = rows
read_rows false rows = []

module _ (F : Floats) (P : PromptTexts F) where
  open F use {of_int, le}

  abbrev size_text : ℤ → String
  size_text b = P.size (human_bytes b)

  abbrev item_line : SummaryItem → String
  item_line it = join ("- " ∷ it.label ∷ " — " ∷ size_text it.bytes ∷ "\n" ∷ [])

  -- a heading and its lines, or nothing without lines
  abbrev titled : String → List String → String
  titled kind [] = ""
  titled kind (l ∷ ls) = join ("\n### " ∷ kind ∷ "\n" ∷ l ∷ ls)

  -- the loop over the kinds, with the ten largest items of each
  unfoldable pub current_items : Sorter → Snapshot → List String → String
  unfolding top_n
  current_items sorter snap [] = ""
  current_items sorter snap (k ∷ ks) =
      cat (titled k (map item_line (top_n sorter snap.samples k 10))) (current_items sorter snap ks)

  abbrev alerts_text : List String → String
  alerts_text [] = ""
  alerts_text (a ∷ rest) =
      cat "\n## Active alerts (this scan)\n"
        (join (map (λ x. join ("- " ∷ x ∷ "\n" ∷ [])) (a ∷ rest)))

  abbrev growth_line : GrowthRow → String
  growth_line r = join (
      "- " ∷ r.label ∷ " — now " ∷ size_text r.bytes ∷ " (+" ∷ size_text r.delta_bytes ∷ ")\n" ∷ [])

  -- the loop over the kinds for the growth since a time
  unfoldable pub growth_text : Sorter → PromptQueries → ℕ → Db → List String → String
  growth_text sorter q since db [] = ""
  growth_text sorter q since db (k ∷ ks) =
      let rows = read_rows (q.reads_growth k) (growth_since sorter k since 5 db) in
      cat (titled k (map growth_line rows)) (growth_text sorter q since db ks)

  abbrev anomaly_line : AnomalyRow F → String
  anomaly_line r = join (
      "- "
      ∷ r.label
      ∷ " — +"
      ∷ size_text r.last24h_delta
      ∷ " in 24h (baseline "
      ∷ size_text (P.truncate r.baseline_daily)
      ∷ "/day, "
      ∷ (if le (of_int (pos 999)) r.ratio then "new-growth" else cat (P.tenth r.ratio) "x")
      ∷ ")\n"
      ∷ [])

  -- the loop over the kinds for the anomalies
  unfoldable pub anomalies_text : PromptQueries → ℕ → Db → List String → String
  anomalies_text q now db [] = ""
  anomalies_text q now db (k ∷ ks) =
      let found = baseline_anomalies F k 7 (of_int (pos 3)) (pos 52428800) 5 now db in
      cat (titled k (map anomaly_line (read_rows (q.reads_anomalies k) found)))
        (anomalies_text q now db ks)

  abbrev finding_line : Finding → String
  finding_line f = join (
      "- ["
      ∷ P.minute f.created_at
      ∷ "] "
      ∷ f.source
      ∷ "/"
      ∷ f.severity
      ∷ " "
      ∷ f.kind
      ∷ "/"
      ∷ f.key
      ∷ " — "
      ∷ f.reason
      ∷ "\n"
      ∷ [])

  abbrev decisions_text : List Finding → String
  decisions_text [] = ""
  decisions_text (f ∷ fs) =
      cat "\n## Recent decisions (last 7 days)\n" (join (map finding_line (f ∷ fs)))

  -- `if !any { … }`: `any` is set exactly if a text has been written
  abbrev or_text : String → String → String
  or_text s other = if str_eq s "" then other else s

  -- what the store adds to the prompt, if there is one
  unfoldable pub history_text : Sorter → PromptQueries → Option Db → ℕ → String
  unfolding growth_text anomalies_text
  history_text sorter q none now = ""
  history_text sorter q (some db) now =
      let kinds = "container_log" ∷ "volume" ∷ "host_path" ∷ "bind_mount" ∷ "image" ∷ [] in
      join (
        "\n## 7-day growth (top growers per kind)\n"
        ∷ or_text (growth_text sorter q (now - 7 * day) db kinds)
            "(no growth history yet — first scans still building baseline)\n"
        ∷ "\n## Anomalies (last 24h vs 7-day baseline)\n"
        ∷ or_text (anomalies_text q now db kinds) "(none detected)\n"
        ∷ decisions_text (read_rows q.reads_findings (recent_findings sorter (now - 7 * day) 30 db))
        ∷ [])

  -- buildPrompt
  unfoldable pub build_prompt : Sorter → PromptQueries → Snapshot → Option Db → ℕ → String → String
  unfolding current_items history_text
  build_prompt sorter q snap store now question =
      let kinds =
        "fs" ∷ "container_log" ∷ "volume" ∷ "orphan_volume" ∷ "image" ∷ "bind_mount" ∷ "host_path"
        ∷ [] in
      join (
        "# Snapshot taken: "
        ∷ P.stamp snap.taken_at
        ∷ "\n\n## Question\n"
        ∷ question
        ∷ "\n\n## Top items by kind (current)\n"
        ∷ current_items sorter snap kinds
        ∷ alerts_text snap.alerts
        ∷ history_text sorter q store now
        ∷ [])
