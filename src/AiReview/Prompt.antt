-- ===== src/AiReview/Prompt.antt =====
-- internal/aireview/aireview.go: the prompt of RunReview. The printing of numbers and of quoted texts
-- is an argument.
use server_space_manager_ai.Prelude.{ℕ, String, List, [], ◌∷◌, map, cat, join, if◌then◌else◌}
use server_space_manager_ai.Prelude.Int.{ℤ, pos}
use server_space_manager_ai.Prelude.Floats.{Floats}
use server_space_manager_ai.Prelude.Human.{Human, human}
use server_space_manager_ai.Store.Growth.{GrowthRow}
use server_space_manager_ai.Store.Anomalies.{AnomalyRow}

-- kindRows
pub record Batch : Type 0 where
  pub kind : String
  pub rows : List GrowthRow

pub record ReviewTexts (F : Floats) : Type 0 where
  pub count : ℕ → String
  -- `%q`
  pub quoted : String → String
  pub size : Human → String
  pub tenth : F.Float → String
  pub truncate : F.Float → ℤ

abbrev pub review_system : String
review_system =
    "You are a careful Linux/Docker storage advisor. Output must be valid JSON only — no prose, no code fences."

-- the end of the prompt
abbrev pub review_rules : String
review_rules =
    "Respond with ONLY a JSON array of findings. Each finding must use this shape:\n{\"key\":\"<exact key from above>\",\"kind\":\"<exact kind>\",\"severity\":\"info|warn|crit\",\"reason\":\"<one short sentence>\"}\nRules:\n- Do not invent keys or kinds. Only reference items listed above.\n- Pick at most 10 items. Skip noise; favor sustained growth or anomalies.\n- Items in the \"Anomalies\" section deserve attention even if they aren't top growers overall — they just broke their own pattern.\n- \"crit\" is reserved for things likely to cause an incident within days."

module _ (F : Floats) (T : ReviewTexts F) where
  open F use {of_int, le}

  abbrev size_text : ℤ → String
  size_text b = T.size (human b)

  abbrev row_line : GrowthRow → String
  row_line r = join (
      "- key="
      ∷ T.quoted r.key
      ∷ " label="
      ∷ T.quoted r.label
      ∷ " size="
      ∷ size_text r.bytes
      ∷ " delta="
      ∷ size_text r.delta_bytes
      ∷ "\n"
      ∷ [])

  -- the loop over the batches
  unfoldable pub batches_text : List Batch → String
  batches_text [] = ""
  batches_text (b ∷ bs) =
      join ("## " ∷ b.kind ∷ "\n" ∷ join (map row_line b.rows) ∷ "\n" ∷ batches_text bs ∷ [])

  abbrev anomaly_line : AnomalyRow F → String
  anomaly_line a = join (
      "- kind="
      ∷ a.kind
      ∷ " key="
      ∷ T.quoted a.key
      ∷ " label="
      ∷ T.quoted a.label
      ∷ " size="
      ∷ size_text a.bytes
      ∷ " last24h=+"
      ∷ size_text a.last24h_delta
      ∷ " baseline="
      ∷ size_text (T.truncate a.baseline_daily)
      ∷ "/day ratio="
      ∷ (if le (of_int (pos 999)) a.ratio then "new-growth" else cat (T.tenth a.ratio) "x")
      ∷ "\n"
      ∷ [])

  -- the loop over the anomalies, if there are any
  unfoldable pub review_anomalies : List (AnomalyRow F) → String
  review_anomalies [] = ""
  review_anomalies (a ∷ rest) = join (
      "## Anomalies (last 24h vs own 7-day baseline)\n"
      ∷ join (map anomaly_line (a ∷ rest))
      ∷ "\n"
      ∷ [])

  -- the prompt
  unfoldable pub review_prompt : ℕ → List Batch → List (AnomalyRow F) → String
  unfolding batches_text review_anomalies
  review_prompt lookback_days batches anomalies = join (
      "You are reviewing disk-usage trends. Below are top growers per kind over the lookback window, "
      ∷ "followed by items whose last-24h growth is far above their own historical average.\n"
      ∷ "Lookback: "
      ∷ T.count lookback_days
      ∷ " days\n\n"
      ∷ batches_text batches
      ∷ review_anomalies anomalies
      ∷ review_rules
      ∷ [])
