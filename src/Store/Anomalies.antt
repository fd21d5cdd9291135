-- ===== src/Store/Anomalies.antt =====
-- BaselineAnomalies of internal/store/sqlite.go: its query, the filter and the sort. Where two rows
-- are equally near to a time, SQLite may take either; the model takes the one stored first.
pub mod Order
use server_space_manager_ai.Prelude.{
  contains, ℕ, ◌-◌, ◌*◌, ◌/◌, String, Bool, ◌&&◌, Option, none, some, List, [], ◌∷◌, ◌++◌, str_eq,
  ltb, leb, length, select, take, if◌then◌else◌,
}
use server_space_manager_ai.Prelude.Int.{ℤ, pos, pos_part, sub64, ltb_ℤ}
use server_space_manager_ai.Prelude.Floats.{Floats}
use server_space_manager_ai.Store.{Sample, Db}

pub record AnomalyRow (F : Floats) : Type 0 where
  pub kind : String
  pub key : String
  pub label : String
  pub bytes : ℤ
  pub last24h_delta : ℤ
  pub baseline_daily : F.Float
  pub ratio : F.Float

abbrev pub second : ℕ
second = 1000000000

abbrev pub day : ℕ
day = 24 * 3600 * second

-- `ABS(strftime('%s', a) - strftime('%s', b))`
unfoldable pub distance : ℕ → ℕ → ℕ
distance a b = let s = a / second in let t = b / second in if ltb s t then t - s else s - t

-- the rows of one key, with `rn_latest = 1` and with `rn_l24 = 1` or `rn_base = 1`
unfoldable pub latest_row : List Sample → Option Sample
latest_row [] = none
latest_row (x ∷ xs) = elim (latest_row xs) [
  | none ↦ some x
  | some y ↦ some (if ltb x.taken_at y.taken_at then y else x)
]

unfoldable pub nearest_row : ℕ → List Sample → Option Sample
unfolding distance
nearest_row t [] = none
nearest_row t (x ∷ xs) = elim (nearest_row t xs) [
  | none ↦ some x
  | some y ↦ some (if ltb (distance y.taken_at t) (distance x.taken_at t) then y else x)
]

-- the keys of the rows, each once
abbrev pub keys_of : List Sample → List String
keys_of [] = []
keys_of (x ∷ xs) = let rest = keys_of xs in if contains x.key rest then rest else x.key ∷ rest

module _ (F : Floats) where
  open F use {Float, of_int, div, lt, le}

  -- `MAX(a - b, 0)`
  abbrev at_least_zero : ℤ → ℤ
  at_least_zero a = pos (pos_part a)

  -- a row of the query, with its ratio still to come
  abbrev pub raw_row : String → ℕ → Sample → Sample → Sample → AnomalyRow F
  raw_row kind days l x b =
      let daily = div (of_int (at_least_zero (sub64 x.bytes b.bytes))) (of_int (pos days)) in
      record {
        kind = kind;
        key = l.key;
        label = l.label;
        bytes = l.bytes;
        last24h_delta = sub64 l.bytes x.bytes;
        baseline_daily = daily;
        ratio = of_int (pos 0);
      }

  -- the three joined rows of one key
  unfoldable pub key_row : String → ℕ → ℕ → ℕ → List Sample → String → List (AnomalyRow F)
  unfolding latest_row nearest_row
  key_row kind days base_start last24_start rows key =
      let own = select (λ x. str_eq x.key key) rows in
      elim (latest_row own) [
        | none ↦ []
        | some l ↦ elim (nearest_row last24_start own) [
          | none ↦ []
          | some x ↦ elim (nearest_row base_start own) [
            | none ↦ []
            | some b ↦ raw_row kind days l x b ∷ []
          ]
        ]
      ]

  unfoldable pub key_rows : String → ℕ → ℕ → ℕ → List Sample → List String → List (AnomalyRow F)
  unfolding key_row
  key_rows kind days base_start last24_start rows [] = []
  key_rows kind days base_start last24_start rows (k ∷ ks) =
      key_row kind days base_start last24_start rows k
      ++ key_rows kind days base_start last24_start rows ks

  -- the query
  unfoldable pub query_rows : String → ℕ → ℕ → List Sample → List (AnomalyRow F)
  unfolding key_rows
  query_rows kind days now samples =
      let last24_start = now - day in
      let base_start = last24_start - days * day in
      let rows = select (λ x. str_eq x.kind kind && leb base_start x.taken_at) samples in
      key_rows kind days base_start last24_start rows (keys_of rows)

  -- the ratio, 999 for an item without growth in its baseline
  unfoldable pub with_ratio : AnomalyRow F → AnomalyRow F
  with_ratio r =
      if le r.baseline_daily (of_int (pos 0))
      then record r { ratio = of_int (pos 999) }
      else record r { ratio = div (of_int r.last24h_delta) r.baseline_daily }

  -- the loop over the rows of the query
  unfoldable pub keep_rows : Float → ℤ → List (AnomalyRow F) → List (AnomalyRow F)
  unfolding with_ratio
  keep_rows min_ratio min_delta [] = []
  keep_rows min_ratio min_delta (r ∷ rs) =
      let rest = keep_rows min_ratio min_delta rs in
      if ltb_ℤ r.last24h_delta min_delta
      then rest
      else if lt (with_ratio r).ratio min_ratio
      then rest
      else with_ratio r ∷ rest

  -- `out[j].Ratio > out[j-1].Ratio`: the later row has to move to the front
  abbrev pub exceeds : AnomalyRow F → AnomalyRow F → Bool
  exceeds a b = lt b.ratio a.ratio

  -- the inner loop: `prefix` is `out[:j]` from its end
  unfoldable pub sift : AnomalyRow F → List (AnomalyRow F) → List (AnomalyRow F)
  sift x [] = x ∷ []
  sift x (y ∷ prefix) =
      let moved = y ∷ sift x prefix in if exceeds x y then moved else x ∷ y ∷ prefix

  -- the outer loop: `prefix` is `out[:i]` from its end
  unfoldable pub sort_loop : List (AnomalyRow F) → List (AnomalyRow F) → List (AnomalyRow F)
  unfolding sift
  sort_loop prefix [] = prefix
  sort_loop prefix (x ∷ out) = sort_loop (sift x prefix) out

  -- a slice that was read from its end
  unfoldable pub reverse_onto : List (AnomalyRow F) → List (AnomalyRow F) → List (AnomalyRow F)
  reverse_onto [] out = out
  reverse_onto (x ∷ prefix) out = reverse_onto prefix (x ∷ out)

  -- `if limit > 0 && len(out) > limit { out = out[:limit] }`
  unfoldable pub cut_rows : ℕ → List (AnomalyRow F) → List (AnomalyRow F)
  cut_rows limit out = if ltb 0 limit && ltb limit (length out) then take limit out else out

  -- BaselineAnomalies(kind, baselineDays, minRatio, minDeltaBytes, limit), at the time `now`
  unfoldable pub baseline_anomalies : String → ℕ → Float → ℤ → ℕ → ℕ → Db → List (AnomalyRow F)
  unfolding query_rows keep_rows sort_loop reverse_onto cut_rows
  baseline_anomalies kind days min_ratio min_delta limit now db =
      let kept = keep_rows min_ratio min_delta (query_rows kind days now db.samples) in
      cut_rows limit (reverse_onto (sort_loop [] kept) [])
