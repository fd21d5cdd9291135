-- ===== src/Main/Status.antt =====
-- cmd/ssm/main.go: buildStatusLine.
pub mod Shares
use text.Mathlib.Text.{find?}
use server_space_manager_ai.Prelude.{
  ℕ, zero, suc, ◌+◌, ◌-◌, String, Bool, true, false, not, ◌&&◌, Option, none, some, List, [], ◌∷◌,
  ◌++◌, cat, join, map, ltb, leb, str_eq, length, select, take, is_empty, if◌then◌else◌,
}
use server_space_manager_ai.Prelude.Int.{ℤ, pos, ltb_ℤ, leb_ℤ, add64, sub64, mul64, neg64}
use server_space_manager_ai.Prelude.Dict.{Dict, get, put}
use server_space_manager_ai.Prelude.Floats.{Floats}
use server_space_manager_ai.Prelude.Human.{Human, human_bytes}
use server_space_manager_ai.Prelude.Sorting.{Sorter}
use server_space_manager_ai.Store.{Sample, Db}
use server_space_manager_ai.Store.Growth.{GrowthRow, growth_since}
use server_space_manager_ai.Store.Anomalies.{AnomalyRow, day, baseline_anomalies}
use server_space_manager_ai.Api.Dashboard.{Snapshot, larger}
use server_space_manager_ai.Alert.Rules.{OrphanItem, bigger}
use server_space_manager_ai.Main.Bars.{
  Prints, repeat, clamp_segs, size_text, signed_human_bytes, filled_segs, usage_bar,
}

-- A row of buildStatusLine.
pub record StatusRow : Type 0 where
  pub path : String
  pub used : ℤ
  pub avail : ℤ
  pub total : ℤ

-- its `less`, which multiplies in int64
unfoldable pub status_less : StatusRow → StatusRow → Bool
status_less a b = ltb_ℤ (mul64 b.used a.total) (mul64 a.used b.total)

abbrev status_row : Sample → Option (ℤ × ℤ) → List StatusRow
status_row s none = []
status_row s (some (total, avail)) =
    if ltb_ℤ (pos 0) total
    then record { path = s.label; used = sub64 total avail; avail = avail; total = total } ∷ []
    else []

module _ (F : Floats) (P : Prints F) where
  open F use {Float, of_int, mul, div, lt, le}

  -- the rows of buildStatusLine
  unfoldable pub status_rows : List Sample → List StatusRow
  status_rows [] = []
  status_rows (s ∷ ss) =
      let rest = status_rows ss in
      if not (str_eq s.kind "fs") then rest else status_row s (P.decode_fs s.extra) ++ rest

  abbrev used_pct : StatusRow → Float
  used_pct f = div (mul (of_int (pos 100)) (of_int f.used)) (of_int f.total)

  abbrev status_text : StatusRow → String
  status_text f = join (
      "\n• `"
      ∷ f.path
      ∷ "` "
      ∷ usage_bar F P (used_pct f)
      ∷ " "
      ∷ P.whole (used_pct f)
      ∷ "% — free "
      ∷ size_text F P f.avail
      ∷ [])

  -- buildStatusLine, where a time of 0 is Go's zero time
  unfoldable pub build_status_line : Sorter → Snapshot → String
  unfolding status_less status_rows usage_bar
  build_status_line sorter snap =
      let rows = sorter.sort status_less (status_rows snap.samples) in
      if leb snap.taken_at 0
      then "*Status*\nNo scan completed yet — try /scan."
      else join (
          "*Status* — last scan "
          ∷ P.time_text snap.taken_at
          ∷ "\n"
          ∷ P.count snap.sample_count
          ∷ " samples · "
          ∷ P.count (length snap.alerts)
          ∷ " alerts"
          ∷ (if is_empty rows then [] else "\n" ∷ map status_text rows))
