-- ===== src/Main/Bars.antt =====
-- cmd/ssm/main.go: usageBar and signedHumanBytes, and what the texts take from Go's library.
use server_space_manager_ai.Prelude.{ℕ, zero, suc, ◌-◌, String, Option, cat, ltb, if◌then◌else◌}
use server_space_manager_ai.Prelude.Int.{ℤ, pos, ltb_ℤ, neg64}
use server_space_manager_ai.Prelude.Floats.{Floats}
use server_space_manager_ai.Prelude.Human.{Human, human_bytes}

-- What the reports take from Go's library.
pub record Prints (F : Floats) : Type 0 where
  pub size : Human → String
  pub count : ℕ → String
  -- `%.0f` and `%.1f`
  pub whole : F.Float → String
  pub tenth : F.Float → String
  -- `int(x)` and `int64(x)`
  pub truncate : F.Float → ℤ
  pub time_text : ℕ → String
  -- `now.UTC().Format(time.RFC3339)`
  pub stamp : ℕ → String
  pub decode_fs : String → Option (ℤ × ℤ)

-- strings.Repeat
abbrev pub repeat : ℕ → String → String
repeat zero s = ""
repeat (suc n) s = cat s (repeat n s)

-- `filled` of usageBar, within its bounds
unfoldable pub clamp_segs : ℤ → ℕ
clamp_segs (ℤ.pos n) = if ltb 10 n then 10 else n
clamp_segs (ℤ.negsuc n) = 0

module _ (F : Floats) (P : Prints F) where
  open F use {Float, of_int, mul, div, lt, le}

  abbrev pub size_text : ℤ → String
  size_text b = P.size (human_bytes b)

  -- signedHumanBytes
  unfoldable pub signed_human_bytes : ℤ → String
  signed_human_bytes b =
      if ltb_ℤ (pos 0) b
      then cat "↑ +" (size_text b)
      else if ltb_ℤ b (pos 0)
      then cat "↓ -" (size_text (neg64 b))
      else "±0 B"

  -- usageBar: the full and the empty segments
  unfoldable pub filled_segs : Float → ℕ
  unfolding clamp_segs
  filled_segs pct = clamp_segs (P.truncate (div (mul pct (of_int (pos 10))) (of_int (pos 100))))

  unfoldable pub usage_bar : Float → String
  unfolding filled_segs
  usage_bar pct = cat (repeat (filled_segs pct) "█") (repeat (10 - filled_segs pct) "░")
