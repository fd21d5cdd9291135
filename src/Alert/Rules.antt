-- ===== src/Alert/Rules.antt =====
-- Evaluate of internal/alert/rules.go. What it hands to the notifier, in order, is a list of
-- messages: it ignores the notifier's answers.
-- The parser of the JSON in `Extra` is an argument.
pub mod Rollup
pub mod Sent
use server_space_manager_ai.Prelude.{
  ℕ, ◌+◌, String, Bool, ◌&&◌, ◌||◌, Option, none, some, List, [], ◌∷◌, ◌++◌, cat, join, ltb, str_eq,
  length, take, map, if◌then◌else◌,
}
use server_space_manager_ai.Prelude.Int.{ℤ, pos, leb_ℤ, add64, sub64, mul64}
use server_space_manager_ai.Prelude.Floats.{Floats}
use server_space_manager_ai.Prelude.Human.{Human, human_bytes}
use server_space_manager_ai.Prelude.Sorting.{Sorter, by_desc}
use server_space_manager_ai.Store.{Sample}

pub record Rules (F : Floats) : Type 0 where
  pub fs_warn_pct : F.Float
  pub fs_crit_pct : F.Float
  pub big_item_mb : ℤ
  pub growth_pct : F.Float

-- DefaultRules
unfoldable pub default_rules : (F : Floats) → Rules F
default_rules F = record {
  fs_warn_pct = F.of_int (pos 80);
  fs_crit_pct = F.of_int (pos 90);
  big_item_mb = pos 5000;
  growth_pct = F.of_int (pos 25);
}

-- What Notifier.Send is given.
pub record Message : Type 0 where
  pub key : String
  pub text : String

pub record OrphanItem : Type 0 where
  pub label : String
  pub bytes : ℤ

-- The printing functions of `fmt`, and the JSON parser: total and avail of an `fs` sample.
pub record Texts (F : Floats) : Type 0 where
  pub pct : F.Float → String
  pub size : Human → String
  pub count : ℕ → String
  pub decode_fs : String → Option (ℤ × ℤ)

-- The variables of the loop in Evaluate; `orphan_count` is an int that counts a slice's entries.
pub record Found : Type 0 where
  pub fired : List String
  pub sent : List Message
  pub orphan_count : ℕ
  pub orphan_bytes : ℤ
  pub biggest : List OrphanItem

abbrev pub nothing : Found
nothing = record { fired = []; sent = []; orphan_count = 0; orphan_bytes = pos 0; biggest = [] }

abbrev pub is_zero : ℤ → Bool
is_zero a = leb_ℤ a (pos 0) && leb_ℤ (pos 0) a

abbrev pub is_item : String → Bool
is_item kind = str_eq kind "container_log" || (str_eq kind "volume" || str_eq kind "bind_mount")

abbrev pub bigger : OrphanItem → OrphanItem → Bool
bigger = by_desc (λ o. o.bytes)

module _ (F : Floats) (T : Texts F) where
  open F use {Float, of_int, mul, div, le}

  abbrev percent_of : Option (ℤ × ℤ) → Float
  percent_of none = of_int (pos 0)
  percent_of (some (total, avail)) =
      if is_zero total
      then of_int (pos 0)
      else div (mul (of_int (pos 100)) (of_int (sub64 total avail))) (of_int total)

  -- fsPercent
  unfoldable pub fs_percent : Sample → Float
  fs_percent s = percent_of (T.decode_fs s.extra)

  abbrev pub crit_text : Sample → String
  crit_text s = join ("🚨 *CRITICAL* `" ∷ s.label ∷ "` is " ∷ T.pct (fs_percent s) ∷ "% full" ∷ [])

  abbrev pub warn_text : Sample → String
  warn_text s = join ("⚠\u{fe0f} `" ∷ s.label ∷ "` is " ∷ T.pct (fs_percent s) ∷ "% full" ∷ [])

  abbrev pub big_text : Sample → String
  big_text s =
      join
        ("⚠\u{fe0f} " ∷ s.kind ∷ " `" ∷ s.label ∷ "` reached " ∷ T.size (human_bytes s.bytes) ∷ [])

  -- `_ = n.Send(ctx, key, msg); fired = append(fired, msg)`
  abbrev pub send_and_fire : String → String → Found → Found
  send_and_fire key text a = record a {
    fired = a.fired ++ text ∷ [];
    sent = a.sent ++ record { key = key; text = text } ∷ [];
  }

  -- `case "fs"`
  unfoldable pub eval_fs : Rules F → Sample → Found → Found
  eval_fs r s a =
      if le r.fs_crit_pct (fs_percent s)
      then send_and_fire (cat "fs-crit:" s.key) (crit_text s) a
      else if le r.fs_warn_pct (fs_percent s)
      then send_and_fire (cat "fs-warn:" s.key) (warn_text s) a
      else a

  -- `case "container_log", "volume", "bind_mount"`
  unfoldable pub eval_item : Rules F → Sample → Found → Found
  eval_item r s a =
      if leb_ℤ (mul64 (mul64 r.big_item_mb (pos 1024)) (pos 1024)) s.bytes
      then record a { fired = a.fired ++ big_text s ∷ [] }
      else a

  -- `case "orphan_volume"`
  unfoldable pub eval_orphan : Sample → Found → Found
  eval_orphan s a = record a {
    orphan_count = a.orphan_count + 1;
    orphan_bytes = add64 a.orphan_bytes s.bytes;
    biggest = a.biggest ++ record { label = s.label; bytes = s.bytes } ∷ [];
  }

  -- the `switch`
  unfoldable pub eval_sample : Rules F → Sample → Found → Found
  eval_sample r s a =
      if str_eq s.kind "fs"
      then eval_fs r s a
      else if is_item s.kind
      then eval_item r s a
      else if str_eq s.kind "orphan_volume"
      then eval_orphan s a
      else a

  -- the loop
  unfoldable pub eval_all : Rules F → List Sample → Found → Found
  eval_all r [] a = a
  eval_all r (s ∷ ss) a = eval_all r ss (eval_sample r s a)

  abbrev pub preview_line : OrphanItem → String
  preview_line o = join ("\n• `" ∷ o.label ∷ "` (" ∷ T.size (human_bytes o.bytes) ∷ ")" ∷ [])

  -- the summary of the orphan volumes, with the three biggest by name
  unfoldable pub rollup_text : Sorter → Found → String
  rollup_text sorter a = join (
      "🧹 "
      ∷ T.count a.orphan_count
      ∷ " orphan volumes — "
      ∷ T.size (human_bytes a.orphan_bytes)
      ∷ " total"
      ∷ map preview_line (take 3 (sorter.sort bigger a.biggest)))

  abbrev pub rolled_up : Sorter → Found → List String
  rolled_up sorter a =
      if ltb 0 a.orphan_count then a.fired ++ rollup_text sorter a ∷ [] else a.fired

  -- Evaluate: what is sent, and the list of alerts that is returned
  unfoldable pub evaluate : Sorter → Rules F → List Sample → List Message × List String
  evaluate sorter r samples = let a = eval_all r samples nothing in (a.sent, rolled_up sorter a)
