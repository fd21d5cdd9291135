-- ===== src/Alert/Rules/Rollup.antt =====
-- The rollup of the orphan volumes counts each of them.
use mathlib.Core.List.{append_assoc, append-nil}
use server_space_manager_ai.Prelude.{
  ◌+◌, ◌≡◌, refl, ap, ◌∙◌, Bool, true, false, String, List, [], ◌∷◌, ◌++◌, arith, length, select,
  take, map, str_eq, eq_iff, lt→ltb, ◌<◌, join, ◌≢◌, Bool-cases, inl, inr,
}
use server_space_manager_ai.Prelude.Int.{ℤ, pos, add64}
use server_space_manager_ai.Prelude.Floats.{Floats}
use server_space_manager_ai.Prelude.Sorting.{Sorter, IsTop, take_sort-IsTop, by_desc-IsWeakOrder}
use server_space_manager_ai.Store.{Sample}
use server_space_manager_ai.Alert.Rules.{
  Rules, OrphanItem, Texts, Found, nothing, eval_sample, eval_fs, eval_item, eval_orphan, eval_all,
  evaluate, rollup_text, bigger, preview_line,
}
use server_space_manager_ai.Prelude.Human.{human_bytes}

abbrev pub is_orphan : Sample → Bool
is_orphan s = str_eq s.kind "orphan_volume"

abbrev pub orphan_item : Sample → OrphanItem
orphan_item s = record { label = s.label; bytes = s.bytes }

-- The orphan volumes of a scan, and the sum of their sizes as int64 adds them up.
abbrev pub orphans : List Sample → List OrphanItem
orphans ss = map orphan_item (select is_orphan ss)

abbrev pub total_from : ℤ → List OrphanItem → ℤ
total_from t [] = t
total_from t (o ∷ os) = total_from (add64 t o.bytes) os

module _ (F : Floats) (T : Texts F) (r : Rules F) where
  -- What one sample does to the rollup, and to the alerts before it.
  eval_sample-orphan :
      (s : Sample) (a : Found) → is_orphan s ≡ true → eval_sample F T r s a ≡ eval_orphan F T s a
  unfolding eval_sample
  eval_sample-orphan s a h = let e = (eq_iff s.kind "orphan_volume").0 h in rw e refl

  eval_sample-other :
      (s : Sample) (a : Found)
      → is_orphan s ≡ false
      → ((eval_sample F T r s a).orphan_count ≡ a.orphan_count)
        × ((eval_sample F T r s a).orphan_bytes ≡ a.orphan_bytes)
        × ((eval_sample F T r s a).biggest ≡ a.biggest)
  unfolding eval_sample eval_fs eval_item
  eval_sample-other s a h = ground arith

  eval_all-orphans :
      (ss : List Sample) (a : Found)
      → let b = eval_all F T r ss a in
        (b.orphan_count ≡ a.orphan_count + length (orphans ss))
        × (b.orphan_bytes ≡ total_from a.orphan_bytes (orphans ss))
        × (b.biggest ≡ a.biggest ++ orphans ss)
  unfolding eval_all eval_orphan
  eval_all-orphans [] a = (omega arith, refl, rw append-nil)
  eval_all-orphans (s ∷ ss) a = elim (Bool-cases (is_orphan s)) [
    | inl h ↦
        let ih = eval_all-orphans ss (eval_orphan F T s a) in
        let e : eval_all F T r (s ∷ ss) a ≡ eval_all F T r ss (eval_orphan F T s a) =
          ap (eval_all F T r ss) (eval_sample-orphan s a h) in
        rw (h, e) (omega (arith, ih.0), ih.1, ih.2 ∙ append_assoc a.biggest _ (orphans ss))
    | inr h ↦
        let k = eval_sample-other s a h in
        let ih = eval_all-orphans ss (eval_sample F T r s a) in
        rw h (
          omega (arith, ih.0, k.0),
          ih.1 ∙ ap (λ t. total_from t (orphans ss)) k.1,
          ih.2 ∙ ap (λ l. l ++ orphans ss) k.2,
        )
  ]

  length-pos : (os : List OrphanItem) → os ≢ [] → 0 < length os
  length-pos [] h = absurd (h refl)
  length-pos (o ∷ os) h = omega arith

  -- The summary that a list of orphan volumes calls for: how many they are, the sum of their sizes
  -- and the first three in the order of `top`.
  abbrev pub summary : List OrphanItem → List OrphanItem → String
  summary os top = join (
      "🧹 "
      ∷ T.count (length os)
      ∷ " orphan volumes — "
      ∷ T.size (human_bytes (total_from (pos 0) os))
      ∷ " total"
      ∷ map (preview_line F T) top)

  -- What Evaluate returns for these orphan volumes after the alerts of its loop.
  abbrev pub IsRolledUp : List String → List OrphanItem → List String → Type 0
  IsRolledUp fired [] alerts = alerts ≡ fired
  IsRolledUp fired (o ∷ os) alerts =
      (top : List OrphanItem) × IsTop bigger 3 (o ∷ os) top
      × (alerts ≡ fired ++ summary (o ∷ os) top ∷ [])

  IsRolledUp-case :
      (fired : List String) (os top : List OrphanItem) (alerts : List String)
      → IsTop bigger 3 os top
      → (os ≡ [] → alerts ≡ fired)
      → (os ≢ [] → alerts ≡ fired ++ summary os top ∷ [])
      → IsRolledUp fired os alerts
  IsRolledUp-case fired [] top alerts t none_case some_case = none_case refl
  IsRolledUp-case fired (o ∷ os) top alerts t none_case some_case = (top, t, some_case (λ e. cc))

  -- Evaluate returns the alerts of its loop and, exactly if the scan has orphan volumes, one more:
  -- the summary of all of them, whatever their sizes, that names the three biggest.
  pub evaluate-summary :
      (sorter : Sorter) (ss : List Sample)
      → IsRolledUp (eval_all F T r ss nothing).fired (orphans ss) (evaluate F T sorter r ss).1
  unfolding evaluate rollup_text
  evaluate-summary sorter ss =
      let found = eval_all-orphans ss nothing in
      let a = eval_all F T r ss nothing in
      let count : a.orphan_count ≡ length (orphans ss) = omega (arith, found.0) in
      IsRolledUp-case a.fired (orphans ss) (take 3 (sorter.sort bigger (orphans ss))) _
        (take_sort-IsTop bigger 3 (orphans ss) sorter (by_desc-IsWeakOrder (λ o. o.bytes)))
        (λ e. ground (arith, found.0, e))
        (λ ne.
          rw (lt→ltb 0 a.orphan_count (rw count (length-pos (orphans ss) ne)))
            (ap (λ t. a.fired ++ t ∷ []) (rw (found.1, found.2, count) refl)))
