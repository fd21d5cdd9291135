-- ===== src/Alert/Rules/Sent.antt =====
-- What Evaluate sends to the notifier: one message for each filesystem that is full enough.
use mathlib.Core.List.{append_assoc, append-nil}
use server_space_manager_ai.Prelude.{
  ◌≡◌, refl, ◌∙◌, Bool, ◌&&◌, ◌||◌, List, [], ◌∷◌, ◌++◌, arith, cat, select, map, str_eq,
  if◌then◌else◌, Bool-cases, inl, inr,
}
use server_space_manager_ai.Prelude.Floats.{Floats}
use server_space_manager_ai.Prelude.Sorting.{Sorter}
use server_space_manager_ai.Store.{Sample}
use server_space_manager_ai.Alert.Rules.{
  Rules, Message, Texts, Found, nothing, fs_percent, crit_text, warn_text, eval_sample, eval_fs,
  eval_item, eval_orphan, eval_all, evaluate,
}

module _ (F : Floats) (T : Texts F) (r : Rules F) where
  open F use {le}

  abbrev pub is_critical : Sample → Bool
  is_critical s = le r.fs_crit_pct (fs_percent F T s)

  -- A filesystem at one of the two thresholds at least.
  abbrev pub is_full : Sample → Bool
  is_full s = str_eq s.kind "fs" && (is_critical s || le r.fs_warn_pct (fs_percent F T s))

  -- Its message; the critical one goes first.
  abbrev pub message_of : Sample → Message
  message_of s =
      if is_critical s
      then record { key = cat "fs-crit:" s.key; text = crit_text F T s }
      else record { key = cat "fs-warn:" s.key; text = warn_text F T s }

  eval_sample-sent :
      (s : Sample) (a : Found)
      → (eval_sample F T r s a).sent ≡ a.sent ++ (if is_full s then message_of s ∷ [] else [])
  unfolding eval_sample eval_fs eval_item eval_orphan
  eval_sample-sent s a = elim (Bool-cases (str_eq s.kind "fs")) [
    | inl h ↦ rw h (ground (arith, append-nil a.sent))
    | inr h ↦ rw h (ground (arith, append-nil a.sent))
  ]

  eval_all-sent :
      (ss : List Sample) (a : Found)
      → (eval_all F T r ss a).sent ≡ a.sent ++ map message_of (select is_full ss)
  unfolding eval_all
  eval_all-sent [] a = rw append-nil
  eval_all-sent (s ∷ ss) a = elim (Bool-cases (is_full s)) [
    | inl h ↦
        let one = rw h at (eval_sample-sent s a) in
        rw h (
          eval_all-sent ss (eval_sample F T r s a)
          ∙ (rw one (append_assoc a.sent (message_of s ∷ []) (map message_of (select is_full ss)))))
    | inr h ↦
        let none_sent = rw h at (eval_sample-sent s a) in
        rw h (eval_all-sent ss (eval_sample F T r s a) ∙ (rw (none_sent, append-nil) refl))
  ]

  -- Evaluate sends exactly one message for each filesystem at the warning or the critical
  -- threshold, in the order of the samples, the critical one where both are reached, and nothing
  -- for other samples.
  pub evaluate-sent :
      (sorter : Sorter) (ss : List Sample)
      → (evaluate F T sorter r ss).0 ≡ map message_of (select is_full ss)
  unfolding evaluate
  evaluate-sent sorter ss = eval_all-sent ss nothing
