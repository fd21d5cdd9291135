-- ===== src/AiReview/Parse/Fences.antt =====
-- What parseFindings makes of fences and spaces around the JSON.
use server_space_manager_ai.Prelude.{
  ℕ, ◌≡◌, ◌≢◌, refl, ap, ap₂, ==_iff, sym, ◌∙◌, Bool, true, false, ◌&&◌, Option, List, [], ◌∷◌,
  ◌++◌, arith, length, length-append, ◌==◌, is_empty, if◌then◌else◌, Bool-cases, inl, inr, All,
}
use mathlib.Core.List.{append_assoc, append-nil}
use server_space_manager_ai.Prelude.Runes.{
  Text, text_eq, is_space, trim_left, trim_right, trim_space,
}
use server_space_manager_ai.AiReview.Parse.{
  Verdict, trim_runes, trim_suffix, fence, json_fence, unfenced, is_array, parse_findings,
}

-- A text of spaces only.
abbrev pub AreSpaces : Text → Type 0
AreSpaces = All (λ c. is_space c ≡ true)

-- A text that begins and ends with no space.
record IsTrimmed (t : Text) : Type 0 where
  first : ℕ
  middle : Text
  last : ℕ
  split : t ≡ first ∷ (middle ++ last ∷ [])
  starts : is_space first ≡ false
  ends : is_space last ≡ false

-- A text, without its last code point, that begins and ends with neither a space nor a backtick.
pub record IsBare (first : ℕ) (last : ℕ) : Type 0 where
  pub starts : is_space first ≡ false
  pub ends : is_space last ≡ false
  pub unticked : first ≢ 96
  pub unclosed : last ≢ 96

trim_left-append : (s t : Text) → AreSpaces s → trim_left (s ++ t) ≡ trim_left t
unfolding trim_left
trim_left-append [] t h = refl
trim_left-append (c ∷ s) t h = rw (h.0) (trim_left-append s t h.1)

trim_right-AreSpaces : (s : Text) → AreSpaces s → trim_right s ≡ []
unfolding trim_right
trim_right-AreSpaces [] h = refl
trim_right-AreSpaces (c ∷ s) h = rw (h.0, trim_right-AreSpaces s h.1) refl

trim_right-append : (t s : Text) → AreSpaces s → trim_right (t ++ s) ≡ trim_right t
unfolding trim_right
trim_right-append [] s h = trim_right-AreSpaces s h
trim_right-append (c ∷ t) s h = rw (trim_right-append t s h) refl

is_empty-append : (m : Text) (l : ℕ) → is_empty (m ++ l ∷ []) ≡ false
is_empty-append [] l = refl
is_empty-append (c ∷ m) l = refl

never : (b : Bool) (s t : Text) → (if b && false then s else t) ≡ t
never true s t = refl
never false s t = refl

trim_right_last : (m : Text) (l : ℕ) → is_space l ≡ false → trim_right (m ++ l ∷ []) ≡ m ++ l ∷ []
unfolding trim_right
trim_right_last [] l h = rw h refl
trim_right_last (c ∷ m) l h =
    rw (trim_right_last m l h, is_empty-append m l) (never (is_space c) [] (c ∷ (m ++ l ∷ [])))

text_eq→≡ : (s t : Text) → text_eq s t ≡ true → s ≡ t
text_eq→≡ [] [] h = refl
text_eq→≡ [] (d ∷ t) h = absurd cc
text_eq→≡ (c ∷ s) [] h = absurd cc
text_eq→≡ (c ∷ s) (d ∷ t) h = elim (Bool-cases (c == d)) [
  | inl e ↦ ap₂ ◌∷◌ ((==_iff c d).0 e) (text_eq→≡ s t (rw e at h))
  | inr e ↦ let bad : false ≡ true = rw e at h in absurd cc
]

last-All : (P : ℕ → Type 0) (m : Text) (l : ℕ) → All P (m ++ l ∷ []) → P l
last-All P [] l a = a.0
last-All P (c ∷ m) l a = last-All P m l a.1

not_fence : (m : Text) (l : ℕ) → l ≢ 96 → text_eq (m ++ l ∷ []) fence ≡ false
not_fence m l h = elim (Bool-cases (text_eq (m ++ l ∷ []) fence)) [
  | inl e ↦
      let same = text_eq→≡ (m ++ l ∷ []) fence e in
      absurd (h (last-All (λ c. c ≡ 96) m l (rw same (refl, (refl, (refl, tt))))))
  | inr e ↦ e
]

longer_fence : (c : ℕ) (t : Text) → text_eq (c ∷ (t ++ fence)) fence ≡ false
longer_fence c t = elim (Bool-cases (text_eq (c ∷ (t ++ fence)) fence)) [
  | inl e ↦
      let same = ap length (text_eq→≡ (c ∷ (t ++ fence)) fence e) in
      absurd (omega (arith, same, length-append t fence))
  | inr e ↦ e
]

trim_suffix-append : (t : Text) → trim_suffix fence (t ++ fence) ≡ t
unfolding trim_suffix
trim_suffix-append [] = refl
trim_suffix-append (c ∷ t) = rw (longer_fence c t, trim_suffix-append t) refl

trim_suffix_last : (m : Text) (l : ℕ) → l ≢ 96 → trim_suffix fence (m ++ l ∷ []) ≡ m ++ l ∷ []
unfolding trim_suffix
trim_suffix_last [] l h = rw (not_fence [] l h) refl
trim_suffix_last (c ∷ m) l h = rw (not_fence (c ∷ m) l h, trim_suffix_last m l h) refl

trim_space-append :
    (s t s' : Text) → AreSpaces s → IsTrimmed t → AreSpaces s' → trim_space (s ++ (t ++ s')) ≡ t
unfolding trim_space trim_left
trim_space-append s t s' h b h' =
    let e : trim_left (t ++ s') ≡ t ++ s' = rw (b.split, b.starts) refl in
    ap trim_right (trim_left-append s (t ++ s') h ∙ e)
    ∙ trim_right-append t s' h'
    ∙ (rw b.split (trim_right_last (b.first ∷ b.middle) b.last b.ends))

space_no_tick : (c : ℕ) → is_space c ≡ true → c ≢ 96
unfolding is_space
space_no_tick c h e = let bad : is_space 96 ≡ true = rw e at h in absurd cc

trim_runes_other : (p : Text) (c : ℕ) (t : Text) → c ≢ 96 → trim_runes (96 ∷ p) (c ∷ t) ≡ c ∷ t
trim_runes_other p c t h = elim (Bool-cases (96 == c)) [
  | inl e ↦ absurd (h (sym ((==_iff 96 c).0 e)))
  | inr e ↦ rw e refl
]

-- A bare text between spaces, before a closing fence: it has no opening one.
trim_runes-AreSpaces :
    (s : Text) (f : ℕ) (t : Text)
    → AreSpaces s
    → f ≢ 96
    → trim_runes fence (s ++ f ∷ t) ≡ s ++ f ∷ t
trim_runes-AreSpaces [] f t h k = trim_runes_other (96 ∷ 96 ∷ []) f t k
trim_runes-AreSpaces (c ∷ s) f t h k =
    trim_runes_other (96 ∷ 96 ∷ []) c (s ++ f ∷ t) (space_no_tick c h.0)

fenced-IsTrimmed : (x : Text) → IsTrimmed (json_fence ++ (x ++ fence))
unfolding is_space
fenced-IsTrimmed x = record {
  first = 96;
  middle = 96 ∷ 96 ∷ 106 ∷ 115 ∷ 111 ∷ 110 ∷ (x ++ 96 ∷ 96 ∷ []);
  last = 96;
  split =
      ap (λ y. 96 ∷ 96 ∷ 96 ∷ 106 ∷ 115 ∷ 111 ∷ 110 ∷ y)
        (sym (append_assoc x (96 ∷ 96 ∷ []) (96 ∷ [])));
  starts = refl;
  ends = refl;
}

steps :
    (raw a b c d e : Text)
    → trim_space raw ≡ a
    → trim_runes json_fence a ≡ b
    → trim_runes fence b ≡ c
    → trim_suffix fence c ≡ d
    → trim_space d ≡ e
    → unfenced raw ≡ e
unfolding unfenced
steps raw a b c d e h i j k l =
    ap (λ t. trim_space (trim_suffix fence (trim_runes fence (trim_runes json_fence t)))) h
    ∙ ap (λ t. trim_space (trim_suffix fence (trim_runes fence t))) i
    ∙ ap (λ t. trim_space (trim_suffix fence t)) j
    ∙ ap trim_space k
    ∙ l

module _ (first : ℕ) (middle : Text) (last : ℕ) (bare : IsBare first last) where
  abbrev pub body : Text
  body = first ∷ (middle ++ last ∷ [])

  body-IsTrimmed : IsTrimmed body
  body-IsTrimmed = record {
    first = first;
    middle = middle;
    last = last;
    split = refl;
    starts = bare.starts;
    ends = bare.ends;
  }

  unfenced_plain : (s s' : Text) → AreSpaces s → AreSpaces s' → unfenced (s ++ (body ++ s')) ≡ body
  unfenced_plain s s' h h' =
      steps (s ++ (body ++ s')) body body body body body
        (trim_space-append s body s' h body-IsTrimmed h')
        (trim_runes_other (96 ∷ 96 ∷ 106 ∷ 115 ∷ 111 ∷ 110 ∷ []) first _ bare.unticked)
        (trim_runes_other (96 ∷ 96 ∷ []) first _ bare.unticked)
        (trim_suffix_last (first ∷ middle) last bare.unclosed)
        (ap trim_space (sym (append-nil body)) ∙ trim_space-append [] body [] tt body-IsTrimmed tt)

  unfenced_fenced :
      (s t t' s' : Text)
      → AreSpaces s
      → AreSpaces t
      → AreSpaces t'
      → AreSpaces s'
      → unfenced (s ++ ((json_fence ++ ((t ++ (body ++ t')) ++ fence)) ++ s')) ≡ body
  unfenced_fenced s t t' s' hs ht ht' hs' =
      let x = t ++ (body ++ t') in
      steps (s ++ ((json_fence ++ (x ++ fence)) ++ s')) (json_fence ++ (x ++ fence)) (x ++ fence)
        (x ++ fence) x body
        (trim_space-append s (json_fence ++ (x ++ fence)) s' hs (fenced-IsTrimmed x) hs') refl
        (rw (append_assoc t (body ++ t') fence) (trim_runes-AreSpaces t first _ ht bare.unticked))
        (trim_suffix-append x) (trim_space-append t body t' ht body-IsTrimmed ht')

  -- For JSON that begins and ends with neither a space nor a backtick: parseFindings decodes just
  -- this text, as an array if it begins with a bracket and else as an object, whether it stands
  -- alone or between a "```json" and a "```", with any spaces around it and around the fences.
  pub parse_findings_fenced :
      (decode_array decode_object : Text → Option (List Verdict)) (s t t' s' : Text)
      → AreSpaces s
      → AreSpaces t
      → AreSpaces t'
      → AreSpaces s'
      → (parse_findings decode_array decode_object
            (s ++ ((json_fence ++ ((t ++ (body ++ t')) ++ fence)) ++ s'))
          ≡ (if first == 91 then decode_array body else decode_object body))
        × (parse_findings decode_array decode_object (s ++ (body ++ s'))
            ≡ (if first == 91 then decode_array body else decode_object body))
  unfolding parse_findings
  parse_findings_fenced decode_array decode_object s t t' s' hs ht ht' hs' =
      let read = λ (u : Text). if is_array u then decode_array u else decode_object u in
      (ap read (unfenced_fenced s t t' s' hs ht ht' hs'), ap read (unfenced_plain s s' hs hs'))
