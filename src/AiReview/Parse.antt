-- ===== src/AiReview/Parse.antt =====
-- internal/aireview/aireview.go: parseFindings and truncate, on code points. The JSON parser is an
-- argument.
pub mod Fences
use server_space_manager_ai.Prelude.{
  ℕ, suc, ◌-◌, String, Bool, true, false, ◌&&◌, ◌||◌, Option, none, some, List, [], ◌∷◌, ◌++◌,
  length, leb, ltb, ◌==◌, take, is_empty, if◌then◌else◌,
}
use server_space_manager_ai.Prelude.Runes.{Text, text_eq, trim_space}

-- What the model says of an item: Finding of aireview.go.
pub record Verdict : Type 0 where
  pub key : String
  pub kind : String
  pub severity : String
  pub reason : String

-- what follows a prefix, if the text has it
abbrev pub after : Text → Text → Option Text
after [] t = some t
after (p ∷ ps) [] = none
after (p ∷ ps) (c ∷ cs) = let rest = after ps cs in if p == c then rest else none

abbrev pub or_all : Text → Option Text → Text
or_all t none = t
or_all t (some rest) = rest

-- strings.TrimPrefix
abbrev pub trim_runes : Text → Text → Text
trim_runes p t = or_all t (after p t)

-- strings.TrimSuffix
unfoldable pub trim_suffix : Text → Text → Text
trim_suffix p [] = []
trim_suffix p (c ∷ cs) = let rest = trim_suffix p cs in if text_eq (c ∷ cs) p then [] else c ∷ rest

-- "```" and "```json"
abbrev pub fence : Text
fence = 96 ∷ 96 ∷ 96 ∷ []

abbrev pub json_fence : Text
json_fence = 96 ∷ 96 ∷ 96 ∷ 106 ∷ 115 ∷ 111 ∷ 110 ∷ []

-- the text that parseFindings decodes
unfoldable pub unfenced : Text → Text
unfolding trim_space trim_suffix
unfenced raw =
    trim_space (trim_suffix fence (trim_runes fence (trim_runes json_fence (trim_space raw))))

-- `strings.HasPrefix(raw, "[")`
abbrev pub is_array : Text → Bool
is_array [] = false
is_array (c ∷ cs) = c == 91

-- parseFindings, with the decoders of an array and of an object that wraps one
unfoldable pub parse_findings :
    (Text → Option (List Verdict)) → (Text → Option (List Verdict)) → Text → Option (List Verdict)
unfolding unfenced
parse_findings decode_array decode_object raw =
    let text = unfenced raw in if is_array text then decode_array text else decode_object text

-- truncate, on the bytes of a text
unfoldable pub truncate : List ℕ → ℕ → List ℕ
truncate s n = if leb (length s) n then s else take n s ++ 226 ∷ 128 ∷ 166 ∷ []
