-- ===== src/Tests.antt =====
-- Concrete values, and the theorems applied to them.
mod Api
mod Alert
mod Store
mod AiReview
mod Config
mod Scanner
mod Main
use server_space_manager_ai.Prelude.{ℕ, ◌/◌, String, List, [], ◌∷◌}
use server_space_manager_ai.Prelude.Int.{ℤ, pos, negsuc, ◌*ℤ◌, ltb_ℤ, leb_ℤ}
use server_space_manager_ai.Prelude.Floats.{Floats}
use server_space_manager_ai.Store.{Sample, Finding, Db}

abbrev quotient : ℤ → ℤ → ℤ
quotient (pos a) (pos b) = pos (a / b)
quotient _ _ = pos 0

-- Whole numbers in the place of float64.
abbrev pub whole_floats : Floats
whole_floats = record {
  Float = ℤ;
  of_int = λ a. a;
  mul = λ a b. a *ℤ b;
  div = quotient;
  lt = ltb_ℤ;
  le = leb_ℤ;
}

abbrev pub sample_of : String → String → ℤ → ℕ → Sample
sample_of kind key bytes at = record {
  kind = kind;
  key = key;
  label = key;
  bytes = bytes;
  extra = "";
  taken_at = at;
}

abbrev pub finding_of : String → ℕ → Finding
finding_of source at = record {
  kind = "volume";
  key = "data";
  severity = "warn";
  reason = "grows";
  source = source;
  created_at = at;
}

-- Two scans of a volume that grows, with an image, and two findings.
abbrev pub two_scans : Db
two_scans = record {
  samples =
      sample_of "volume" "data" (pos 1000) 1000
      ∷ sample_of "image" "base" (pos 70) 1000
      ∷ sample_of "volume" "data" (pos 5000) 2000
      ∷ [];
  findings = finding_of "ai_review" 1500 ∷ finding_of "rules" 1600 ∷ [];
}
