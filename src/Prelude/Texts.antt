-- ===== src/Prelude/Texts.antt =====
-- Functions of Go's strings, and sets of strings (a Go map whose values are empty structs).
use Prim.Native.String.{String, slice, len}
use mathlib.Core.Bool.{Bool, true, false}
use mathlib.Core.List.{List, [], ◌∷◌}
use text.Mathlib.Text.{◌==◌, starts_with}
use text.Mathlib.TextEquality.{eq_iff}
use mathlib.Core.Path.{◌≡◌}
use mathlib.Core.Logic.{◌≢◌}
use native.Mathlib.Omega.{arith}
use server_space_manager_ai.Prelude.Tests.{if◌then◌else◌}

-- `_, ok := set[k]`
abbrev pub contains : String → List String → Bool
contains k [] = false
contains k (j ∷ js) = let rest = contains k js in if j == k then true else rest

-- strings.TrimPrefix
abbrev pub trim_prefix : String → String → String
trim_prefix s t = if starts_with s t then slice s (len t) (len s) else s

pub not_empty : (s : String) → s ≢ "" → (s == "") ≡ false
not_empty s h = ground (arith, eq_iff s "", h)
