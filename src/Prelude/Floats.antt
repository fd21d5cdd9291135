-- ===== src/Prelude/Floats.antt =====
-- float64, as far as the program computes with it. Nothing is assumed of the arithmetic; a theorem
-- that needs the order of the values that occur (none of them is NaN) says so.
use mathlib.Core.Bool.{Bool}
use server_space_manager_ai.Prelude.Int.{ℤ}

pub record Floats : Type 1 where
  pub Float : Type 0
  pub of_int : ℤ → Float
  pub mul : Float → Float → Float
  pub div : Float → Float → Float
  pub lt : Float → Float → Bool
  pub le : Float → Float → Bool
