-- ===== src/Store/Growth/Deltas.antt =====
-- The map from the keys of GrowthSince's rows to their growth, which buildScanReport of
-- cmd/ssm/main.go and RunDigest of internal/aireview/aireview.go both build.
use server_space_manager_ai.Prelude.{Option, none, some, List, [], ◌∷◌}
use server_space_manager_ai.Prelude.Int.{ℤ, pos}
use server_space_manager_ai.Prelude.Dict.{Dict, put}
use server_space_manager_ai.Store.Growth.{GrowthRow}

-- `for … { deltas[r.Key] = r.DeltaBytes }`
unfoldable pub deltas_of : List GrowthRow → Dict ℤ → Dict ℤ
unfolding put
deltas_of [] deltas = deltas
deltas_of (r ∷ rs) deltas = deltas_of rs (put deltas r.key r.delta_bytes)

-- `deltas[key]`, 0 for a missing key
abbrev pub delta_at : Option ℤ → ℤ
delta_at none = pos 0
delta_at (some d) = d
