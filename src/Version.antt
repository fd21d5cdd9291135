-- ===== src/Version.antt =====
-- internal/version/version.go: String. The commit and the date of the build are arguments.
use server_space_manager_ai.Prelude.{String, [], ◌∷◌, join}

abbrev pub version : String
version = "v0.3.0"

-- String
unfoldable pub version_string : String → String → String
version_string commit date = join (version ∷ " (" ∷ commit ∷ ", built " ∷ date ∷ ")" ∷ [])
