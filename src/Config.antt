-- ===== src/Config.antt =====
-- services/api/internal/config/config.go: what NewConfig reads from the environment. A text is the
-- list of its bytes.
pub mod Split
pub mod Reads
pub mod Settings
mod Tests
use internal_developer_platf.Shared.{
  ℕ, zero, suc, ◌-◌, Bool, true, false, ◌&&◌, ◌||◌, Option, none, some, List, [], ◌∷◌, ◌++◌, ◌==◌,
  leb, length, if◌then◌else◌,
}
use internal_developer_platf.Text.{Text, text_eq, trim}

-- The slice s[i:i+len(sep)] is `sep`.
unfoldable pub starts_with : Text → Text → Bool
starts_with [] s = true
starts_with (c ∷ sep) [] = false
starts_with (c ∷ sep) (d ∷ s) = (c == d) && starts_with sep s

-- The loop of splitString, for a separator that is not empty: `skip` bytes of a separator are still
-- to be passed over, and `part` holds s[start:i].
unfoldable pub split_from : Text → ℕ → Text → Text → List Text
split_from sep skip part [] = part ∷ []
split_from sep (suc skip) part (c ∷ s) = split_from sep skip part s
split_from sep zero part (c ∷ s) =
    let found = split_from sep (length sep - 1) [] s in
    let passed = split_from sep 0 (part ++ c ∷ []) s in
    if starts_with sep (c ∷ s) then part ∷ found else passed

-- splitString
unfoldable pub split_string : Text → Text → List Text
split_string s [] = s ∷ []
split_string s (c ∷ sep) = split_from (c ∷ sep) 0 [] s

-- The blanks of trimSpace.
unfoldable pub is_blank : ℕ → Bool
is_blank c = c == b' ' || c == 9 || c == 10 || c == 13

-- trimSpace
unfoldable pub trim_space_bytes : Text → Text
trim_space_bytes s = trim is_blank s

unfoldable pub keep : Text → List Text → List Text
keep trimmed rest = if text_eq trimmed [] then rest else trimmed ∷ rest

unfoldable pub trim_each : List Text → List Text
unfolding keep
trim_each [] = []
trim_each (part ∷ parts) = keep (trim_space_bytes part) (trim_each parts)

-- splitAndTrim
unfoldable pub split_and_trim : Text → Text → List Text
unfolding trim_each
split_and_trim s sep = trim_each (split_string s sep)

-- getEnvOrDefault, where `value` is what os.Getenv returns for the key.
unfoldable pub get_env_or_default : Text → Text → Text
get_env_or_default value default_value = if text_eq value [] then default_value else value

-- getDurationEnv, getIntEnv and getBoolEnv, where `parse` stands for the library's parser of the
-- value's type and `none` for its error.
unfoldable pub get_parsed_env : {A : Type 0} → (Text → Option A) → Text → A → A
get_parsed_env parse value default_value =
    if text_eq value []
    then default_value
    else elim (parse value) [ some parsed ↦ parsed | none ↦ default_value ]

-- getSliceEnv
unfoldable pub get_slice_env : Text → List Text → List Text
get_slice_env value default_value =
    if text_eq value [] then default_value else split_and_trim value (b',' ∷ [])
