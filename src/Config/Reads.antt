-- ===== src/Config/Reads.antt =====
-- config.go: what a list variable reads as.
use internal_developer_platf.Shared.{◌≡◌, ◌≢◌, Bool-cases, inl, inr, List, [], ◌∷◌, All, arith}
use internal_developer_platf.Text.{Text, text_eq}
use internal_developer_platf.Text.Trim.{trim_idem, text_eq_iff}
use internal_developer_platf.Config.{
  trim_space_bytes, is_blank, split_string, split_and_trim, trim_each, keep,
}

-- A text that is not empty and has no blank at either end.
abbrev pub IsClean : Text → Type 0
IsClean s = (s ≢ []) × (trim_space_bytes s ≡ s)

trim_each-IsClean : (parts : List Text) → All IsClean (trim_each parts)
unfolding trim_each keep trim_space_bytes
trim_each-IsClean [] = tt
trim_each-IsClean (part ∷ parts) = elim (Bool-cases (text_eq (trim_space_bytes part) [])) [
  | inl blank ↦ rw blank (trim_each-IsClean parts)
  | inr given ↦ rw given (
    (ground (arith, text_eq_iff (trim_space_bytes part) []), trim_idem is_blank part),
    trim_each-IsClean parts,
  )
]

-- The parts that splitAndTrim returns are clean, whatever the text and the separator.
pub split_and_trim-IsClean : (s sep : Text) → All IsClean (split_and_trim s sep)
unfolding split_and_trim
split_and_trim-IsClean s sep = trim_each-IsClean (split_string s sep)
