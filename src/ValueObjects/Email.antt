-- ===== src/ValueObjects/Email.antt =====
-- valueobjects.go: Email and its regular expression,
-- ^[a-zA-Z0-9._%+-]+@[a-zA-Z0-9.-]+\.[a-zA-Z]{2,}$
pub mod Shape
use internal_developer_platf.Shared.{
  ℕ, ◌≤◌, ◌≡◌, refl, sym, ap, ◌∙◌, ◌↔◌, ◌≢◌, Bool, true, false, ◌&&◌, ◌||◌, Bool-cases, inl, inr,
  List, [], ◌∷◌, ◌++◌, ltb, leb, ◌==◌, length, all, Result, ok, err, arith, if◌then◌else◌,
}
use internal_developer_platf.Text.{Text, codes, text_eq, len, trim_space, CaseTables, to_lower}
use internal_developer_platf.Text.Trim.{text_eq_iff}

unfoldable pub is_letter : ℕ → Bool
is_letter c = (leb b'a' c && leb c b'z') || (leb b'A' c && leb c b'Z')

unfoldable pub is_alphanumeric : ℕ → Bool
unfolding is_letter
is_alphanumeric c = is_letter c || (leb b'0' c && leb c b'9')

-- [a-zA-Z0-9._%+-]
unfoldable pub is_local : ℕ → Bool
is_local c = is_alphanumeric c || c == b'.' || c == b'_' || c == b'%' || c == b'+' || c == b'-'

-- [a-zA-Z0-9.-]
unfoldable pub is_domain : ℕ → Bool
is_domain c = is_alphanumeric c || c == b'.' || c == b'-'

-- What is left to match.
abbrev pub Matcher : Type 0
Matcher = Text → Bool

-- $
unfoldable pub at_end : Matcher
at_end [] = true
at_end (c ∷ s) = false

-- One character of a class, then the rest.
unfoldable pub one : (ℕ → Bool) → Matcher → Matcher
one class rest [] = false
one class rest (c ∷ s) = class c && rest s

-- class+, then the rest.
unfoldable pub plus : (ℕ → Bool) → Matcher → Matcher
plus class rest [] = false
plus class rest (c ∷ s) = let more = plus class rest s in class c && (rest s || more)

-- emailRegex.MatchString
unfoldable pub matches_email : Matcher
matches_email = plus is_local (
    one (λ c. c == b'@')
      (plus is_domain (one (λ c. c == b'.') (one is_letter (plus is_letter at_end)))))

-- NewEmail; an Email is its value.
pub new_email : CaseTables → Text → Result Text Text
new_email tables value =
    let normalized = to_lower tables (trim_space value) in
    if text_eq normalized []
    then err (codes "email cannot be empty")
    else if ltb 254 (len normalized)
    then err (codes "email cannot exceed 254 characters")
    else if matches_email normalized
    then ok normalized
    else err (codes "invalid email format")
