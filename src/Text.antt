-- ===== src/Text.antt =====
-- Go's strings as lists of code points (valid UTF-8), and what the program uses of the packages
-- `strings` and `unicode`.
pub mod Trim
use Prim.Native.Char.{code}
use internal_developer_platf.Shared.{
  ℕ, ◌+◌, ◌-◌, String, Bool, true, false, ◌&&◌, ◌||◌, List, [], ◌∷◌, map, length, drop, ltb, leb,
  ◌==◌, if◌then◌else◌,
}

abbrev pub Text : Type 0
Text = List ℕ

-- The code points of a literal.
abbrev pub codes : String → Text
codes String.[] = []
codes (String.◌∷◌ c s) = code c ∷ codes s

unfoldable pub text_eq : Text → Text → Bool
text_eq [] [] = true
text_eq [] (d ∷ t) = false
text_eq (c ∷ s) [] = false
text_eq (c ∷ s) (d ∷ t) = (c == d) && text_eq s t

-- strings.HasSuffix
unfoldable pub ends_with : Text → Text → Bool
ends_with suffix s =
    if ltb (length s) (length suffix)
    then false
    else text_eq (drop (length s - length suffix) s) suffix

-- len(s): the bytes of the UTF-8 encoding.
unfoldable pub rune_len : ℕ → ℕ
rune_len c = if ltb c 0x80 then 1 else if ltb c 0x800 then 2 else if ltb c 0x10000 then 3 else 4

unfoldable pub len : Text → ℕ
unfolding rune_len
len [] = 0
len (c ∷ s) = rune_len c + len s

-- unicode.IsSpace: the characters with the property White_Space.
unfoldable pub is_space : ℕ → Bool
is_space c =
    (leb 9 c && leb c 13)
    || c == 0x20
    || c == 0x85
    || c == 0xA0
    || c == 0x1680
    || (leb 0x2000 c && leb c 0x200A)
    || c == 0x2028
    || c == 0x2029
    || c == 0x202F
    || c == 0x205F
    || c == 0x3000

unfoldable pub trim_left : (ℕ → Bool) → Text → Text
trim_left space [] = []
trim_left space (c ∷ s) = if space c then trim_left space s else c ∷ s

trim_cons : (ℕ → Bool) → ℕ → Text → Text
trim_cons space c [] = if space c then [] else c ∷ []
trim_cons space c (d ∷ s) = c ∷ d ∷ s

unfoldable pub trim_right : (ℕ → Bool) → Text → Text
unfolding trim_cons
trim_right space [] = []
trim_right space (c ∷ s) = trim_cons space c (trim_right space s)

unfoldable pub trim : (ℕ → Bool) → Text → Text
trim space s = trim_right space (trim_left space s)

-- strings.TrimSpace
unfoldable pub trim_space : Text → Text
trim_space s = trim is_space s

-- The letter-case tables of the package unicode for the characters beyond ASCII.
pub record CaseTables : Type 0 where
  pub lower : ℕ → ℕ
  pub upper : ℕ → ℕ

unfoldable pub lower_rune : CaseTables → ℕ → ℕ
lower_rune tables c =
    if ltb c 0x80 then if leb b'A' c && leb c b'Z' then c + 32 else c else tables.lower c

unfoldable pub upper_rune : CaseTables → ℕ → ℕ
upper_rune tables c =
    if ltb c 0x80 then if leb b'a' c && leb c b'z' then c - 32 else c else tables.upper c

-- strings.ToLower, strings.ToUpper
unfoldable pub to_lower : CaseTables → Text → Text
to_lower tables = map (lower_rune tables)

unfoldable pub to_upper : CaseTables → Text → Text
to_upper tables = map (upper_rune tables)
