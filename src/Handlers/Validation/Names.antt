-- ===== src/Handlers/Validation/Names.antt =====
-- validation.go: the names that toSnakeCase makes of ASCII field names.
use internal_developer_platf.Shared.{
  ℕ, ◌<◌, ◌≡◌, refl, Bool-cases, inl, inr, false, [], ◌∷◌, All, map, arith,
}
use internal_developer_platf.Text.{Text, CaseTables, to_lower, lower_rune}
use internal_developer_platf.Handlers.Validation.{
  is_capital, snake_rest, with_underscores, to_snake_case,
}

-- ASCII characters, none of them a capital.
abbrev pub IsPlain : ℕ → Type 0
IsPlain c = (c < 0x80) × (is_capital c ≡ false)

lower-IsPlain : (tables : CaseTables) (c : ℕ) → c < 0x80 → IsPlain (lower_rune tables c)
unfolding lower_rune
lower-IsPlain tables c small = ground arith

lower_plain : (tables : CaseTables) (c : ℕ) → IsPlain c → lower_rune tables c ≡ c
unfolding lower_rune
lower_plain tables c plain = ground arith

rest-IsPlain :
    (tables : CaseTables) (s : Text)
    → All (λ c. c < 0x80) s
    → All IsPlain (map (lower_rune tables) (snake_rest s))
unfolding snake_rest
rest-IsPlain tables [] small = tt
rest-IsPlain tables (c ∷ s) (small, more) = elim (Bool-cases (is_capital c)) [
  | inl capital ↦ rw capital (
    lower-IsPlain tables b'_' (omega arith),
    (lower-IsPlain tables c small, rest-IsPlain tables s more),
  )
  | inr other ↦ rw other (lower-IsPlain tables c small, rest-IsPlain tables s more)
]

rest_plain : (s : Text) → All IsPlain s → snake_rest s ≡ s
unfolding snake_rest
rest_plain [] plain = refl
rest_plain (c ∷ s) (first, more) = rw (first.1, rest_plain s more) refl

map_plain : (tables : CaseTables) (s : Text) → All IsPlain s → map (lower_rune tables) s ≡ s
map_plain tables [] plain = refl
map_plain tables (c ∷ s) (first, more) =
    rw (lower_plain tables c first, map_plain tables s more) refl

-- toSnakeCase leaves a name that it has made of ASCII characters as it is.
pub to_snake_case_idem :
    (tables : CaseTables) (s : Text)
    → All (λ c. c < 0x80) s
    → to_snake_case tables (to_snake_case tables s) ≡ to_snake_case tables s
unfolding to_snake_case with_underscores to_lower
to_snake_case_idem tables [] small = refl
to_snake_case_idem tables (c ∷ s) (small, more) =
    let plain = rest-IsPlain tables s more in
    rw
      (
        rest_plain (map (lower_rune tables) (snake_rest s)) plain,
        map_plain tables (map (lower_rune tables) (snake_rest s)) plain,
        lower_plain tables (lower_rune tables c) (lower-IsPlain tables c small),
      )
      refl
