-- ===== src/Provisioner/Brokers.antt =====
-- cmd/consumer/main.go: the brokers that the provisioner reads are those that the API reads.
use internal_developer_platf.Shared.{
  ℕ, ◌≡◌, ◌≢◌, ◌<◌, refl, ap, ◌∙◌, List, [], ◌∷◌, ◌++◌, ◌==◌, All, arith, Bool-cases, inl, inr,
}
use internal_developer_platf.Text.{Text, text_eq, is_space, trim_space}
use internal_developer_platf.Text.Trim.{trim-agrees}
use internal_developer_platf.Config.{
  starts_with, split_from, split_string, is_blank, trim_space_bytes, keep, trim_each,
  split_and_trim, get_slice_env,
}
use internal_developer_platf.Provisioner.{split_at, keep_trimmed, trim_parts, split_brokers}

-- The characters on which unicode.IsSpace and the API's own test of blanks agree.
abbrev pub IsPlain : Text → Type 0
IsPlain = All (λ c. is_space c ≡ is_blank c)

split_at-split_from : (b : ℕ) (part s : Text) → split_at b part s ≡ split_from (b ∷ []) 0 part s
unfolding split_at split_from starts_with
split_at-split_from b part [] = refl
split_at-split_from b part (c ∷ s) = elim (Bool-cases (b == c)) [
  | inl found ↦ rw found (ap (λ rest. part ∷ rest) (split_at-split_from b [] s))
  | inr passed ↦ rw passed (split_at-split_from b (part ++ c ∷ []) s)
]

All-append : (s t : Text) → IsPlain s → IsPlain t → IsPlain (s ++ t)
All-append [] t ps pt = pt
All-append (c ∷ s) t ps pt = (ps.0, All-append s t ps.1 pt)

split_at-IsPlain :
    (b : ℕ) (part s : Text) → IsPlain part → IsPlain s → All IsPlain (split_at b part s)
unfolding split_at
split_at-IsPlain b part [] plain none_left = (plain, tt)
split_at-IsPlain b part (c ∷ s) plain rest = elim (Bool-cases (b == c)) [
  | inl found ↦ rw found (plain, split_at-IsPlain b [] s tt rest.1)
  | inr passed ↦
      rw passed
        (split_at-IsPlain b (part ++ c ∷ []) s (All-append part (c ∷ []) plain (rest.0, tt)) rest.1)
]

-- Of the ASCII characters only the vertical tab and the form feed are blanks to one side alone.
abbrev pub IsOrdinary : Text → Type 0
IsOrdinary = All (λ c. (c < 128) × (c ≢ 11) × (c ≢ 12))

ordinary_blank : (c : ℕ) → c < 128 → c ≢ 11 → c ≢ 12 → is_space c ≡ is_blank c
unfolding is_space is_blank
ordinary_blank c ascii no_tab no_feed = ground (arith, ascii, no_tab, no_feed)

ordinary-IsPlain : (s : Text) → IsOrdinary s → IsPlain s
ordinary-IsPlain [] ordinary = tt
ordinary-IsPlain (c ∷ s) (h, ordinary) = (ordinary_blank c h.0 h.1 h.2, ordinary-IsPlain s ordinary)

trim_parts-trim_each : (parts : List Text) → All IsPlain parts → trim_parts parts ≡ trim_each parts
unfolding trim_parts keep_trimmed trim_each keep trim_space trim_space_bytes
trim_parts-trim_each [] plain = refl
trim_parts-trim_each (part ∷ parts) plain =
    rw (trim-agrees is_space is_blank part plain.0, trim_parts-trim_each parts plain.1)
      (ground arith)

-- Of a list of brokers in ASCII without vertical tabs and form feeds, that is not empty, the
-- provisioner and the API read the same brokers, in the same order.
pub brokers_agree :
    (c : ℕ) (s : Text) (default_value : List Text)
    → IsOrdinary (c ∷ s)
    → split_brokers (c ∷ s) ≡ get_slice_env (c ∷ s) default_value
unfolding split_brokers get_slice_env split_and_trim split_string text_eq
brokers_agree c s default_value ordinary =
    trim_parts-trim_each (split_at b',' [] (c ∷ s))
      (split_at-IsPlain b',' [] (c ∷ s) tt (ordinary-IsPlain (c ∷ s) ordinary))
    ∙ ap trim_each (split_at-split_from b',' [] (c ∷ s))
