-- ===== src/Config/Split.antt =====
-- config.go: splitString takes a text apart at every separator and loses nothing else.
use internal_developer_platf.Shared.{
  ℕ, zero, suc, ◌-◌, ◌≡◌, refl, sym, ap, ◌∙◌, Bool, true, false, List, [], ◌∷◌, ◌++◌, append_assoc,
  append-nil, length, Bool-cases, inl, inr, if◌then◌else◌, arith, drop, All, ◌==◌,
}
use internal_developer_platf.Text.{Text}
use internal_developer_platf.Config.{starts_with, split_from, split_string}

-- The parts, with the separator between one and the next.
abbrev pub join : Text → List Text → Text
join sep [] = []
join sep (part ∷ []) = part
join sep (part ∷ next ∷ parts) = part ++ sep ++ join sep (next ∷ parts)

starts_with-drop : (sep s : Text) → starts_with sep s ≡ true → s ≡ sep ++ drop (length sep) s
unfolding starts_with
starts_with-drop [] s h = refl
starts_with-drop (c ∷ sep) [] h = cc
starts_with-drop (c ∷ sep) (d ∷ s) h = ground (arith, starts_with-drop sep s)

-- There is always a first part, so that a part before it is joined to it by the separator.
join-split_from :
    (sep first : Text) (skip : ℕ) (part s : Text)
    → join sep (first ∷ split_from sep skip part s)
      ≡ first ++ sep ++ join sep (split_from sep skip part s)
unfolding split_from
join-split_from sep first skip part [] = refl
join-split_from sep first (suc skip) part (c ∷ s) = join-split_from sep first skip part s
join-split_from sep first zero part (c ∷ s) = elim (Bool-cases (starts_with sep (c ∷ s))) [
  | inl found ↦ rw found refl
  | inr passed ↦ rw passed (join-split_from sep first 0 (part ++ c ∷ []) s)
]

pred_suc : (n : ℕ) → suc n - 1 ≡ n
pred_suc n = omega arith

split_from-joins :
    (b : ℕ) (sep : Text) (skip : ℕ) (part s : Text)
    → join (b ∷ sep) (split_from (b ∷ sep) skip part s) ≡ part ++ drop skip s
unfolding split_from
split_from-joins b sep zero part [] = sym (append-nil part)
split_from-joins b sep (suc skip) part [] = sym (append-nil part)
split_from-joins b sep (suc skip) part (c ∷ s) = split_from-joins b sep skip part s
split_from-joins b sep zero part (c ∷ s) = elim (Bool-cases (starts_with (b ∷ sep) (c ∷ s))) [
  | inl found ↦
      rw
        (
          found,
          join-split_from (b ∷ sep) part (length (b ∷ sep) - 1) [] s,
          split_from-joins b sep (length (b ∷ sep) - 1) [] s,
        )
        (ap (λ n. part ++ (b ∷ sep) ++ drop n s) (pred_suc (length sep))
          ∙ append_assoc part (b ∷ sep) (drop (length sep) s)
          ∙ ap (λ t. part ++ t) (sym (starts_with-drop (b ∷ sep) (c ∷ s) found)))
  | inr passed ↦
      rw passed (split_from-joins b sep 0 (part ++ c ∷ []) s ∙ append_assoc part (c ∷ []) s)
]

-- Joined by the separator, if it is not empty, the parts of a text are the text.
pub split_string-joins :
    (s : Text) (b : ℕ) (sep : Text) → join (b ∷ sep) (split_string s (b ∷ sep)) ≡ s
unfolding split_string
split_string-joins s b sep = split_from-joins b sep 0 [] s

abbrev pub is_in : ℕ → Text → Bool
is_in b [] = false
is_in b (c ∷ s) = if b == c then true else is_in b s

is_in-append :
    (b c : ℕ) (part : Text)
    → is_in b part ≡ false
    → (b == c) ≡ false
    → is_in b (part ++ c ∷ []) ≡ false
is_in-append b c [] lacks other = rw other refl
is_in-append b c (d ∷ part) lacks other = ground (arith, is_in-append b c part)

split_from-Lacks :
    (b : ℕ) (part s : Text)
    → is_in b part ≡ false
    → All (λ p. is_in b p ≡ false) (split_from (b ∷ []) 0 part s)
unfolding split_from starts_with
split_from-Lacks b part [] lacks = (lacks, tt)
split_from-Lacks b part (c ∷ s) lacks = elim (Bool-cases (b == c)) [
  | inl same ↦ rw same (lacks, split_from-Lacks b [] s refl)
  | inr other ↦ rw other (split_from-Lacks b (part ++ c ∷ []) s (is_in-append b c part lacks other))
]

-- No part of a text that is split at a single byte has that byte.
pub split_string-Lacks : (s : Text) (b : ℕ) → All (λ p. is_in b p ≡ false) (split_string s (b ∷ []))
unfolding split_string
split_string-Lacks s b = split_from-Lacks b [] s refl
