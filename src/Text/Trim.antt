-- ===== src/Text/Trim.antt =====
-- Laws of comparison and of trimming.
use internal_developer_platf.Shared.{
  ℕ, ◌≡◌, refl, ◌↔◌, Bool, true, false, [], ◌∷◌, arith, Bool-cases, inl, inr, ap, ◌∙◌, All,
}
use internal_developer_platf.Text.{
  Text, text_eq, is_space, trim_left, trim_right, trim_cons, trim, trim_space,
}

pub text_eq_sound : (s t : Text) → text_eq s t ≡ true → s ≡ t
unfolding text_eq
text_eq_sound [] [] h = refl
text_eq_sound [] (d ∷ t) h = cc
text_eq_sound (c ∷ s) [] h = cc
text_eq_sound (c ∷ s) (d ∷ t) h = ground (arith, text_eq_sound s t)

pub text_eq_refl : (s : Text) → text_eq s s ≡ true
unfolding text_eq
text_eq_refl [] = refl
text_eq_refl (c ∷ s) = ground (arith, text_eq_refl s)

pub text_eq_iff : (s t : Text) → (text_eq s t ≡ true) ↔ (s ≡ t)
text_eq_iff s t = (text_eq_sound s t, λ e. rw e (text_eq_refl t))

-- No space at an end.
abbrev pub NoLead : (ℕ → Bool) → Text → Type 0
NoLead space [] = Unit
NoLead space (c ∷ s) = space c ≡ false

module _ (space : ℕ → Bool) where
  trim_left-NoLead : (s : Text) → NoLead space (trim_left space s)
  unfolding trim_left
  trim_left-NoLead [] = tt
  trim_left-NoLead (c ∷ s) = elim (Bool-cases (space c)) [
    | inl e ↦ rw e (trim_left-NoLead s)
    | inr e ↦ rw e e
  ]

  trim_left_id : (s : Text) → NoLead space s → trim_left space s ≡ s
  unfolding trim_left
  trim_left_id [] h = refl
  trim_left_id (c ∷ s) h = rw h

  trim_right-NoLead : (s : Text) → NoLead space s → NoLead space (trim_right space s)
  unfolding trim_right
  trim_right-NoLead [] h = tt
  trim_right-NoLead (c ∷ s) h = cons_case (trim_right space s)
    where
      cons_case : (t : Text) → NoLead space (trim_cons space c t)
      cons_case [] = rw h h
      cons_case (d ∷ t) = h

  trim_right-cons :
      (c : ℕ) (t : Text)
      → trim_right space t ≡ t
      → trim_right space (trim_cons space c t) ≡ trim_cons space c t
  unfolding trim_right
  trim_right-cons c [] h = elim (Bool-cases (space c)) [
    | inl e ↦ rw e refl
    | inr e ↦ rw e (rw e refl)
  ]
  trim_right-cons c (d ∷ t) h = rw (h, trim_cons) refl

  trim_right_idem : (s : Text) → trim_right space (trim_right space s) ≡ trim_right space s
  unfolding trim_right
  trim_right_idem [] = refl
  trim_right_idem (c ∷ s) = trim_right-cons c (trim_right space s) (trim_right_idem s)

  pub trim_idem : (s : Text) → trim space (trim space s) ≡ trim space s
  unfolding trim
  trim_idem s =
      rw
        (trim_left_id (trim_right space (trim_left space s))
          (trim_right-NoLead (trim_left space s) (trim_left-NoLead s)))
        (trim_right_idem (trim_left space s))

pub trim_space_idem : (s : Text) → trim_space (trim_space s) ≡ trim_space s
unfolding trim_space
trim_space_idem s = trim_idem is_space s

module _ (one other : ℕ → Bool) where
  trim_left-agrees : (s : Text) → All (λ c. one c ≡ other c) s → trim_left one s ≡ trim_left other s
  unfolding trim_left
  trim_left-agrees [] plain = refl
  trim_left-agrees (c ∷ s) plain = rw (plain.0, trim_left-agrees s plain.1) refl

  trim_left-All :
      (space : ℕ → Bool) (s : Text)
      → All (λ c. one c ≡ other c) s
      → All (λ c. one c ≡ other c) (trim_left space s)
  unfolding trim_left
  trim_left-All space [] same = tt
  trim_left-All space (c ∷ s) same = elim (Bool-cases (space c)) [
    | inl blank ↦ rw blank (trim_left-All space s same.1)
    | inr kept ↦ rw kept same
  ]

  trim_cons-agrees : (c : ℕ) (s : Text) → one c ≡ other c → trim_cons one c s ≡ trim_cons other c s
  unfolding trim_cons
  trim_cons-agrees c [] same = rw same refl
  trim_cons-agrees c (d ∷ s) same = refl

  trim_right-agrees :
      (s : Text) → All (λ c. one c ≡ other c) s → trim_right one s ≡ trim_right other s
  unfolding trim_right
  trim_right-agrees [] plain = refl
  trim_right-agrees (c ∷ s) plain =
      ap (trim_cons one c) (trim_right-agrees s plain.1)
      ∙ trim_cons-agrees c (trim_right other s) plain.0

  -- Two notions of blanks that agree on a text trim it alike.
  pub trim-agrees : (s : Text) → All (λ c. one c ≡ other c) s → trim one s ≡ trim other s
  unfolding trim
  trim-agrees s same =
      trim_right-agrees (trim_left one s) (trim_left-All one s same)
      ∙ ap (trim_right other) (trim_left-agrees s same)
