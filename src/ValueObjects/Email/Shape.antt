-- ===== src/ValueObjects/Email/Shape.antt =====
-- valueobjects.go: which texts the regular expression of emails matches.
use internal_developer_platf.Shared.{
  ℕ, ◌≤◌, ◌≡◌, refl, ap, ◌∙◌, ◌↔◌, ◌≢◌, Bool, true, false, ◌&&◌, ◌||◌, Bool-cases, inl, inr, [],
  ◌∷◌, ◌++◌, ◌==◌, all, ok, arith,
}
use internal_developer_platf.Text.{Text, len, trim_space, CaseTables, to_lower}
use internal_developer_platf.Text.Trim.{text_eq_iff}
use internal_developer_platf.ValueObjects.Email.{
  is_letter, is_local, is_domain, Matcher, at_end, one, plus, matches_email, new_email,
}

-- A text that is a part of a class, not empty, and a rest.
pub record Splits (class : ℕ → Bool) (Rest : Text → Type 0) (s : Text) : Type 0 where
  pub part : Text
  pub rest : Text
  pub whole : s ≡ part ++ rest
  pub of_class : all class part ≡ true
  pub not_empty : part ≢ []
  pub rest_is : Rest rest

-- A text that begins with one character of a class.
pub record Begins (class : ℕ → Bool) (Rest : Text → Type 0) (s : Text) : Type 0 where
  pub first : ℕ
  pub rest : Text
  pub whole : s ≡ first ∷ rest
  pub of_class : class first ≡ true
  pub rest_is : Rest rest

abbrev Decides : Matcher → (Text → Type 0) → Type 0
Decides m P = (s : Text) → (m s ≡ true) ↔ P s

at_end-Decides : Decides at_end (λ s. s ≡ [])
unfolding at_end
at_end-Decides [] = (λ h. refl, λ h. refl)
at_end-Decides (c ∷ s) = (λ absurd. cc, λ absurd. cc)

or_true : (a : Bool) → (a || true) ≡ true
or_true a = ground arith

both : (a b : Bool) → (a && b) ≡ true → (a ≡ true) × (b ≡ true)
both a b h = ground arith

one-matches :
    (class : ℕ → Bool) (m : Matcher) (first : ℕ) (rest : Text)
    → class first ≡ true
    → m rest ≡ true
    → one class m (first ∷ rest) ≡ true
unfolding one
one-matches class m first rest of_class found = rw (of_class, found) refl

one-Begins :
    (class : ℕ → Bool) (m : Matcher) (P : Text → Type 0)
    → Decides m P
    → (s : Text) → one class m s ≡ true
    → Begins class P s
unfolding one
one-Begins class m P decides [] absurd = cc
one-Begins class m P decides (c ∷ s) h = record {
  first = c;
  rest = s;
  whole = refl;
  of_class = (both (class c) (m s) h).0;
  rest_is = (decides s).0 (both (class c) (m s) h).1;
}

one-Decides :
    (class : ℕ → Bool) (m : Matcher) (P : Text → Type 0)
    → Decides m P
    → Decides (one class m) (Begins class P)
one-Decides class m P decides s = (
  one-Begins class m P decides s,
  λ begins. rw begins.whole (
      one-matches class m begins.first begins.rest begins.of_class
        ((decides begins.rest).1 begins.rest_is)),
)

-- The part's first character, and whether the part ends there.
plus-cons :
    (class : ℕ → Bool) (m : Matcher) (c : ℕ) (s : Text)
    → plus class m (c ∷ s) ≡ (class c && (m s || plus class m s))
unfolding plus
plus-cons class m c s = refl

plus-matches :
    (class : ℕ → Bool) (m : Matcher) (part rest : Text)
    → all class part ≡ true
    → part ≢ []
    → m rest ≡ true
    → plus class m (part ++ rest) ≡ true
plus-matches class m [] rest of_class not_empty found = absurd (not_empty refl)
plus-matches class m (c ∷ []) rest of_class not_empty found =
    plus-cons class m c rest ∙ rw ((both (class c) true of_class).0, found) refl
plus-matches class m (c ∷ d ∷ part) rest of_class not_empty found =
    let (head, tail) = both (class c) (all class (d ∷ part)) of_class in
    plus-cons class m c (d ∷ part ++ rest)
    ∙ rw (head, plus-matches class m (d ∷ part) rest tail (λ e. cc) found)
        (or_true (m (d ∷ part ++ rest)))

plus-Splits :
    (class : ℕ → Bool) (m : Matcher) (P : Text → Type 0)
    → Decides m P
    → (s : Text) → plus class m s ≡ true
    → Splits class P s
unfolding plus
plus-Splits class m P decides [] absurd = cc
plus-Splits class m P decides (c ∷ s) h =
    let (head, tail) = both (class c) (m s || plus class m s) h in
    elim (Bool-cases (m s)) [
      | inl found ↦ record {
        part = c ∷ [];
        rest = s;
        whole = refl;
        of_class = rw head refl;
        not_empty = λ e. cc;
        rest_is = (decides s).0 found;
      }
      | inr further ↦
          let deeper = plus-Splits class m P decides s (rw further at tail) in
          record {
            part = c ∷ deeper.part;
            rest = deeper.rest;
            whole = ap (λ t. c ∷ t) deeper.whole;
            of_class = rw (head, deeper.of_class) refl;
            not_empty = λ e. cc;
            rest_is = deeper.rest_is;
          }
    ]

plus-Decides :
    (class : ℕ → Bool) (m : Matcher) (P : Text → Type 0)
    → Decides m P
    → Decides (plus class m) (Splits class P)
plus-Decides class m P decides s = (
  plus-Splits class m P decides s,
  λ splits. rw splits.whole (
      plus-matches class m splits.part splits.rest splits.of_class splits.not_empty
        ((decides splits.rest).1 splits.rest_is)),
)

-- A local part, an at sign, a domain, a dot and a top-level domain of two letters at least.
abbrev pub IsEmail : Text → Type 0
IsEmail = Splits is_local (
    Begins (λ c. c == b'@')
      (Splits is_domain
        (Begins (λ c. c == b'.') (Begins is_letter (Splits is_letter (λ s. s ≡ []))))))

matches_email-Decides : Decides matches_email IsEmail
unfolding matches_email
matches_email-Decides = plus-Decides is_local _ _ (
    one-Decides (λ c. c == b'@') _ _
      (plus-Decides is_domain _ _ (
        one-Decides (λ c. c == b'.') _ _
          (one-Decides is_letter _ _ (plus-Decides is_letter _ _ at_end-Decides)))))

matches_nothing : matches_email [] ≡ false
unfolding matches_email plus
matches_nothing = refl

accepted_iff :
    (tables : CaseTables) (value email : Text)
    → (new_email tables value ≡ ok email) ↔ (
        (email ≡ to_lower tables (trim_space value))
        × (len email ≤ 254)
        × (matches_email email ≡ true))
unfolding new_email
accepted_iff tables value email =
    ground (arith, text_eq_iff (to_lower tables (trim_space value)) [], matches_nothing)

-- NewEmail accepts a text exactly when, trimmed and in lower case, it has at most 254 bytes and is a
-- local part, an at sign, a domain, a dot and two letters at least, each part of its characters and
-- not empty; and it returns it so.
pub new_email_iff :
    (tables : CaseTables) (value email : Text)
    → (new_email tables value ≡ ok email)
      ↔ ((email ≡ to_lower tables (trim_space value)) × (len email ≤ 254) × IsEmail email)
new_email_iff tables value email =
    let accepted = accepted_iff tables value email in
    let decides = matches_email-Decides email in
    (
      λ h. ((accepted.0 h).0, (accepted.0 h).1, decides.0 (accepted.0 h).2),
      λ h. accepted.1 (h.0, h.1, decides.1 h.2),
    )
