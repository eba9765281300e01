-- ===== src/Shared/Results.antt =====
-- Go's `(value, error)` results: a value or an error, with the chain of steps that returns at the
-- first error.
use mathlib.Core.Path.{◌≡◌, refl}

pub data Result {ℓ κ} (E : Type ℓ) (A : Type κ) : Type (ℓ ⊔ κ) where
  ok : A → Result E A
  err : E → Result E A

-- Inversion of a result, keeping the equation.
pub data Outcome {ℓ κ} {E : Type ℓ} {A : Type κ} (r : Result E A) : Type (ℓ ⊔ κ) where
  is_ok : (a : A) → r ≡ ok a → Outcome r
  is_err : (e : E) → r ≡ err e → Outcome r

pub Result-cases {ℓ κ} : {E : Type ℓ} {A : Type κ} (r : Result E A) → Outcome r
Result-cases (ok a) = is_ok a refl
Result-cases (err e) = is_err e refl
