-- ===== src/DomainErrors/Fields.antt =====
-- errors.go: errors of single fields, and collections of them.
use internal_developer_platf.Shared.{ℕ, List, [], ◌∷◌, ◌++◌, length}
use internal_developer_platf.Text.{Text, codes}

-- An error of a field with a value of any type.
pub record ValidationError (V : Type 0) : Type 0 where
  pub field : Text
  pub message : Text
  pub value : V

-- NewValidationError
unfoldable pub new_validation_error : {V : Type 0} → Text → Text → V → ValidationError V
new_validation_error field message value = record {
  field = field;
  message = message;
  value = value;
}

-- Error of ValidationError.
unfoldable pub validation_error_text : {V : Type 0} → ValidationError V → Text
validation_error_text e = e.field ++ (codes ": " ++ e.message)

-- Error of ValidationErrors, where `decimal` is fmt's %d.
unfoldable pub validation_errors_text : {V : Type 0} → (ℕ → Text) → List (ValidationError V) → Text
validation_errors_text decimal [] = codes "validation failed"
validation_errors_text decimal (e ∷ es) =
    codes "validation failed: " ++ (decimal (length (e ∷ es)) ++ codes " errors")
