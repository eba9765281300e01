-- ===== src/Http/Errors.antt =====
-- services/api/internal/adapters/inbound/http/validation.go: error responses and their codes, and
-- the requests that handlers read.
use internal_developer_platf.Shared.{ℕ, String, Option, List, [], ◌∷◌}
use internal_developer_platf.Text.{Text}
use internal_developer_platf.Http.Response.{Header, WriterOp, set_header, write_header, write}

-- An http.Request; the body is `none` where reading it fails.
pub record Request : Type 0 where
  pub method : String
  pub path : String
  pub pattern : String
  pub header : Header
  pub body : Option (List ℕ)

-- A value is its text in JSON, `none` where it is left out.
pub record ValidationError : Type 0 where
  pub field : Text
  pub message : Text
  pub value : Option Text

pub record ErrorResponse : Type 0 where
  pub code : String
  pub message : String
  pub request_id : String
  pub details : List ValidationError

abbrev pub err_code_validation : String
err_code_validation = "VALIDATION_ERROR"

abbrev pub err_code_invalid_json : String
err_code_invalid_json = "INVALID_JSON"

abbrev pub err_code_missing_header : String
err_code_missing_header = "MISSING_HEADER"

abbrev pub err_code_internal_error : String
err_code_internal_error = "INTERNAL_ERROR"

abbrev pub err_code_unauthorized : String
err_code_unauthorized = "UNAUTHORIZED"

abbrev pub err_code_idempotency_key_invalid : String
err_code_idempotency_key_invalid = "IDEMPOTENCY_KEY_INVALID"

abbrev pub err_code_idempotency_key_mismatch : String
err_code_idempotency_key_mismatch = "IDEMPOTENCY_KEY_MISMATCH"

abbrev pub err_code_idempotency_in_progress : String
err_code_idempotency_in_progress = "IDEMPOTENT_REQUEST_IN_PROGRESS"

-- RespondWithError, where `encode` is the JSON encoder's output for the response.
unfoldable pub respond_with_error : (ErrorResponse → List ℕ) → ℕ → ErrorResponse → List WriterOp
respond_with_error encode status response =
    set_header "Content-Type" "application/json"
    ∷ write_header status
    ∷ write (encode response)
    ∷ []
