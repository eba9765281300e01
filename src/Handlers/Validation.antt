-- ===== src/Handlers/Validation.antt =====
-- services/api/internal/adapters/inbound/http/validation.go: from a request's body to a value that
-- the handler may use, or to the answer that refuses it.
pub mod Names
pub mod Headers
use internal_developer_platf.Shared.{
  ℕ, String, Bool, true, false, ◌&&◌, Option, none, some, List, [], ◌∷◌, ◌++◌, map, Result, ok, err,
  leb, if◌then◌else◌,
}
use internal_developer_platf.Text.{Text, codes, text_eq, CaseTables, to_lower}
use internal_developer_platf.Http.{
  Request, ValidationError, ErrorResponse, WriterOp, respond_with_error, err_code_validation,
  err_code_invalid_json,
}

-- What the package validator reports of a field; the value is its text in JSON.
pub record FieldError : Type 0 where
  pub field : Text
  pub tag : Text
  pub param : Text
  pub value : Text

abbrev pub is_capital : ℕ → Bool
is_capital c = leb b'A' c && leb c b'Z'

-- The loop of toSnakeCase, behind the first character.
unfoldable pub snake_rest : Text → Text
snake_rest [] = []
snake_rest (c ∷ s) = let rest = snake_rest s in if is_capital c then b'_' ∷ c ∷ rest else c ∷ rest

unfoldable pub with_underscores : Text → Text
with_underscores [] = []
with_underscores (c ∷ s) = c ∷ snake_rest s

-- toSnakeCase
unfoldable pub to_snake_case : CaseTables → Text → Text
to_snake_case tables s = to_lower tables (with_underscores s)

-- formatValidationMessage
unfoldable pub format_validation_message : CaseTables → FieldError → Text
format_validation_message tables fe =
    let field = to_snake_case tables fe.field in
    if text_eq fe.tag (codes "required")
    then field ++ codes " is required"
    else if text_eq fe.tag (codes "email")
    then field ++ codes " must be a valid email address"
    else if text_eq fe.tag (codes "min")
    then field ++ (codes " must be at least " ++ (fe.param ++ codes " characters"))
    else if text_eq fe.tag (codes "max")
    then field ++ (codes " must be at most " ++ (fe.param ++ codes " characters"))
    else if text_eq fe.tag (codes "oneof")
    then field ++ (codes " must be one of: " ++ fe.param)
    else if text_eq fe.tag (codes "url")
    then field ++ codes " must be a valid URL"
    else if text_eq fe.tag (codes "uuid")
    then field ++ codes " must be a valid UUID"
    else if text_eq fe.tag (codes "alphanum")
    then field ++ codes " must contain only alphanumeric characters"
    else if text_eq fe.tag (codes "gte")
    then field ++ (codes " must be greater than or equal to " ++ fe.param)
    else if text_eq fe.tag (codes "lte")
    then field ++ (codes " must be less than or equal to " ++ fe.param)
    else field ++ (codes " failed validation: " ++ fe.tag)

-- ValidateStruct, over what the package validator reports.
unfoldable pub validate_struct : CaseTables → List FieldError → List ValidationError
validate_struct tables = map (λ fe. record {
  field = to_snake_case tables fe.field;
  message = format_validation_message tables fe;
  value = some fe.value;
})

module _ (encode : ErrorResponse → List ℕ) where
  -- RespondWithValidationError
  unfoldable pub respond_with_validation_error : String → List ValidationError → List WriterOp
  respond_with_validation_error request_id errors = respond_with_error encode 400 (record {
    code = err_code_validation;
    message = "Request validation failed";
    request_id = request_id;
    details = errors;
  })

  module _ (tables : CaseTables) {A : Type 0} (decode : List ℕ → Option A)
      (check : A → List FieldError) where
    decode_body : Option (List ℕ) → Option A
    decode_body none = none
    decode_body (some body) = decode body

    refuse_invalid : String → A → List ValidationError → Result (List WriterOp) A
    unfolding respond_with_validation_error
    refuse_invalid request_id payload [] = ok payload
    refuse_invalid request_id payload (e ∷ errors) =
        err (respond_with_validation_error request_id (e ∷ errors))

    validate_decoded : String → Option A → Result (List WriterOp) A
    unfolding refuse_invalid
    validate_decoded request_id none = err (
        respond_with_error encode 400 (record {
          code = err_code_invalid_json;
          message = "Invalid JSON in request body";
          request_id = request_id;
          details = [];
        }))
    validate_decoded request_id (some payload) =
        refuse_invalid request_id payload (validate_struct tables (check payload))

    -- DecodeAndValidate: the value, or the answer that was sent.
    unfoldable pub decode_and_validate : Request → String → Result (List WriterOp) A
    unfolding decode_body validate_decoded
    decode_and_validate request request_id = validate_decoded request_id (decode_body request.body)
