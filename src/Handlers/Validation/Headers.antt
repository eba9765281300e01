-- ===== src/Handlers/Validation/Headers.antt =====
-- validation.go: ValidateRequiredHeader.
use internal_developer_platf.Shared.{
  ℕ, String, ◌≡◌, ◌≢◌, ◌↔◌, Bool, true, false, none, List, [], ◌∷◌, ◌++◌, str_eq, str_eq_iff,
  if◌then◌else◌, arith,
}
use Prim.Native.String as Text
use internal_developer_platf.Text.{codes}
use internal_developer_platf.Http.{
  Request, ErrorResponse, WriterOp, header_get, respond_with_error, err_code_missing_header,
}
use internal_developer_platf.Chain.Layers.{recorded_status}

-- ValidateRequiredHeader: what it writes, and what it returns.
unfoldable pub validate_required_header :
    (ErrorResponse → List ℕ) → Request → String → String → List WriterOp × Bool
validate_required_header encode request name request_id =
    if str_eq (header_get name request.header) ""
    then (
      respond_with_error encode 400 (record {
        code = err_code_missing_header;
        message = Text.◌++◌ "Missing required header: " name;
        request_id = request_id;
        details =
            record {
              field = codes name;
              message = codes "Header '" ++ (codes name ++ codes "' is required");
              value = none;
            }
            ∷ [];
      }),
      false,
    )
    else ([], true)

-- It returns true exactly where the header has a value, and then has set no status; else it has
-- answered with 400.
pub validate_required_header_lem :
    (encode : ErrorResponse → List ℕ) (request : Request) (name request_id : String)
    → let (written, valid) = validate_required_header encode request name request_id in
      ((valid ≡ true) ↔ (header_get name request.header ≢ ""))
      × (recorded_status 200 written ≡ (if valid then 200 else 400))
unfolding validate_required_header respond_with_error recorded_status
validate_required_header_lem encode request name request_id =
    ground (arith, str_eq_iff (header_get name request.header) "")
