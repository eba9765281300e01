-- ===== src/Handlers/Responses.antt =====
-- services/api/internal/adapters/inbound/http/response.go and the models that the handlers receive
-- and send.
use internal_developer_platf.Shared.{
  ℕ, ℤ, String, Bool, true, Option, none, some, List, [], ◌∷◌, str_eq, if◌then◌else◌,
}
use internal_developer_platf.Http.{
  Header, ErrorResponse, WriterOp, set_header, write_header, write, header_get,
}

pub record SignUpRequest : Type 0 where
  pub email : String
  pub password : String

pub record SignInRequest : Type 0 where
  pub email : String
  pub password : String

pub record ConfirmSignUpRequest : Type 0 where
  pub email : String
  pub confirmation_code : String

pub record AuthResponse : Type 0 where
  pub access_token : String
  pub refresh_token : String
  pub id_token : String
  pub expires_in : ℤ
  pub token_type : String

pub record Resource : Type 0 where
  pub id : String
  pub resource_type : String
  pub cloud_provider : String
  pub specification : String
  pub status : String
  pub requested_by : String

pub record ResponseMeta : Type 0 where
  pub request_id : String
  pub timestamp : String
  pub api_version : String

pub record ApiResponse (T : Type 0) : Type 0 where
  pub success : Bool
  pub body : T
  pub meta : ResponseMeta

pub record PaginationMeta : Type 0 where
  pub page : ℕ
  pub per_page : ℕ
  pub total_items : ℕ
  pub total_pages : ℕ
  pub next_cursor : String
  pub prev_cursor : String

pub record PaginatedResponse (T : Type 0) : Type 0 where
  pub success : Bool
  pub body : List T
  pub meta : ResponseMeta
  pub pagination : PaginationMeta

pub record MessageResponse : Type 0 where
  pub message : String
  pub status : String

pub record CreatedResponse : Type 0 where
  pub message : String
  pub resource_id : String
  pub status : String

pub record AcceptedResponse : Type 0 where
  pub message : String
  pub request_id : String
  pub status : String
  pub track_url : String

-- NewAPIResponse, at a time that is written as RFC 3339.
unfoldable pub new_api_response : {T : Type 0} → String → T → String → ApiResponse T
new_api_response now body request_id = record {
  success = true;
  body = body;
  meta = record { request_id = request_id; timestamp = now; api_version = "v1" };
}

-- NewPaginatedResponse
unfoldable pub new_paginated_response :
    {T : Type 0} → String → List T → String → PaginationMeta → PaginatedResponse T
new_paginated_response now body request_id pagination = record {
  success = true;
  body = body;
  meta = record { request_id = request_id; timestamp = now; api_version = "v1" };
  pagination = pagination;
}

-- RespondWithJSON; the payload is the encoder's bytes, `none` for nil.
unfoldable pub respond_with_json : ℕ → Option (List ℕ) → List WriterOp
respond_with_json status none =
    set_header "Content-Type" "application/json" ∷ write_header status ∷ []
respond_with_json status (some bytes) =
    set_header "Content-Type" "application/json" ∷ write_header status ∷ write bytes ∷ []

-- getRequestID
unfoldable pub get_request_id : Header → String
get_request_id header =
    let own = header_get "X-Request-Id" header in
    if str_eq own "" then header_get "X-Amzn-Trace-Id" header else own

-- The JSON encoder's bytes for each payload.
pub record Encoders : Type 0 where
  pub error : ErrorResponse → List ℕ
  pub created : ApiResponse CreatedResponse → List ℕ
  pub tokens : ApiResponse AuthResponse → List ℕ
  pub message : ApiResponse MessageResponse → List ℕ
  pub accepted : ApiResponse AcceptedResponse → List ℕ
