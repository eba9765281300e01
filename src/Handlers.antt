-- ===== src/Handlers.antt =====
-- services/api/internal/adapters/inbound/http: the handlers of auth_handler.go, resource_handler.go
-- and health_handler.go over Handlers.Responses, with what they log.
pub mod Responses
pub mod Validation
pub mod Answers
mod Tests
use internal_developer_platf.Shared.{
  ℕ, String, Bool, Option, none, some, List, [], ◌∷◌, Result, ok, err, if◌then◌else◌,
}
use internal_developer_platf.Text.{CaseTables}
use internal_developer_platf.Http.{
  Request, WriterOp, write_header, write, respond_with_error, err_code_internal_error,
  err_code_unauthorized,
}
use internal_developer_platf.Logger.{Level, info_level, warn_level, error_level}
use internal_developer_platf.Handlers.Responses.{
  AuthResponse, ConfirmSignUpRequest, Encoders, Resource, SignInRequest, SignUpRequest,
  get_request_id, new_api_response, respond_with_json,
}
use internal_developer_platf.Handlers.Validation.{FieldError, decode_and_validate}

-- What the JSON decoder and the validator make of a body that is meant to be an `A`.
pub record Schema (A : Type 0) : Type 0 where
  pub decode : List ℕ → Option A
  pub check : A → List FieldError

-- A line of the logger that NewAuthHandler derives, with the fields that it has.
pub record AuthLine : Type 0 where
  pub level : Level
  pub component : String
  pub error : Option String
  pub email : Option String
  pub message : String

-- What a handler does: the calls of its service, what it logs and what it writes.
pub record Handled (A : Type 0) : Type 0 where
  pub calls : List A
  pub logs : List AuthLine
  pub ops : List WriterOp

-- NewAuthHandler: the component of its logger.
abbrev auth_component : String
auth_component = "auth_handler"

-- logger.WithError(err) at a level
unfoldable pub auth_failed : Level → String → String → AuthLine
auth_failed level error message = record {
  level = level;
  component = auth_component;
  error = some error;
  email = none;
  message = message;
}

-- logger.WithField("email", email).Info
unfoldable pub auth_done : String → String → AuthLine
auth_done email message = record {
  level = info_level;
  component = auth_component;
  error = none;
  email = some email;
  message = message;
}

module _ (json : Encoders) (tables : CaseTables) (now : String) where
  service_error : ℕ → String → String → String → List WriterOp
  unfolding respond_with_error
  service_error status code message request_id =
      respond_with_error json.error status
        (record { code = code; message = message; request_id = request_id; details = [] })

  sign_up_answered : SignUpRequest → String → Option String → Handled SignUpRequest
  unfolding service_error respond_with_json new_api_response auth_failed auth_done
  sign_up_answered req request_id (some error) = record {
    calls = req ∷ [];
    logs = auth_failed error_level error "auth.signup: service error" ∷ [];
    ops = service_error 500 err_code_internal_error "Failed to create user" request_id;
  }
  sign_up_answered req request_id none = record {
    calls = req ∷ [];
    logs = auth_done req.email "auth.signup: user created" ∷ [];
    ops = respond_with_json 201 (
        some (
          json.created (
            new_api_response now
              (record {
                message = "User created successfully";
                resource_id = "";
                status = "CREATED";
              })
              request_id)));
  }

  sign_up_validated :
      (SignUpRequest → Option String)
      → String
      → Result (List WriterOp) SignUpRequest
      → Handled SignUpRequest
  unfolding sign_up_answered
  sign_up_validated service request_id (err answer) = record { calls = []; logs = []; ops = answer }
  sign_up_validated service request_id (ok req) = sign_up_answered req request_id (service req)

  -- SignUp, where the service returns the text of its error, if any.
  unfoldable pub sign_up :
      Schema SignUpRequest → (SignUpRequest → Option String) → Request → Handled SignUpRequest
  unfolding sign_up_validated
  sign_up schema service request =
      let request_id = get_request_id request.header in
      sign_up_validated service request_id
        (decode_and_validate json.error tables schema.decode schema.check request request_id)

  sign_in_answered : SignInRequest → String → Result String AuthResponse → Handled SignInRequest
  unfolding service_error respond_with_json new_api_response auth_failed auth_done
  sign_in_answered req request_id (err error) = record {
    calls = req ∷ [];
    logs = auth_failed warn_level error "auth.signin: unauthorized" ∷ [];
    ops = service_error 401 err_code_unauthorized "Invalid credentials" request_id;
  }
  sign_in_answered req request_id (ok resp) = record {
    calls = req ∷ [];
    logs = auth_done req.email "auth.signin: user authenticated" ∷ [];
    ops = respond_with_json 200 (some (json.tokens (new_api_response now resp request_id)));
  }

  sign_in_validated :
      (SignInRequest → Result String AuthResponse)
      → String
      → Result (List WriterOp) SignInRequest
      → Handled SignInRequest
  unfolding sign_in_answered
  sign_in_validated service request_id (err answer) = record { calls = []; logs = []; ops = answer }
  sign_in_validated service request_id (ok req) = sign_in_answered req request_id (service req)

  -- SignIn, where the service returns the tokens or the text of its error.
  unfoldable pub sign_in :
      Schema SignInRequest
      → (SignInRequest → Result String AuthResponse)
      → Request
      → Handled SignInRequest
  unfolding sign_in_validated
  sign_in schema service request =
      let request_id = get_request_id request.header in
      sign_in_validated service request_id
        (decode_and_validate json.error tables schema.decode schema.check request request_id)

  confirm_answered : ConfirmSignUpRequest → String → Option String → Handled ConfirmSignUpRequest
  unfolding service_error respond_with_json new_api_response auth_failed auth_done
  confirm_answered req request_id (some error) = record {
    calls = req ∷ [];
    logs = auth_failed error_level error "auth.confirm: service error" ∷ [];
    ops = service_error 500 err_code_internal_error "Failed to confirm user" request_id;
  }
  confirm_answered req request_id none = record {
    calls = req ∷ [];
    logs = auth_done req.email "auth.confirm: user confirmed" ∷ [];
    ops = respond_with_json 200 (
        some (
          json.message (
            new_api_response now
              (record { message = "User confirmed successfully"; status = "CONFIRMED" })
              request_id)));
  }

  confirm_validated :
      (ConfirmSignUpRequest → Option String)
      → String
      → Result (List WriterOp) ConfirmSignUpRequest
      → Handled ConfirmSignUpRequest
  unfolding confirm_answered
  confirm_validated service request_id (err answer) = record { calls = []; logs = []; ops = answer }
  confirm_validated service request_id (ok req) = confirm_answered req request_id (service req)

  -- ConfirmSignUp
  unfoldable pub confirm_sign_up :
      Schema ConfirmSignUpRequest
      → (ConfirmSignUpRequest → Option String)
      → Request
      → Handled ConfirmSignUpRequest
  unfolding confirm_validated
  confirm_sign_up schema service request =
      let request_id = get_request_id request.header in
      confirm_validated service request_id
        (decode_and_validate json.error tables schema.decode schema.check request request_id)

  provision_validated :
      (Resource → Bool) → String → Result (List WriterOp) Resource → Handled Resource
  unfolding service_error respond_with_json new_api_response
  provision_validated fails request_id (err answer) = record { calls = []; logs = []; ops = answer }
  provision_validated fails request_id (ok resource) = record {
    calls = resource ∷ [];
    logs = [];
    ops =
        if fails resource
        then service_error 500 err_code_internal_error "Failed to process provisioning request"
            request_id
        else respond_with_json 202 (
            some (
              json.accepted (
                new_api_response now
                  (record {
                    message = "Request accepted for processing";
                    request_id = request_id;
                    status = "ACCEPTED";
                    track_url = "";
                  })
                  request_id)));
  }

  -- Provision, where `fails` tells whether the service returns an error.
  unfoldable pub provision : Schema Resource → (Resource → Bool) → Request → Handled Resource
  unfolding provision_validated
  provision schema fails request =
      let request_id = get_request_id request.header in
      provision_validated fails request_id
        (decode_and_validate json.error tables schema.decode schema.check request request_id)

-- HealthCheck
unfoldable pub health_check : List WriterOp
health_check = write_header 200 ∷ write (b'O' ∷ b'K' ∷ []) ∷ []
