-- ===== src/Handlers/Answers.antt =====
-- auth_handler.go and resource_handler.go: when a service is called, what is logged and the status
-- of the answer.
use internal_developer_platf.Shared.{
  ℕ, String, ◌≡◌, Bool, true, false, Option, none, some, List, [], ◌∷◌, Result, ok, err,
  if◌then◌else◌, arith,
}
use internal_developer_platf.Text.{CaseTables}
use internal_developer_platf.Http.{Request, respond_with_error}
use internal_developer_platf.Chain.Layers.{recorded_status}
use internal_developer_platf.Handlers.Validation.{
  FieldError, validate_struct, respond_with_validation_error, decode_and_validate,
}
use internal_developer_platf.Handlers.Responses.{
  SignUpRequest, SignInRequest, ConfirmSignUpRequest, AuthResponse, Resource, Encoders,
  respond_with_json,
}
use internal_developer_platf.Logger.{Level, info_level, warn_level, error_level}
use internal_developer_platf.Handlers.{
  Schema, Handled, AuthLine, auth_failed, auth_done, sign_up, sign_in, confirm_sign_up, provision,
}

-- The text of a service's error.
abbrev pub error_of : {A : Type 0} → Result String A → Option String
error_of (err error) = some error
error_of (ok a) = none

abbrev pub is_error : Option String → Bool
is_error none = false
is_error (some error) = true

-- The line for an answer of the service: its error at a level, or the request's email.
abbrev pub one_line : Level → String → String → String → Option String → List AuthLine
one_line level failure success email none =
    record {
      level = info_level;
      component = "auth_handler";
      error = none;
      email = some email;
      message = success;
    }
    ∷ []
one_line level failure success email (some error) =
    record {
      level = level;
      component = "auth_handler";
      error = some error;
      email = none;
      message = failure;
    }
    ∷ []

-- The body, where it can be read, decoded.
abbrev pub decoded : {A : Type 0} → Schema A → Option (List ℕ) → Option A
decoded schema none = none
decoded schema (some body) = schema.decode body

-- The calls of the service, the lines logged and the status of the answer.
abbrev pub outcome :
    {A : Type 0}
    → (A → List FieldError)
    → (A → Bool)
    → (A → List AuthLine)
    → ℕ
    → ℕ
    → Option A
    → List A × List AuthLine × ℕ
outcome check fails lines failure success none = ([], [], 400)
outcome check fails lines failure success (some a) = elim (check a) [
  | [] ↦ (a ∷ [], lines a, if fails a then failure else success)
  | _ ∷ _ ↦ ([], [], 400)
]

-- The calls of a handled request, its lines and the status that it is answered with.
abbrev pub observed : {A : Type 0} → Handled A → List A × List AuthLine × ℕ
observed h = (h.calls, h.logs, recorded_status 200 h.ops)

abbrev pub sign_up_outcome :
    Schema SignUpRequest
    → (SignUpRequest → Option String)
    → Request
    → List SignUpRequest × List AuthLine × ℕ
sign_up_outcome schema service request =
    outcome schema.check (λ req. is_error (service req))
      (λ req.
        one_line error_level "auth.signup: service error" "auth.signup: user created" req.email
          (service req))
      500 201 (decoded schema request.body)

abbrev pub sign_in_outcome :
    Schema SignInRequest
    → (SignInRequest → Result String AuthResponse)
    → Request
    → List SignInRequest × List AuthLine × ℕ
sign_in_outcome schema service request =
    outcome schema.check (λ req. is_error (error_of (service req)))
      (λ req.
        one_line warn_level "auth.signin: unauthorized" "auth.signin: user authenticated" req.email
          (error_of (service req)))
      401 200 (decoded schema request.body)

abbrev pub confirm_outcome :
    Schema ConfirmSignUpRequest
    → (ConfirmSignUpRequest → Option String)
    → Request
    → List ConfirmSignUpRequest × List AuthLine × ℕ
confirm_outcome schema service request =
    outcome schema.check (λ req. is_error (service req))
      (λ req.
        one_line error_level "auth.confirm: service error" "auth.confirm: user confirmed" req.email
          (service req))
      500 200 (decoded schema request.body)

module _ (json : Encoders) (tables : CaseTables) (now : String) where
  sign_up-outcome :
      (schema : Schema SignUpRequest) (service : SignUpRequest → Option String) (request : Request)
      → observed (sign_up json tables now schema service request)
        ≡ sign_up_outcome schema service request
  unfolding sign_up decode_and_validate validate_struct respond_with_validation_error
      respond_with_error respond_with_json recorded_status auth_failed auth_done
  sign_up-outcome schema service request = ground arith

  sign_in-outcome :
      (schema : Schema SignInRequest) (service : SignInRequest → Result String AuthResponse)
      (request : Request)
      → observed (sign_in json tables now schema service request)
        ≡ sign_in_outcome schema service request
  unfolding sign_in decode_and_validate validate_struct respond_with_validation_error
      respond_with_error respond_with_json recorded_status auth_failed auth_done
  sign_in-outcome schema service request = ground arith

  confirm-outcome :
      (schema : Schema ConfirmSignUpRequest) (service : ConfirmSignUpRequest → Option String)
      (request : Request)
      → observed (confirm_sign_up json tables now schema service request)
        ≡ confirm_outcome schema service request
  unfolding confirm_sign_up decode_and_validate validate_struct respond_with_validation_error
      respond_with_error respond_with_json recorded_status auth_failed auth_done
  confirm-outcome schema service request = ground arith

  provision-outcome :
      (schema : Schema Resource) (fails : Resource → Bool) (request : Request)
      → observed (provision json tables now schema fails request)
        ≡ outcome schema.check fails (λ resource. []) 500 202 (decoded schema request.body)
  unfolding provision decode_and_validate validate_struct respond_with_validation_error
      respond_with_error respond_with_json recorded_status
  provision-outcome schema fails request = ground arith

  -- The four handlers call their service exactly where the body can be read and decoded and the
  -- validator reports nothing, once, with the decoded value. They answer with 400 where they do not
  -- call it, with 500 (signing in: 401) where it fails, and with 201, 200, 200 and 202 where it
  -- succeeds. For each call the first three log one line, with the service's error or, on
  -- success, the request's email; nothing else is logged.
  pub handlers_answer :
      (signing_up : Schema SignUpRequest) (signing_in : Schema SignInRequest)
      (confirming : Schema ConfirmSignUpRequest) (provisioning : Schema Resource)
      (up : SignUpRequest → Option String) (tokens : SignInRequest → Result String AuthResponse)
      (confirm : ConfirmSignUpRequest → Option String) (publish_fails : Resource → Bool)
      (request : Request)
      → (observed (sign_up json tables now signing_up up request)
          ≡ sign_up_outcome signing_up up request)
        × (observed (sign_in json tables now signing_in tokens request)
            ≡ sign_in_outcome signing_in tokens request)
        × (observed (confirm_sign_up json tables now confirming confirm request)
            ≡ confirm_outcome confirming confirm request)
        × (observed (provision json tables now provisioning publish_fails request)
            ≡ outcome provisioning.check publish_fails
                (λ resource. [])
                500
                202
                (decoded provisioning request.body))
  handlers_answer signing_up signing_in confirming provisioning up tokens confirm publish_fails
        request =
      (
        sign_up-outcome signing_up up request,
        sign_in-outcome signing_in tokens request,
        confirm-outcome confirming confirm request,
        provision-outcome provisioning publish_fails request,
      )
