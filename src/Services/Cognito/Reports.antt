-- ===== src/Services/Cognito/Reports.antt =====
-- auth_service.go over auth_provider.go: what the service makes of the answers of the SDK's client.
use internal_developer_platf.Shared.{
  ◌≡◌, refl, true, Option, none, some, Result, ok, err, String, [], ◌∷◌,
}
use internal_developer_platf.DomainErrors.{
  GoError, nil_error, sentinel, domain_error, new_domain_error, is_nil, unwrap, error_is,
  err_unauthorized,
}
use internal_developer_platf.DomainErrors.Chains.{code_of, Reports}
use internal_developer_platf.Handlers.Responses.{
  SignUpRequest, SignInRequest, ConfirmSignUpRequest, AuthResponse,
}
use internal_developer_platf.Services.{auth_sign_up, auth_sign_in, auth_confirm_sign_up}
use internal_developer_platf.Services.Cognito.{
  Client, AuthenticationResult, to_string, provider_error, auth_result, cognito_sign_up,
  cognito_sign_in, cognito_confirm_sign_up, cognito_provider,
}

provider_error-Reports :
    (code message : String) (cause : GoError)
    → Reports code cause (provider_error code message cause)
unfolding provider_error is_nil new_domain_error unwrap
provider_error-Reports code message nil_error = refl
provider_error-Reports code message (sentinel text) = (refl, refl)
provider_error-Reports code message (domain_error c text cause details) = (refl, refl)

-- The tokens of a result; an error of the client, reported; and where there is no result, an error
-- that is unauthorized.
abbrev pub SignsIn :
    Result GoError (Option AuthenticationResult) → Result GoError AuthResponse → Type 0
SignsIn (ok (some result)) (ok response) =
    (response.access_token ≡ to_string result.access_token)
    × (response.refresh_token ≡ to_string result.refresh_token)
    × (response.id_token ≡ to_string result.id_token)
    × (response.expires_in ≡ result.expires_in)
    × (response.token_type ≡ to_string result.token_type)
SignsIn (ok (some result)) (err e) = ⊥
SignsIn (ok none) (ok response) = ⊥
SignsIn (ok none) (err e) = (code_of e ≡ some "AUTH_FAILED") × (error_is e err_unauthorized ≡ true)
SignsIn (err cause) (ok response) = ⊥
SignsIn (err cause) (err e) = (code_of e ≡ some "INVALID_CREDENTIALS") × (unwrap e ≡ cause)

auth_result-SignsIn :
    (answer : Result GoError (Option AuthenticationResult)) → SignsIn answer (auth_result answer)
unfolding auth_result new_domain_error error_is unwrap is_nil
auth_result-SignsIn (err e) = (refl, refl)
auth_result-SignsIn (ok none) = (refl, refl)
auth_result-SignsIn (ok (some result)) = (refl, refl, refl, refl, refl)

-- Over any client of Cognito, the service's SignUp and ConfirmSignUp return nil exactly as the
-- client does on the user's email and password or code, and else an error with their own code that
-- unwraps to the client's; SignIn returns the tokens of the client's result to a password
-- authentication, an error with the code INVALID_CREDENTIALS that unwraps to the client's, and where
-- there is no result one with the code AUTH_FAILED that errors.Is finds unauthorized.
pub auth_service_lem :
    (client : Client) (client_id : String) (up : SignUpRequest) (signing : SignInRequest)
    (confirm : ConfirmSignUpRequest)
    → let provider = cognito_provider client client_id in
      Reports "USER_ALREADY_EXISTS"
        (client.sign_up (record {
          client_id = client_id;
          username = up.email;
          password = up.password;
          user_attributes = ("email", up.email) ∷ [];
        }))
        (auth_sign_up provider up)
      × SignsIn
          (client.initiate_auth (record {
            auth_flow = "USER_PASSWORD_AUTH";
            client_id = client_id;
            auth_parameters = ("USERNAME", signing.email) ∷ ("PASSWORD", signing.password) ∷ [];
          }))
          (auth_sign_in provider signing)
      × Reports "INVALID_CONFIRMATION_CODE"
          (client.confirm_sign_up (record {
            client_id = client_id;
            username = confirm.email;
            confirmation_code = confirm.confirmation_code;
          }))
          (auth_confirm_sign_up provider confirm)
unfolding auth_sign_up auth_sign_in auth_confirm_sign_up cognito_sign_up cognito_sign_in
    cognito_confirm_sign_up
auth_service_lem client client_id up signing confirm = (
  provider_error-Reports "USER_ALREADY_EXISTS" "failed to register user" _,
  auth_result-SignsIn _,
  provider_error-Reports "INVALID_CONFIRMATION_CODE" "failed to confirm user registration" _,
)
