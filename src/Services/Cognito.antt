-- ===== src/Services/Cognito.antt =====
-- services/api/internal/adapters/outbound/cognito/auth_provider.go, over a client of Cognito.
pub mod Reports
use internal_developer_platf.Shared.{
  ℤ, String, Option, none, some, List, [], ◌∷◌, Result, ok, err, if◌then◌else◌,
}
use internal_developer_platf.Text.{codes}
use internal_developer_platf.DomainErrors.Codes.{
  err_code_invalid_credentials, err_code_auth_failed, err_code_user_already_exists,
  err_code_invalid_confirmation_code,
}
use internal_developer_platf.DomainErrors.{
  GoError, nil_error, sentinel, new_domain_error, is_nil, err_unauthorized,
}
use internal_developer_platf.Handlers.Responses.{AuthResponse}
use internal_developer_platf.Services.{AuthProvider}

pub record SignUpInput : Type 0 where
  pub client_id : String
  pub username : String
  pub password : String
  pub user_attributes : List (String × String)

pub record InitiateAuthInput : Type 0 where
  pub auth_flow : String
  pub client_id : String
  pub auth_parameters : List (String × String)

pub record ConfirmSignUpInput : Type 0 where
  pub client_id : String
  pub username : String
  pub confirmation_code : String

-- The SDK's result, whose texts are pointers.
pub record AuthenticationResult : Type 0 where
  pub access_token : Option String
  pub refresh_token : Option String
  pub id_token : Option String
  pub expires_in : ℤ
  pub token_type : Option String

-- The SDK's client: an error, or an output, whose result may be nil.
pub record Client : Type 0 where
  pub sign_up : SignUpInput → GoError
  pub initiate_auth : InitiateAuthInput → Result GoError (Option AuthenticationResult)
  pub confirm_sign_up : ConfirmSignUpInput → GoError

-- aws.ToString
abbrev pub to_string : Option String → String
to_string none = ""
to_string (some text) = text

provider_error : String → String → GoError → GoError
unfolding is_nil
provider_error code message cause =
    if is_nil cause then nil_error else new_domain_error code (codes message) cause

auth_result : Result GoError (Option AuthenticationResult) → Result GoError AuthResponse
auth_result (err e) =
    err (new_domain_error err_code_invalid_credentials (codes "authentication failed") e)
auth_result (ok none) = err (
    new_domain_error err_code_auth_failed (codes "authentication failed: no result returned")
      (sentinel err_unauthorized))
auth_result (ok (some result)) = ok (record {
  access_token = to_string result.access_token;
  refresh_token = to_string result.refresh_token;
  id_token = to_string result.id_token;
  expires_in = result.expires_in;
  token_type = to_string result.token_type;
})

module _ (client : Client) (client_id : String) where
  -- CognitoAuthProvider.SignUp
  unfoldable pub cognito_sign_up : String → String → GoError
  unfolding provider_error
  cognito_sign_up email password =
      provider_error err_code_user_already_exists "failed to register user" (
        client.sign_up (record {
          client_id = client_id;
          username = email;
          password = password;
          user_attributes = ("email", email) ∷ [];
        }))

  -- CognitoAuthProvider.SignIn
  unfoldable pub cognito_sign_in : String → String → Result GoError AuthResponse
  unfolding auth_result
  cognito_sign_in email password = auth_result (
      client.initiate_auth (record {
        auth_flow = "USER_PASSWORD_AUTH";
        client_id = client_id;
        auth_parameters = ("USERNAME", email) ∷ ("PASSWORD", password) ∷ [];
      }))

  -- CognitoAuthProvider.ConfirmSignUp
  unfoldable pub cognito_confirm_sign_up : String → String → GoError
  unfolding provider_error
  cognito_confirm_sign_up email confirmation_code =
      provider_error err_code_invalid_confirmation_code "failed to confirm user registration" (
        client.confirm_sign_up (record {
          client_id = client_id;
          username = email;
          confirmation_code = confirmation_code;
        }))

  abbrev pub cognito_provider : AuthProvider
  cognito_provider = record {
    sign_up = cognito_sign_up;
    sign_in = cognito_sign_in;
    confirm_sign_up = cognito_confirm_sign_up;
  }
