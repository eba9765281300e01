-- ===== src/Services.antt =====
-- services/api/internal/application/service (auth_service.go, resource_service.go), over the outbound
-- ports and their adapters: adapters/outbound/kafka and sqs (Publish), and adapters/outbound/cognito
-- (auth_provider.go). Log lines are left out.
pub mod Publish
pub mod Cognito
mod Tests
use internal_developer_platf.Shared.{String, Result}
use internal_developer_platf.DomainErrors.{GoError}
use internal_developer_platf.Handlers.Responses.{
  SignUpRequest, SignInRequest, ConfirmSignUpRequest, AuthResponse, Resource,
}

-- The port ResourcePublisher: an error, nil where the resource was published.
abbrev pub ResourcePublisher : Type 0
ResourcePublisher = Resource → GoError

-- The port AuthProvider.
pub record AuthProvider : Type 0 where
  pub sign_up : String → String → GoError
  pub sign_in : String → String → Result GoError AuthResponse
  pub confirm_sign_up : String → String → GoError

-- ResourceService.SendProvisioningRequest
unfoldable pub send_provisioning_request : ResourcePublisher → Resource → GoError
send_provisioning_request publisher r = publisher r

-- AuthService.SignUp
unfoldable pub auth_sign_up : AuthProvider → SignUpRequest → GoError
auth_sign_up provider req = provider.sign_up req.email req.password

-- AuthService.SignIn
unfoldable pub auth_sign_in : AuthProvider → SignInRequest → Result GoError AuthResponse
auth_sign_in provider req = provider.sign_in req.email req.password

-- AuthService.ConfirmSignUp
unfoldable pub auth_confirm_sign_up : AuthProvider → ConfirmSignUpRequest → GoError
auth_confirm_sign_up provider req = provider.confirm_sign_up req.email req.confirmation_code
