-- ===== src/DomainErrors.antt =====
-- services/api/internal/domain/errors/errors.go: errors with a code and a cause.
pub mod Codes
pub mod Fields
pub mod Chains
mod Tests
use internal_developer_platf.Shared.{
  String, Bool, true, false, not, ◌&&◌, ◌||◌, Option, none, some, ◌++◌, str_eq, if◌then◌else◌,
}
use internal_developer_platf.Text.{Text, codes}
use internal_developer_platf.DomainErrors.Codes.{
  err_code_resource_not_found, err_code_resource_already_exists, err_code_validation_failed,
  err_code_auth_failed, err_code_external_service,
}

-- A value of Go's type error: nil, an error made by errors.New, by its text, or a DomainError with
-- its code, message, cause and details.
pub data GoError : Type 0 where
  nil_error : GoError
  sentinel : String → GoError
  domain_error : String → Text → GoError → (String → Option Text) → GoError

abbrev pub err_not_found : String
err_not_found = "resource not found"

abbrev pub err_already_exists : String
err_already_exists = "resource already exists"

abbrev pub err_invalid_input : String
err_invalid_input = "invalid input"

abbrev pub err_unauthorized : String
err_unauthorized = "unauthorized"

abbrev pub err_forbidden : String
err_forbidden = "forbidden"

abbrev pub err_internal : String
err_internal = "internal error"

abbrev pub err_timeout : String
err_timeout = "operation timed out"

abbrev pub err_unavailable : String
err_unavailable = "service unavailable"

unfoldable pub is_nil : GoError → Bool
is_nil nil_error = true
is_nil _ = false

-- Error, of each kind of error.
unfoldable pub error_text : GoError → Text
unfolding is_nil
error_text nil_error = codes "<nil>"
error_text (sentinel text) = codes text
error_text (domain_error code message cause details) =
    let rest = error_text cause in
    if is_nil cause
    then codes code ++ (codes ": " ++ message)
    else codes code ++ (codes ": " ++ (message ++ (codes ": " ++ rest)))

-- Unwrap; an error without the method unwraps to nil.
unfoldable pub unwrap : GoError → GoError
unwrap (domain_error code message cause details) = cause
unwrap _ = nil_error

-- errors.Is for a target made by errors.New: the error itself, then what its method Is says, which
-- for a DomainError is that there is a cause and that the cause is the target, then what it unwraps
-- to.
unfoldable pub error_is : GoError → String → Bool
unfolding is_nil
error_is nil_error target = false
error_is (sentinel text) target = str_eq text target
error_is (domain_error code message cause details) target =
    let deeper = error_is cause target in (not (is_nil cause) && deeper) || deeper

-- NewDomainError
unfoldable pub new_domain_error : String → Text → GoError → GoError
new_domain_error code message cause = domain_error code message cause (λ key. none)

-- WithDetail
unfoldable pub with_detail : String → Text → GoError → GoError
with_detail key value (domain_error code message cause details) =
    domain_error code message cause (λ k. if str_eq k key then some value else details k)
with_detail key value e = e

-- NotFound
unfoldable pub not_found : Text → Text → GoError
unfolding new_domain_error
not_found resource id =
    new_domain_error err_code_resource_not_found
      (resource ++ (codes " with id '" ++ (id ++ codes "' not found"))) (sentinel err_not_found)

-- AlreadyExists
unfoldable pub already_exists : Text → Text → GoError
unfolding new_domain_error
already_exists resource id =
    new_domain_error err_code_resource_already_exists
      (resource ++ (codes " with id '" ++ (id ++ codes "' already exists")))
      (sentinel err_already_exists)

-- InvalidInput
unfoldable pub invalid_input : Text → GoError
unfolding new_domain_error
invalid_input message =
    new_domain_error err_code_validation_failed message (sentinel err_invalid_input)

-- Unauthorized
unfoldable pub unauthorized : Text → GoError
unfolding new_domain_error
unauthorized message = new_domain_error err_code_auth_failed message (sentinel err_unauthorized)

-- Forbidden
unfoldable pub forbidden : Text → GoError
unfolding new_domain_error
forbidden message = new_domain_error err_code_auth_failed message (sentinel err_forbidden)

-- Internal
unfoldable pub internal : Text → GoError → GoError
unfolding new_domain_error
internal message cause = new_domain_error err_code_external_service message cause
