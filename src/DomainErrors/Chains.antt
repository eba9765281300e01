-- ===== src/DomainErrors/Chains.antt =====
-- errors.go: what errors.Is finds in a chain of causes.
use internal_developer_platf.Shared.{
  String, ◌≡◌, refl, ◌↔◌, true, Option, none, some, str_eq, str_eq_iff, arith, if◌then◌else◌,
}
use internal_developer_platf.Text.{Text}
use internal_developer_platf.DomainErrors.{
  GoError, nil_error, sentinel, domain_error, is_nil, error_is, unwrap, new_domain_error,
  with_detail, not_found, already_exists, invalid_input, unauthorized, forbidden, internal,
  err_not_found, err_already_exists, err_invalid_input, err_unauthorized, err_forbidden,
}

-- The code of a domain error.
abbrev pub code_of : GoError → Option String
code_of (domain_error code message cause details) = some code
code_of _ = none

-- An error stands for its cause: nil for nil, and else one with this code that unwraps to the cause.
abbrev pub Reports : String → GoError → GoError → Type 0
Reports code nil_error e = e ≡ nil_error
Reports code cause e = (code_of e ≡ some code) × (unwrap e ≡ cause)

-- The error at the bottom of a chain of causes.
abbrev pub root : GoError → Option String
root nil_error = none
root (sentinel text) = some text
root (domain_error code message cause details) = root cause

-- errors.Is finds a sentinel in a chain of causes exactly where it is the error at the bottom.
pub error_is_iff :
    (e : GoError) (target : String) → (error_is e target ≡ true) ↔ (root e ≡ some target)
unfolding error_is
error_is_iff nil_error target = ground arith
error_is_iff (sentinel text) target = ground (arith, str_eq_iff text target)
error_is_iff (domain_error code message cause details) target =
    ground (arith, error_is_iff cause target)

abbrev pub detail : String → GoError → Option Text
detail key (domain_error code message cause details) = details key
detail key _ = none

-- A detail that is added to a domain error is found under its key, the others stay, and neither
-- what the error unwraps to nor what errors.Is finds in it changes.
pub with_detail_lem :
    (key name target code : String) (value message : Text) (cause : GoError)
    (details : String → Option Text)
    → let e = domain_error code message cause details in
      (detail name (with_detail key value e)
        ≡ (if str_eq name key then some value else detail name e))
      × (unwrap (with_detail key value e) ≡ unwrap e)
      × (error_is (with_detail key value e) target ≡ error_is e target)
unfolding with_detail unwrap error_is
with_detail_lem key name target code value message cause details = (refl, refl, refl)

-- Each constructor of a domain error makes one in which errors.Is finds the sentinel that it is
-- named for, or for Internal what it finds in the cause, and nothing else.
pub constructors_match :
    (resource id message : Text) (cause : GoError) (target : String)
    → (error_is (not_found resource id) target ≡ str_eq err_not_found target)
      × (error_is (already_exists resource id) target ≡ str_eq err_already_exists target)
      × (error_is (invalid_input message) target ≡ str_eq err_invalid_input target)
      × (error_is (unauthorized message) target ≡ str_eq err_unauthorized target)
      × (error_is (forbidden message) target ≡ str_eq err_forbidden target)
      × (error_is (internal message cause) target ≡ error_is cause target)
unfolding error_is new_domain_error not_found already_exists invalid_input unauthorized forbidden
    internal is_nil
constructors_match resource id message cause target =
    (ground arith, ground arith, ground arith, ground arith, ground arith, ground arith)
