-- ===== src/Handlers/Tests.antt =====
-- The theorems on the handlers, at a concrete body.
use internal_developer_platf.Shared.{◌≡◌, false, some, none, [], ◌∷◌, err}
use internal_developer_platf.Text.{codes, CaseTables}
use internal_developer_platf.Http.{Request}
use internal_developer_platf.Logger.{warn_level, error_level}
use internal_developer_platf.Handlers.Validation.{FieldError}
use internal_developer_platf.Handlers.Answers.{observed, handlers_answer}
use internal_developer_platf.Handlers.Responses.{
  SignUpRequest, SignInRequest, ConfirmSignUpRequest, Resource, Encoders,
}
use internal_developer_platf.Handlers.{sign_up, sign_in, confirm_sign_up, provision}

abbrev ascii : CaseTables
ascii = record { lower = λ c. c; upper = λ c. c }

abbrev encoders : Encoders
encoders = record {
  error = λ e. 1 ∷ [];
  created = λ p. 2 ∷ [];
  tokens = λ p. 3 ∷ [];
  message = λ p. 4 ∷ [];
  accepted = λ p. 5 ∷ [];
}

abbrev signing_up : SignUpRequest
signing_up = record { email = "a@b.c"; password = "SecureP@ss123" }

abbrev signing_in : SignInRequest
signing_in = record { email = "a@b.c"; password = "SecureP@ss123" }

abbrev confirming : ConfirmSignUpRequest
confirming = record { email = "a@b.c"; confirmation_code = "123456" }

abbrev vm : Resource
vm = record {
  id = "vm-001";
  resource_type = "VM";
  cloud_provider = "AWS";
  specification = "t2.micro";
  status = "pending";
  requested_by = "rafael";
}

abbrev too_short : FieldError
too_short = record {
  field = codes "ConfirmationCode";
  tag = codes "min";
  param = codes "6";
  value = codes "1";
}

abbrev posted : Request
posted = record {
  method = "POST";
  path = "/v1/provision";
  pattern = "";
  header = [];
  body = some (7 ∷ []);
}

handlers_answer_example :
    (observed (
        sign_up encoders ascii "t"
          (record { decode = λ b. some signing_up; check = λ r. [] })
          (λ r. some "exists")
          posted)
      ≡ (
        signing_up ∷ [],
        (record {
          level = error_level;
          component = "auth_handler";
          error = some "exists";
          email = none;
          message = "auth.signup: service error";
        }
            ∷ []),
        500,
      ))
    × (observed (
          sign_in encoders ascii "t"
            (record { decode = λ b. some signing_in; check = λ r. [] })
            (λ r. err "denied")
            posted)
        ≡ (
          signing_in ∷ [],
          (record {
            level = warn_level;
            component = "auth_handler";
            error = some "denied";
            email = none;
            message = "auth.signin: unauthorized";
          }
              ∷ []),
          401,
        ))
    × (observed (
          confirm_sign_up encoders ascii "t"
            (record { decode = λ b. some confirming; check = λ r. too_short ∷ [] })
            (λ r. none)
            posted)
        ≡ ([], [], 400))
    × (observed (
          provision encoders ascii "t"
            (record { decode = λ b. some vm; check = λ r. [] })
            (λ r. false)
            posted)
        ≡ (vm ∷ [], [], 202))
handlers_answer_example =
    handlers_answer encoders ascii "t" (record { decode = λ b. some signing_up; check = λ r. [] })
      (record { decode = λ b. some signing_in; check = λ r. [] })
      (record { decode = λ b. some confirming; check = λ r. too_short ∷ [] })
      (record { decode = λ b. some vm; check = λ r. [] }) (λ r. some "exists") (λ r. err "denied")
      (λ r. none) (λ r. false) posted
