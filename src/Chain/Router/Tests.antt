-- ===== src/Chain/Router/Tests.antt =====
-- The theorems on the middleware chain, at concrete requests.
use internal_developer_platf.Shared.{
  ◌≡◌, refl, ◌++◌, none, [], ◌∷◌, arith, str_eq_iff, List, String,
}
use internal_developer_platf.Http.{
  Request, returned, panicked, write_header, write, fresh_writer, header_get, header_set, apply_op,
  apply_ops, final_response, err_code_internal_error, write_header_to, sendable,
}
use internal_developer_platf.Chain.{Telemetry, Served, Handler, after_ops}
use internal_developer_platf.Chain.Layers.{
  recorded_status, request_context_middleware, standard_headers_middleware, cors_middleware,
  metrics_path, health_path, is_allowed,
}
use internal_developer_platf.Chain.Router.{Surroundings, router_chain}
use internal_developer_platf.Chain.Router.Whole.{IsLogged, IsObserved}
use internal_developer_platf.Chain.Router.Promises.{beneath, panic_lines, request-IsObserved}
use internal_developer_platf.Chain.Router.Panics.{IsPanicRecorded, panic_answered}
use internal_developer_platf.Chain.Router.Late.{logged_status_is_sent, late_panic_misreported}

abbrev surroundings : Surroundings
surroundings = record {
  encode = λ e. 1 ∷ [];
  new_uuid = "u1";
  start_time = "t0";
  response_time = "t1";
}

abbrev origins : List String
origins = "https://app" ∷ []

abbrev quiet_start : Telemetry
quiet_start = record { entered = 4; left = 3; durations = []; logs = [] }

-- A mux whose one handler panics.
abbrev panicking : Handler
panicking request t = record {
  request = request;
  telemetry = t;
  ops = write_header 202 ∷ [];
  ending = panicked "boom";
}

abbrev posted : Request
posted = record {
  method = "POST";
  path = "/v1/provision";
  pattern = "POST /v1/provision";
  header = [];
  body = none;
}

abbrev preflight : Request
preflight = record posted { method = "OPTIONS"; header = ("Origin", "https://app" ∷ []) ∷ [] }

posted-IsLogged : IsLogged posted
posted-IsLogged = (
  ground (arith, str_eq_iff "/v1/provision" metrics_path),
  ground (arith, str_eq_iff "/v1/provision" health_path),
)

abbrev within : Request → Served
within request = beneath surroundings origins panicking request (record quiet_start { entered = 5 })

request-IsObserved_example :
    IsObserved quiet_start
      (panic_lines (within posted) (within posted).ending)
      (router_chain surroundings origins panicking posted quiet_start)
request-IsObserved_example =
    request-IsObserved surroundings origins panicking (λ r u. refl) posted quiet_start
      posted-IsLogged

-- A mux whose one handler panics at once.
abbrev broken : Handler
broken request t = record { request = request; telemetry = t; ops = []; ending = panicked "boom" }

abbrev within_broken : Served
within_broken = beneath surroundings origins broken posted (record quiet_start { entered = 5 })

panic_answered_example :
    let served = router_chain surroundings origins broken posted quiet_start in
    ((final_response (apply_ops fresh_writer served.ops)).status ≡ 500)
    × ((apply_ops fresh_writer served.ops).body
        ≡ (apply_ops fresh_writer within_broken.ops).body
          ++ surroundings.encode (record {
            code = err_code_internal_error;
            message = "An unexpected error occurred";
            request_id = header_get "X-Request-Id" within_broken.request.header;
            details = [];
          }))
    × IsPanicRecorded quiet_start "boom" within_broken served
    × (served.ending ≡ returned)
unfolding request_context_middleware standard_headers_middleware cors_middleware after_ops
    is_allowed header_get header_set apply_ops apply_op
panic_answered_example =
    panic_answered surroundings origins broken (λ r u. refl) posted quiet_start posted-IsLogged
      "boom" fresh_writer refl refl

-- A mux that answers every request with 201.
abbrev creating : Handler
creating request t = record {
  request = request;
  telemetry = t;
  ops = write_header 201 ∷ write (5 ∷ []) ∷ [];
  ending = returned;
}

logged_status_is_sent_example :
    let served = router_chain surroundings origins creating posted quiet_start in
    recorded_status 200 served.ops ≡ (final_response (apply_ops fresh_writer served.ops)).status
unfolding request_context_middleware standard_headers_middleware cors_middleware after_ops
    is_allowed header_get header_set
logged_status_is_sent_example =
    logged_status_is_sent surroundings origins creating (λ r u. refl) posted quiet_start
      posted-IsLogged fresh_writer refl (refl, tt) refl

late_panic_misreported_example :
    let sent = final_response (apply_ops fresh_writer (within posted).ops) in
    let served = router_chain surroundings origins panicking posted quiet_start in
    (final_response (apply_ops fresh_writer served.ops) ≡ sent)
    × ((apply_ops fresh_writer served.ops).body
        ≡ (apply_ops fresh_writer (within posted).ops).body
          ++ sendable sent.status (
              surroundings.encode (record {
                code = err_code_internal_error;
                message = "An unexpected error occurred";
                request_id = header_get "X-Request-Id" (within posted).request.header;
                details = [];
              })))
    × IsPanicRecorded quiet_start "boom" (within posted) served
unfolding request_context_middleware standard_headers_middleware cors_middleware after_ops
    is_allowed header_get header_set final_response apply_ops apply_op write_header_to
late_panic_misreported_example =
    late_panic_misreported surroundings origins panicking (λ r u. refl) posted quiet_start
      posted-IsLogged fresh_writer "boom"
      (final_response (apply_ops fresh_writer (within posted).ops)) refl refl
