-- ===== src/Chain/Layers.antt =====
-- middleware.go and metrics_middleware.go: the middlewares one by one.
use Prim.Native.Char.{code}
use internal_developer_platf.Shared.{
  ℕ, ◌+◌, String, Bool, true, false, not, ◌&&◌, ◌||◌, Option, none, some, List, [], ◌∷◌, ◌++◌,
  str_eq, if◌then◌else◌, ◌==◌,
}
use internal_developer_platf.Http.{
  Header, ErrorResponse, WriterOp, Ending, returned, panicked, set_header, write_header, write,
  header_get, header_set, respond_with_error, err_code_internal_error,
}
use internal_developer_platf.Chain.{
  Duration, http_request, panic_recovered, Telemetry, Served, Handler, after_ops,
}

abbrev pub metrics_path : String
metrics_path = "/metrics"

abbrev pub health_path : String
health_path = "/v1/health"

abbrev pub api_version : String
api_version = "v1"

-- statusRecorder: the status of the last WriteHeader, or else the one that it starts with.
unfoldable pub recorded_status : ℕ → List WriterOp → ℕ
recorded_status status [] = status
recorded_status status (write_header code ∷ ops) = recorded_status code ops
recorded_status status (set_header name value ∷ ops) = recorded_status status ops
recorded_status status (write bytes ∷ ops) = recorded_status status ops

-- normalizeMethod
unfoldable pub normalize_method : String → String
normalize_method method =
    if str_eq method "GET"
      || str_eq method "HEAD"
      || str_eq method "POST"
      || str_eq method "PUT"
      || str_eq method "PATCH"
      || str_eq method "DELETE"
      || str_eq method "CONNECT"
      || str_eq method "OPTIONS"
      || str_eq method "TRACE"
    then method
    else "_OTHER"

-- patternPath, over the text behind the first space: `none` where there is no space.
unfoldable pub after_space : String → Option String
after_space String.[] = none
after_space (String.◌∷◌ c s) = let rest = after_space s in if code c == b' ' then some s else rest

unfoldable pub pattern_path : String → String
pattern_path pattern = elim (after_space pattern) [ some path ↦ path | none ↦ pattern ]

enter : Telemetry → Telemetry
enter t = record t { entered = t.entered + 1 }

leave : Served → Served
leave served = record served {
  telemetry = record served.telemetry { left = served.telemetry.left + 1 };
}

-- ActiveRequestsMiddleware, with its instrument in place: the decrement is deferred, so it follows
-- a panic too.
unfoldable pub active_requests_middleware : Handler → Handler
unfolding enter leave
active_requests_middleware next request t =
    if str_eq request.path metrics_path then next request t else leave (next request (enter t))

-- The instrumentation after next.ServeHTTP, which a panic passes by.
unfoldable pub record_duration : Served → Ending → Served
record_duration served (panicked value) = served
record_duration served returned =
    let route = pattern_path served.request.pattern in
    let point : Duration = record {
      method = normalize_method served.request.method;
      status = recorded_status 200 served.ops;
      route = if str_eq route "" then none else some route;
    } in
    record served {
      telemetry = record served.telemetry { durations = served.telemetry.durations ++ point ∷ [] };
    }

-- RequestDurationMiddleware, with its instrument in place; the duration itself is left out.
unfoldable pub request_duration_middleware : Handler → Handler
unfolding record_duration
request_duration_middleware next request t =
    if str_eq request.path metrics_path
    then next request t
    else let served = next request t in record_duration served served.ending

unfoldable pub log_request : Served → Ending → Served
log_request served (panicked value) = served
log_request served returned =
    let pattern = pattern_path served.request.pattern in
    let route = if str_eq pattern "" then served.request.path else pattern in
    let line =
      http_request served.request.method route (recorded_status 200 served.ops)
        (header_get "X-Request-Id" served.request.header) in
    record served {
      telemetry = record served.telemetry { logs = served.telemetry.logs ++ line ∷ [] };
    }

-- RequestLoggingMiddleware; the duration is left out.
unfoldable pub request_logging_middleware : Handler → Handler
unfolding log_request
request_logging_middleware next request t =
    if str_eq request.path metrics_path || str_eq request.path health_path
    then next request t
    else let served = next request t in log_request served served.ending

module _ (encode : ErrorResponse → List ℕ) where
  unfoldable pub recover_panic : Served → Ending → Served
  unfolding respond_with_error
  recover_panic served returned = served
  recover_panic served (panicked value) =
      let request_id = header_get "X-Request-Id" served.request.header in
      let line = panic_recovered value served.request.method served.request.path request_id in
      record served {
        telemetry = record served.telemetry { logs = served.telemetry.logs ++ line ∷ [] };
        ops =
            served.ops
            ++ respond_with_error encode 500 (record {
              code = err_code_internal_error;
              message = "An unexpected error occurred";
              request_id = request_id;
              details = [];
            });
        ending = returned;
      }

  -- RecoveryMiddleware; the stack trace is left out of the log line.
  unfoldable pub recovery_middleware : Handler → Handler
  unfolding recover_panic
  recovery_middleware next request t =
      let served = next request t in recover_panic served served.ending

-- RequestContextMiddleware, at a time that is written as RFC 3339.
unfoldable pub request_context_middleware : String → Handler → Handler
request_context_middleware now next request t =
    next (record request { header = header_set "X-Request-Start" now request.header }) t

-- The request id: the caller's, or the gateway's trace id, or a new one.
unfoldable pub choose_request_id : String → Header → String
choose_request_id generated header =
    let own = header_get "X-Request-Id" header in
    let trace = header_get "X-Amzn-Trace-Id" header in
    let first = if str_eq own "" then trace else own in if str_eq first "" then generated else first

abbrev pub standard_headers : String → String → List WriterOp
standard_headers request_id now =
    set_header "X-Request-Id" request_id
    ∷ set_header "X-Content-Type-Options" "nosniff"
    ∷ set_header "X-Frame-Options" "DENY"
    ∷ set_header "X-Xss-Protection" "1; mode=block"
    ∷ set_header "Cache-Control" "no-store, no-cache, must-revalidate"
    ∷ set_header "Pragma" "no-cache"
    ∷ set_header "X-Api-Version" api_version
    ∷ set_header "X-Response-Time" now
    ∷ []

-- StandardHeadersMiddleware, with a new UUID and the time of the response.
unfoldable pub standard_headers_middleware : String → String → Handler → Handler
unfolding after_ops
standard_headers_middleware generated now next request t =
    let request_id = choose_request_id generated request.header in
    after_ops (standard_headers request_id now)
      (next (record request { header = header_set "X-Request-Id" request_id request.header }) t)

-- The search for an allowed origin.
unfoldable pub is_allowed : List String → String → Bool
is_allowed [] origin = false
is_allowed (o ∷ origins) origin =
    let rest = is_allowed origins origin in if str_eq o "*" || str_eq o origin then true else rest

abbrev pub cors_headers : String → List WriterOp
cors_headers origin =
    set_header "Access-Control-Allow-Origin" origin
    ∷ set_header "Access-Control-Allow-Credentials" "true"
    ∷ set_header "Access-Control-Expose-Headers"
        "X-Request-Id, X-API-Version, X-RateLimit-Limit, X-RateLimit-Remaining, X-RateLimit-Reset"
    ∷ []

abbrev pub preflight_headers : List WriterOp
preflight_headers =
    set_header "Access-Control-Allow-Methods" "GET, POST, PUT, PATCH, DELETE, OPTIONS"
    ∷ set_header "Access-Control-Allow-Headers"
        "Authorization, Content-Type, X-Request-Id, X-Idempotency-Key"
    ∷ set_header "Access-Control-Max-Age" "86400"
    ∷ write_header 204
    ∷ []

-- CORSMiddleware
unfoldable pub cors_middleware : List String → Handler → Handler
unfolding after_ops
cors_middleware origins next request t =
    let origin = header_get "Origin" request.header in
    let allowed =
      if is_allowed origins origin && not (str_eq origin "") then cors_headers origin else [] in
    if str_eq request.method "OPTIONS"
    then (record {
      request = request;
      telemetry = t;
      ops = allowed ++ preflight_headers;
      ending = returned;
    })
    else after_ops allowed (next request t)
