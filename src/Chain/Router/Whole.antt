-- ===== src/Chain/Router/Whole.antt =====
-- router.go, middleware.go and metrics_middleware.go: the chain around any handler.
use internal_developer_platf.Shared.{
  ◌+◌, String, ◌≡◌, refl, ap, ◌∙◌, ◌≢◌, none, some, List, [], ◌∷◌, ◌++◌, str_eq, str_eq_ne,
  if◌then◌else◌,
}
use internal_developer_platf.Http.{Request, Ending, returned, panicked, header_get}
use internal_developer_platf.Chain.{Duration, LogLine, http_request, Telemetry, Served, Handler}
use internal_developer_platf.Chain.Layers.{
  log_request, record_duration, metrics_path, health_path, recorded_status, normalize_method,
  pattern_path, active_requests_middleware, request_duration_middleware, request_logging_middleware,
}

-- A request that is neither a scrape nor a health probe.
abbrev pub IsLogged : Request → Type 0
IsLogged request = (request.path ≢ metrics_path) × (request.path ≢ health_path)

abbrev pub route_of : Served → String
route_of s =
    if str_eq (pattern_path s.request.pattern) ""
    then s.request.path
    else pattern_path s.request.pattern

abbrev pub duration_of : Served → Duration
duration_of s = record {
  method = normalize_method s.request.method;
  status = recorded_status 200 s.ops;
  route =
      if str_eq (pattern_path s.request.pattern) ""
      then none
      else some (pattern_path s.request.pattern);
}

abbrev pub line_of : Served → LogLine
line_of s =
    http_request s.request.method (route_of s) (recorded_status 200 s.ops)
      (header_get "X-Request-Id" s.request.header)

-- What the outer layers add for a request that was served as `s`, where the inner layers have
-- added `panics` to the log.
pub record IsObserved (t : Telemetry) (panics : List LogLine) (s : Served) : Type 0 where
  pub ends : s.ending ≡ returned
  pub entered : s.telemetry.entered ≡ t.entered + 1
  pub left : s.telemetry.left ≡ t.left + 1
  pub durations : s.telemetry.durations ≡ t.durations ++ duration_of s ∷ []
  pub logs : s.telemetry.logs ≡ (t.logs ++ panics) ++ line_of s ∷ []

abbrev with_line : Served → Served
with_line s = record s {
  telemetry = record s.telemetry { logs = s.telemetry.logs ++ line_of s ∷ [] };
}

abbrev with_duration : Served → Served
with_duration s = record s {
  telemetry = record s.telemetry { durations = s.telemetry.durations ++ duration_of s ∷ [] };
}

abbrev with_left : Served → Served
with_left s = record s { telemetry = record s.telemetry { left = s.telemetry.left + 1 } }

abbrev entered_telemetry : Telemetry → Telemetry
entered_telemetry t = record t { entered = t.entered + 1 }

log_request-returned : (s : Served) (e : Ending) → e ≡ returned → log_request s e ≡ with_line s
unfolding log_request
log_request-returned s returned ends = refl
log_request-returned s (panicked value) ends = cc

record_duration-returned :
    (s : Served) (e : Ending) → e ≡ returned → record_duration s e ≡ with_duration s
unfolding record_duration
record_duration-returned s returned ends = refl
record_duration-returned s (panicked value) ends = cc

module _ (inner : Handler) (request : Request) (t : Telemetry) (logged : IsLogged request) where
  request_logging_lem :
      (inner request t).ending ≡ returned
      → request_logging_middleware inner request t ≡ with_line (inner request t)
  unfolding request_logging_middleware
  request_logging_lem ends =
      rw (str_eq_ne request.path metrics_path logged.0, str_eq_ne request.path health_path logged.1)
        (log_request-returned (inner request t) (inner request t).ending ends)

  request_duration_lem :
      (inner request t).ending ≡ returned
      → request_duration_middleware inner request t ≡ with_duration (inner request t)
  unfolding request_duration_middleware
  request_duration_lem ends =
      rw (str_eq_ne request.path metrics_path logged.0)
        (record_duration-returned (inner request t) (inner request t).ending ends)

  active_requests_lem :
      active_requests_middleware inner request t ≡ with_left (inner request (entered_telemetry t))
  unfolding active_requests_middleware
  active_requests_lem = rw (str_eq_ne request.path metrics_path logged.0)

abbrev pub Outer : Handler → Handler
Outer inner =
    active_requests_middleware (request_duration_middleware (request_logging_middleware inner))

module _ (inner : Handler) (request : Request) (t : Telemetry) (logged : IsLogged request)
    (ends : (inner request (entered_telemetry t)).ending ≡ returned) where
  outer_lem :
      Outer inner request t
      ≡ with_left (with_duration (with_line (inner request (entered_telemetry t))))
  outer_lem =
      let line = request_logging_lem inner request (entered_telemetry t) logged ends in
      active_requests_lem (request_duration_middleware (request_logging_middleware inner)) request t
        logged
      ∙ ap with_left (
          request_duration_lem (request_logging_middleware inner) request (entered_telemetry t)
            logged (ap (λ s. s.ending) line ∙ ends)
          ∙ ap with_duration line)

  pub outer-IsObserved :
      (panics : List LogLine)
      → (inner request (entered_telemetry t)).telemetry
        ≡ record t { entered = t.entered + 1; logs = t.logs ++ panics }
      → IsObserved t panics (Outer inner request t)
  outer-IsObserved panics kept = rw outer_lem (record {
    ends = ends;
    entered = ap (λ u. u.entered) kept;
    left = ap (λ u. u.left + 1) kept;
    durations =
        ap (λ u. u.durations ++ duration_of (inner request (entered_telemetry t)) ∷ []) kept;
    logs = ap (λ u. u.logs ++ line_of (inner request (entered_telemetry t)) ∷ []) kept;
  })

  pub outer_ops : (Outer inner request t).ops ≡ (inner request (entered_telemetry t)).ops
  outer_ops = ap (λ s. s.ops) outer_lem

  pub outer_ending : (Outer inner request t).ending ≡ returned
  outer_ending = ap (λ s. s.ending) outer_lem ∙ ends
