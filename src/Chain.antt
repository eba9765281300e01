-- ===== src/Chain.antt =====
-- services/api/internal/adapters/inbound/http: middleware.go and metrics_middleware.go. A handler
-- shares its request with the layers around it, so it returns the request as it leaves it.
pub mod Layers
pub mod Router
use internal_developer_platf.Shared.{
  ℕ, ◌+◌, String, Bool, true, false, not, ◌&&◌, ◌||◌, Option, none, some, List, [], ◌∷◌, ◌++◌,
  str_eq, if◌then◌else◌,
}
use internal_developer_platf.Http.{
  Request, WriterOp, Ending, returned, set_header, write_header, write,
}

-- A point of the histogram http.server.request.duration; the route is left out where no route
-- matched.
pub record Duration : Type 0 where
  pub method : String
  pub status : ℕ
  pub route : Option String

pub data LogLine : Type 0 where
  -- "http request": method, route, status, request id
  http_request : String → String → ℕ → String → LogLine
  -- "http request panic recovered": error, method, path, request id
  panic_recovered : String → String → String → String → LogLine

-- The gauge http.server.active_requests is `entered` less `left`.
pub record Telemetry : Type 0 where
  pub entered : ℕ
  pub left : ℕ
  pub durations : List Duration
  pub logs : List LogLine

pub record Served : Type 0 where
  pub request : Request
  pub telemetry : Telemetry
  pub ops : List WriterOp
  pub ending : Ending

abbrev pub Handler : Type 0
Handler = Request → Telemetry → Served

-- ChainMiddleware: the first is outermost.
unfoldable pub chain_middleware : Handler → List (Handler → Handler) → Handler
chain_middleware handler [] = handler
chain_middleware handler (m ∷ middlewares) = m (chain_middleware handler middlewares)

-- A handler called through a middleware that writes `ops` first.
unfoldable pub after_ops : List WriterOp → Served → Served
after_ops ops served = record served { ops = ops ++ served.ops }
