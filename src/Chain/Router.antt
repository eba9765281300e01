-- ===== src/Chain/Router.antt =====
-- router.go: the middleware chain of NewRouterWithConfig, around any handler for its routes.
pub mod Whole
pub mod Promises
pub mod Panics
pub mod Late
mod Tests
use internal_developer_platf.Shared.{ℕ, String, List, [], ◌∷◌}
use internal_developer_platf.Http.{ErrorResponse}
use internal_developer_platf.Chain.{Handler, chain_middleware}
use internal_developer_platf.Chain.Layers.{
  active_requests_middleware, request_duration_middleware, request_logging_middleware,
  recovery_middleware, request_context_middleware, standard_headers_middleware, cors_middleware,
}

-- What the layers take from outside for one request: the JSON encoder, a new UUID and the times.
pub record Surroundings : Type 0 where
  pub encode : ErrorResponse → List ℕ
  pub new_uuid : String
  pub start_time : String
  pub response_time : String

-- The chain that NewRouterWithConfig returns, for its mux.
unfoldable pub router_chain : Surroundings → List String → Handler → Handler
unfolding chain_middleware
router_chain env allowed_origins mux = chain_middleware mux (
    active_requests_middleware
    ∷ request_duration_middleware
    ∷ request_logging_middleware
    ∷ recovery_middleware env.encode
    ∷ request_context_middleware env.start_time
    ∷ standard_headers_middleware env.new_uuid env.response_time
    ∷ cors_middleware allowed_origins
    ∷ [])
