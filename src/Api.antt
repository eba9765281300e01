-- ===== src/Api.antt =====
-- services/api/internal/adapters/inbound/http/router.go: the configuration, the routes and what
-- stands behind POST /v1/provision. The mux itself is net/http's.
pub mod Provisioning
pub mod Swagger
mod Tests
use internal_developer_platf.Shared.{
  ℕ, String, Bool, true, false, Option, none, some, List, [], ◌∷◌, ◌++◌, ◌==◌, not, if◌then◌else◌,
}
use internal_developer_platf.Http.{Request, Script, Writer, Ending, returned, apply_ops}
use internal_developer_platf.DomainErrors.{is_nil}
use internal_developer_platf.Idempotency.Program.{Program, done, serve_next}
use internal_developer_platf.Idempotency.Store.{IdempotencyStore}
use internal_developer_platf.Idempotency.Middleware.{Platform, idempotency_middleware}
use internal_developer_platf.Text.{CaseTables}
use internal_developer_platf.Handlers.Responses.{Resource, Encoders}
use internal_developer_platf.Handlers.{Schema, Handled, provision}
use internal_developer_platf.Services.{ResourcePublisher, send_provisioning_request}

-- 24 * time.Hour, in milliseconds.
abbrev pub one_day : ℕ
one_day = 86400000

pub record RouterConfig (Raw : Type 0) : Type 0 where
  pub allowed_origins : List String
  pub idempotency_store : Option (IdempotencyStore Raw)
  pub idempotency_ttl : ℕ
  -- whether MetricsHandler is not nil
  pub has_metrics_handler : Bool

-- DefaultRouterConfig
unfoldable pub default_router_config : {Raw : Type 0} → RouterConfig Raw
default_router_config = record {
  allowed_origins = "*" ∷ [];
  idempotency_store = none;
  idempotency_ttl = one_day;
  has_metrics_handler = false;
}

pub data Endpoint : Type 0 where
  provision_endpoint health_endpoint metrics_endpoint sign_up_endpoint sign_in_endpoint
        confirm_endpoint swagger_endpoint :
      Endpoint

metrics_route : Bool → List (String × Endpoint)
metrics_route true = ("GET /metrics", metrics_endpoint) ∷ []
metrics_route false = []

-- The patterns that NewRouterWithConfig registers, in order.
unfoldable pub routes : {Raw : Type 0} → RouterConfig Raw → List (String × Endpoint)
unfolding metrics_route
routes config =
    ("POST /v1/provision", provision_endpoint)
    ∷ ("GET /v1/health", health_endpoint)
    ∷ (metrics_route config.has_metrics_handler
        ++ (("POST /v1/auth/signup", sign_up_endpoint)
            ∷ ("POST /v1/auth/signin", sign_in_endpoint)
            ∷ ("POST /v1/auth/confirm", confirm_endpoint)
            ∷ ("GET /v1/swagger", swagger_endpoint)
            ∷ ("GET /v1/swagger/", swagger_endpoint)
            ∷ []))

unfoldable pub ttl_or_day : ℕ → ℕ
ttl_or_day ttl = if ttl == 0 then one_day else ttl

guarded :
    {Raw : Type 0}
    → Platform
    → Option (IdempotencyStore Raw)
    → ℕ
    → Request
    → Writer
    → Program Raw (Writer × Ending)
guarded platform none ttl request w =
    serve_next request (λ script. done (apply_ops w script.ops, script.ending))
guarded platform (some store) ttl request w =
    idempotency_middleware platform store (ttl_or_day ttl) request w

-- The handler of POST /v1/provision: Provision, behind the idempotency middleware where there is a
-- store.
unfoldable pub provision_route :
    {Raw : Type 0} → Platform → RouterConfig Raw → Request → Writer → Program Raw (Writer × Ending)
unfolding guarded
provision_route platform config request w =
    guarded platform config.idempotency_store config.idempotency_ttl request w

-- Provision over the resource service and its publisher.
module _ (json : Encoders) (tables : CaseTables) (now : String) (schema : Schema Resource)
    (publisher : ResourcePublisher) where
  unfoldable pub provisioning : Request → Handled Resource
  provisioning =
      provision json tables now schema (λ r. not (is_nil (send_provisioning_request publisher r)))

  unfoldable pub provision_script : Request → Script
  provision_script request = record { ops = (provisioning request).ops; ending = returned }
