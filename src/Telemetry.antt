-- ===== src/Telemetry.antt =====
-- services/api/internal/telemetry: resource.go, tracing.go, logs.go and metrics.go, over the
-- constructors of the exporters.
use internal_developer_platf.Shared.{String, List, [], ◌∷◌, Result, ok, err, if◌then◌else◌}
use internal_developer_platf.Text.{Text, codes, text_eq}
use internal_developer_platf.Config.Settings.{AppConfig}
use internal_developer_platf.Startup.{WrappedError, wrap_error}

-- What the pipelines call: the constructors of the exporters, and resource.Merge on the attributes.
pub record Exporters : Type 0 where
  pub trace : Result WrappedError (Unit {0})
  pub log : Result WrappedError (Unit {0})
  pub prometheus : Result WrappedError (Unit {0})
  pub merge : List (String × Text) → Result WrappedError (Unit {0})

unfoldable pub service_version : Text → List (String × Text)
service_version version = if text_eq version [] then [] else ("service.version", version) ∷ []

-- The attributes of newResource.
unfoldable pub api_attributes : AppConfig → List (String × Text)
api_attributes app =
    ("service.name", app.service_name)
    ∷ ("deployment.environment", app.environment)
    ∷ service_version app.version

-- newResource
unfoldable pub new_resource : Exporters → AppConfig → Result WrappedError (Unit {0})
new_resource exporters app =
    wrap_error (codes "building telemetry resource") (exporters.merge (api_attributes app))

-- An exporter, then the resource; the provider's constructor does not fail.
unfoldable pub new_provider :
    String
    → Result WrappedError (Unit {0})
    → Result WrappedError (Unit {0})
    → Result WrappedError (Unit {0})
new_provider context (err e) resource = wrap_error (codes context) (err e)
new_provider context (ok u) resource = resource

module _ (exporters : Exporters) (app : AppConfig) where
  -- NewTracing
  unfoldable pub new_tracing : Result WrappedError (Unit {0})
  new_tracing =
      new_provider "creating otlp trace exporter" exporters.trace (new_resource exporters app)

  -- NewLogs
  unfoldable pub new_logs : Result WrappedError (Unit {0})
  new_logs = new_provider "creating otlp log exporter" exporters.log (new_resource exporters app)

  -- NewMetrics
  unfoldable pub new_metrics : Result WrappedError (Unit {0})
  new_metrics =
      new_provider "creating prometheus exporter" exporters.prometheus (new_resource exporters app)
