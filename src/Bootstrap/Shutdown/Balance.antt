-- ===== src/Bootstrap/Shutdown/Balance.antt =====
-- application.go: what New has opened is what Shutdown closes.
use internal_developer_platf.Shared.{
  ◌≡◌, Bool, true, false, none, List, [], ◌++◌, Result, ok, err, All, arith, String,
}
use internal_developer_platf.Startup.{
  WrappedError, wrap_error, Part, logs_part, tracing_part, metrics_part, redis_part, publisher_part,
  Event, Run, did, events, result, ◌>>=◌, follow, still_open, still_open-append,
}
use internal_developer_platf.Bootstrap.{Application, in_context, initialize_server}
use internal_developer_platf.Bootstrap.Shutdown.{is_closer, is_some, part_if, held_parts}

abbrev pub is_telemetry : Part → Bool
is_telemetry logs_part = true
is_telemetry tracing_part = true
is_telemetry metrics_part = true
is_telemetry redis_part = false
is_telemetry publisher_part = false

abbrev pub AllTelemetry : List Part → Type 0
AllTelemetry = All (λ p. is_telemetry p ≡ true)

telemetry_parts :
    (m t l : Bool)
    → AllTelemetry (part_if m metrics_part ++ (part_if t tracing_part ++ part_if l logs_part))
telemetry_parts m t l = ground arith

module _ {D N : Type 0} where
  -- After a step that began with the parts `held` open, the open parts are those of the application
  -- that it gives, in the order of Shutdown, and where it fails only telemetry is open.
  abbrev pub Balanced :
      (Application D N → Type 0)
      → List Part
      → List Event
      → Result WrappedError (Application D N)
      → Type 0
  Balanced P held events (ok app) = (still_open held events ≡ held_parts app) × P app
  Balanced P held events (err e) = AllTelemetry (still_open held events)

  pub record Keeps (P : Application D N → Type 0) (held : List Part) (r : Run (Application D N))
      : Type 0 where
    pub balanced : Balanced P held (events r) (result r)

  Balanced-append :
      (P : Application D N → Type 0) (held : List Part) (es more : List Event)
      (r : Result WrappedError (Application D N))
      → Balanced P (still_open held es) more r
      → Balanced P held (es ++ more) r
  Balanced-append P held es more (ok app) b = rw (still_open-append held es more) b
  Balanced-append P held es more (err e) b = rw (still_open-append held es more) b

  -- A step and the rest.
  pub bind-Keeps :
      (P Q : Application D N → Type 0) (held : List Part) (r : Run (Application D N))
      (f : Application D N → Run (Application D N))
      → Keeps P held r
      → ((app : Application D N) → P app → Keeps Q (held_parts app) (f app))
      → Keeps Q held (r >>= f)
  unfolding ◌>>=◌ follow
  bind-Keeps P Q held (did es (ok app)) f kept step = record {
    balanced =
        Balanced-append Q held es (events (f app)) (result (f app))
          (rw kept.balanced.0 (step app kept.balanced.1).balanced);
  }
  bind-Keeps P Q held (did es (err e)) f kept step = record { balanced = kept.balanced }

  pub in_context-Keeps :
      {P : Application D N → Type 0} {held : List Part} (context : String)
      (r : Run (Application D N))
      → Keeps P held r
      → Keeps P held (in_context context r)
  unfolding in_context wrap_error
  in_context-Keeps context (did es (ok app)) kept = record { balanced = kept.balanced }
  in_context-Keeps context (did es (err e)) kept = record { balanced = kept.balanced }

  -- A step that opens nothing and gives a value to the rest.
  pub bind_quiet-Keeps :
      {A : Type 0} (P : Application D N → Type 0) (held : List Part) (r : Run A)
      (f : A → Run (Application D N))
      → events r ≡ []
      → AllTelemetry held
      → ((a : A) → Keeps P held (f a))
      → Keeps P held (r >>= f)
  unfolding ◌>>=◌ follow still_open
  bind_quiet-Keeps P held (did es (ok a)) f quiet telemetry step = record {
    balanced = rw quiet (step a).balanced;
  }
  bind_quiet-Keeps P held (did es (err e)) f quiet telemetry step = record {
    balanced = rw quiet telemetry;
  }

  -- Nothing yet that Redis or the publisher needs.
  abbrev pub NoOutlets : Application D N → Type 0
  NoOutlets app =
      (app.redis_client ≡ none)
      × (app.has_idempotency_store ≡ false)
      × (app.resource_publisher ≡ none)
      × (app.resource_service ≡ none)

  abbrev pub OnlyLogs : Application D N → Type 0
  OnlyLogs app = NoOutlets app × (app.has_metrics ≡ false) × (app.has_tracing ≡ false)

  abbrev pub NoMetrics : Application D N → Type 0
  NoMetrics app = NoOutlets app × (app.has_metrics ≡ false)

  abbrev pub NoPublisher : Application D N → Type 0
  NoPublisher app =
      (app.has_idempotency_store ≡ is_some app.redis_client) × (app.resource_publisher ≡ none)

  -- There is a store exactly where there is a Redis client, the service publishes with the publisher
  -- that Shutdown closes, and the server was made with the configuration and the store.
  abbrev pub IsWired : Application D N → Type 0
  IsWired app =
      (app.has_idempotency_store ≡ is_some app.redis_client)
      × (app.resource_service ≡ app.resource_publisher)
      × (app.server ≡ (initialize_server app).server)

  pub NoOutlets-AllTelemetry :
      (app : Application D N) → NoOutlets app → AllTelemetry (held_parts app)
  unfolding held_parts is_closer
  NoOutlets-AllTelemetry app outlets =
      rw (outlets.0, outlets.2) (telemetry_parts app.has_metrics app.has_tracing app.has_logs)
