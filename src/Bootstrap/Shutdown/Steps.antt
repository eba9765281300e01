-- ===== src/Bootstrap/Shutdown/Steps.antt =====
-- application.go: every step of New keeps the balance.
use internal_developer_platf.Shared.{
  ◌≡◌, refl, Bool, true, false, Bool-cases, inl, inr, List, [], ◌∷◌, is_ok, is_err, Result-cases,
  arith, if◌then◌else◌,
}
use internal_developer_platf.Text.{Text, text_eq}
use internal_developer_platf.Config.Settings.{Config}
use internal_developer_platf.Startup.{
  wrap_error, events, pure, lift, open_part, open_events, ◌>>=◌, follow, without, still_open,
}
use internal_developer_platf.Telemetry.{new_logs, new_tracing, new_metrics}
use internal_developer_platf.Infrastructure.{new_redis_client, connected}
use internal_developer_platf.Bootstrap.{
  Application, Libraries, in_context, is_local_mode, otlp_enabled, initialize_adapters,
  initialize_services, initialize_server, initialize_kafka, initialize_kafka_resource_service,
  initialize_local, with_logs, start_logs, with_tracing, start_tracing, initialize_metrics,
  new_aws_clients, read_parameter, read_redis_addr, load_runtime_config, dial_redis,
  initialize_redis, initialize_cloud, empty_application, new_application,
}
use internal_developer_platf.Bootstrap.Shutdown.{is_closer, held_parts}
use internal_developer_platf.Bootstrap.Shutdown.Balance.{
  Keeps, bind-Keeps, in_context-Keeps, bind_quiet-Keeps, NoOutlets, OnlyLogs, NoMetrics,
  NoPublisher, IsWired, NoOutlets-AllTelemetry,
}

module _ {D N : Type 0} where
  initialize_kafka-Keeps :
      (brokers : List Text) (swagger_path : Text) (app : Application D N)
      → NoOutlets app
      → Keeps IsWired (held_parts app) (
          initialize_kafka brokers (initialize_adapters swagger_path app) >>= λ a.
          pure (initialize_server a))
  unfolding initialize_kafka initialize_adapters initialize_server held_parts is_closer ◌>>=◌ follow
      pure open_part open_events still_open
  initialize_kafka-Keeps [] swagger_path app outlets = record {
    balanced =
        (refl, (ground (arith, outlets.0, outlets.1), ground (arith, outlets.2, outlets.3), refl));
  }
  initialize_kafka-Keeps (broker ∷ brokers) swagger_path app outlets = record {
    balanced = (simp (outlets.0, outlets.2), (ground (arith, outlets.0, outlets.1), refl, refl));
  }

  module _ (libraries : Libraries D N) where
    with_logs-Keeps :
        (cfg : Config D N) → Keeps OnlyLogs [] (with_logs libraries (empty_application cfg))
    unfolding with_logs empty_application held_parts is_closer ◌>>=◌ follow pure in_context
        wrap_error open_part open_events still_open
    with_logs-Keeps cfg = elim (Result-cases (new_logs libraries.exporters cfg.app)) [
      | is_ok started e ↦
          rw e (record { balanced = (refl, ((refl, refl, refl, refl), refl, refl)) })
      | is_err error e ↦ rw e (record { balanced = tt })
    ]

    start_logs-Keeps :
        (cfg : Config D N) → Keeps OnlyLogs [] (start_logs libraries (empty_application cfg))
    unfolding start_logs empty_application held_parts is_closer pure still_open
    start_logs-Keeps cfg = elim (Bool-cases (otlp_enabled cfg)) [
      | inl e ↦ rw e (with_logs-Keeps cfg)
      | inr e ↦ rw e (record { balanced = (refl, ((refl, refl, refl, refl), refl, refl)) })
    ]

    with_tracing-Keeps :
        (app : Application D N)
        → OnlyLogs app
        → Keeps NoMetrics (held_parts app) (with_tracing libraries app)
    unfolding with_tracing held_parts is_closer ◌>>=◌ follow pure in_context wrap_error open_part
        open_events still_open
    with_tracing-Keeps app only =
        elim (Result-cases (new_tracing libraries.exporters app.config.app)) [
          | is_ok started e ↦
              rw e (record {
                balanced = (simp (only.0.0, only.0.2, only.1, only.2), (only.0, only.1));
              })
          | is_err error e ↦ rw e (record { balanced = (NoOutlets-AllTelemetry app only.0) })
        ]

    start_tracing-Keeps :
        (app : Application D N)
        → OnlyLogs app
        → Keeps NoMetrics (held_parts app) (start_tracing libraries app)
    unfolding start_tracing pure still_open
    start_tracing-Keeps app only = elim (Bool-cases (otlp_enabled app.config)) [
      | inl e ↦ rw e (with_tracing-Keeps app only)
      | inr e ↦ rw e (record { balanced = (refl, (only.0, only.1)) })
    ]

    initialize_metrics-Keeps :
        (app : Application D N)
        → NoMetrics app
        → Keeps NoOutlets (held_parts app) (initialize_metrics libraries app)
    unfolding initialize_metrics held_parts is_closer ◌>>=◌ follow pure open_part open_events
        still_open
    initialize_metrics-Keeps app only =
        elim (Result-cases (new_metrics libraries.exporters app.config.app)) [
          | is_ok started e ↦
              rw e (record { balanced = (simp (only.0.0, only.0.2, only.1), only.0) })
          | is_err error e ↦ rw e (record { balanced = (NoOutlets-AllTelemetry app only.0) })
        ]

    new_aws_clients-Keeps :
        (app : Application D N)
        → NoOutlets app
        → Keeps NoOutlets (held_parts app) (new_aws_clients libraries app)
    unfolding new_aws_clients pure in_context lift still_open held_parts
    new_aws_clients-Keeps app outlets =
        bind_quiet-Keeps NoOutlets (held_parts app) _ _ refl (NoOutlets-AllTelemetry app outlets)
          (λ loaded. record { balanced = (refl, outlets) })

    read_redis_addr_quiet : (app : Application D N) → events (read_redis_addr libraries app) ≡ []
    unfolding read_redis_addr read_parameter in_context lift pure
    read_redis_addr_quiet app = ground arith

    load_runtime_config-Keeps :
        (app : Application D N)
        → NoOutlets app
        → Keeps NoOutlets (held_parts app) (load_runtime_config libraries app)
    unfolding load_runtime_config pure read_parameter in_context lift still_open held_parts
    load_runtime_config-Keeps app outlets =
        let telemetry = NoOutlets-AllTelemetry app outlets in
        bind_quiet-Keeps NoOutlets (held_parts app) _ _ refl telemetry (λ queue_url.
          bind_quiet-Keeps NoOutlets (held_parts app) _ _ refl telemetry (λ client_id.
            bind_quiet-Keeps NoOutlets (held_parts app) _ _ (read_redis_addr_quiet app) telemetry
              (λ addr. record { balanced = (refl, outlets) })))

    dial_redis-Keeps :
        (app : Application D N)
        → NoOutlets app
        → text_eq app.redis_addr [] ≡ false
        → Keeps NoPublisher (held_parts app) (dial_redis libraries app)
    unfolding dial_redis ◌>>=◌ follow pure new_redis_client connected lift still_open without
        held_parts is_closer
    dial_redis-Keeps app outlets given =
        rw given
          (elim (Result-cases (
            libraries.ping (record {
              addr = app.redis_addr;
              password = app.config.idempotency.redis_password;
              db = app.config.idempotency.redis_db;
              dial_timeout = app.config.idempotency.dial_timeout;
              read_timeout = app.config.idempotency.read_timeout;
              write_timeout = app.config.idempotency.write_timeout;
            }))) [
              | is_ok started e ↦
                  rw e (record { balanced = (simp (outlets.0, outlets.2), (refl, outlets.2)) })
              | is_err error e ↦ rw e (record { balanced = (NoOutlets-AllTelemetry app outlets) })
            ])

    redis_choice-Keeps :
        (app : Application D N) (unset : Bool)
        → text_eq app.redis_addr [] ≡ unset
        → NoOutlets app
        → Keeps NoPublisher (held_parts app) (if unset then pure app else dial_redis libraries app)
    unfolding pure still_open
    redis_choice-Keeps app true e outlets = record {
      balanced = (refl, (ground (arith, outlets.0, outlets.1), outlets.2));
    }
    redis_choice-Keeps app false e outlets = dial_redis-Keeps app outlets e

    initialize_redis-Keeps :
        (app : Application D N)
        → NoOutlets app
        → Keeps NoPublisher (held_parts app) (initialize_redis libraries app)
    unfolding initialize_redis
    initialize_redis-Keeps app = redis_choice-Keeps app (text_eq app.redis_addr []) refl

    finish_cloud-Keeps :
        (swagger_path : Text) (app : Application D N)
        → NoPublisher app
        → Keeps IsWired
            (held_parts app)
            (pure (initialize_server (initialize_services (initialize_adapters swagger_path app))))
    unfolding pure initialize_server initialize_services initialize_adapters still_open held_parts
        is_closer
    finish_cloud-Keeps swagger_path app before = record {
      balanced = (simp before.1, (before.0, refl, refl));
    }

    initialize_cloud-Keeps :
        (swagger_path : Text) (app : Application D N)
        → NoOutlets app
        → Keeps IsWired (held_parts app) (initialize_cloud libraries swagger_path app)
    unfolding initialize_cloud
    initialize_cloud-Keeps swagger_path app outlets =
        bind-Keeps NoOutlets IsWired (held_parts app) _ _
          (in_context-Keeps _ _ (new_aws_clients-Keeps app outlets))
          (λ app₁ outlets₁.
            bind-Keeps NoOutlets IsWired (held_parts app₁) _ _
              (in_context-Keeps _ _ (load_runtime_config-Keeps app₁ outlets₁))
              (λ app₂ outlets₂.
                bind-Keeps NoPublisher IsWired (held_parts app₂) _ _
                  (in_context-Keeps _ _ (initialize_redis-Keeps app₂ outlets₂))
                  (finish_cloud-Keeps swagger_path)))

    start_service-Keeps :
        (cfg : Config D N) (swagger_path : Text) (app : Application D N)
        → NoOutlets app
        → Keeps IsWired (held_parts app) (
            if is_local_mode cfg
            then initialize_local swagger_path app
            else initialize_cloud libraries swagger_path app)
    unfolding initialize_local initialize_kafka_resource_service initialize_adapters
    start_service-Keeps cfg swagger_path app outlets = elim (Bool-cases (is_local_mode cfg)) [
      | inl e ↦
          rw e (initialize_kafka-Keeps app.config.messaging.kafka_brokers swagger_path app outlets)
      | inr e ↦ rw e (initialize_cloud-Keeps swagger_path app outlets)
    ]

    pub new_application-Keeps :
        (cfg : Config D N) (swagger_path : Text)
        → Keeps IsWired [] (new_application libraries cfg swagger_path)
    unfolding new_application
    new_application-Keeps cfg swagger_path =
        bind-Keeps OnlyLogs IsWired [] _ _ (start_logs-Keeps cfg) (λ app₁ only₁.
          bind-Keeps NoMetrics IsWired (held_parts app₁) _ _ (start_tracing-Keeps app₁ only₁)
            (λ app₂ only₂.
              bind-Keeps NoOutlets IsWired (held_parts app₂) _ _
                (in_context-Keeps _ _ (initialize_metrics-Keeps app₂ only₂))
                (start_service-Keeps cfg swagger_path)))
