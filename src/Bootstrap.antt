-- ===== src/Bootstrap.antt =====
-- services/api/internal/bootstrap/application.go: New. What it logs is left out.
pub mod Shutdown
pub mod Local
pub mod Examples
mod Tests
pub mod Parts
pub use Parts.*
use internal_developer_platf.Shared.{
  ℕ, String, Bool, true, false, not, ◌&&◌, Option, none, some, List, [], ◌∷◌, ◌++◌, Result, ok, err,
  if◌then◌else◌,
}
use internal_developer_platf.Text.{Text, codes, text_eq}
use internal_developer_platf.Config.Settings.{Config, ServerConfig}
use internal_developer_platf.Startup.{
  WrappedError, wrap_error, Run, did, pure, lift, open_part, ◌>>=◌, logs_part, tracing_part,
  metrics_part, publisher_part,
}
use internal_developer_platf.Telemetry.{new_logs, new_tracing, new_metrics}
use internal_developer_platf.Infrastructure.{
  SsmClient, RedisConfig, get_parameter, new_redis_client,
}

-- A run whose error is wrapped.
pub in_context : {A : Type 0} → String → Run A → Run A
in_context context (did es r) = did es (wrap_error (codes context) r)

module _ {D N : Type 0} where
  -- isLocalMode
  pub is_local_mode : Config D N → Bool
  is_local_mode cfg = text_eq cfg.app.environment (codes "local")

  pub otlp_enabled : Config D N → Bool
  otlp_enabled cfg = cfg.app.enable_tracing && not (is_local_mode cfg)

  -- initializeAdapters
  pub initialize_adapters : Text → Application D N → Application D N
  initialize_adapters swagger_path app = record app { swagger_path = some swagger_path }

  -- initializeServices
  pub initialize_services : Application D N → Application D N
  initialize_services app = record app {
    resource_publisher = some (sqs_publisher app.provisioner_queue_url);
    resource_service = some (sqs_publisher app.provisioner_queue_url);
    auth_service = some app.cognito_client_id;
  }

  -- initializeServer
  pub initialize_server : Application D N → Application D N
  initialize_server app = record app {
    server = some (record {
      settings = app.config.server;
      router = record {
        allowed_origins = app.config.app.allowed_origins;
        has_idempotency_store = app.has_idempotency_store;
        idempotency_ttl = app.config.idempotency.ttl;
      };
      stripped =
          if otlp_enabled app.config then some (codes "/" ++ app.config.app.environment) else none;
    });
  }

  initialize_kafka : List Text → Application D N → Run (Application D N)
  initialize_kafka [] app = pure app
  initialize_kafka (broker ∷ brokers) app =
      let publisher = some (kafka_publisher (broker ∷ brokers) app.config.messaging.kafka_topic) in
      open_part publisher_part
        (ok (record app { resource_publisher = publisher; resource_service = publisher }))

  -- initializeKafkaResourceService: making the writer opens a part.
  pub initialize_kafka_resource_service : Application D N → Run (Application D N)
  initialize_kafka_resource_service app = initialize_kafka app.config.messaging.kafka_brokers app

  -- initializeLocal
  pub initialize_local : Text → Application D N → Run (Application D N)
  initialize_local swagger_path app = do
    app ← initialize_kafka_resource_service (initialize_adapters swagger_path app)
    pure (initialize_server app)

  -- The application that New begins with.
  pub empty_application : Config D N → Application D N
  empty_application cfg = record {
    config = cfg;
    has_aws_clients = false;
    has_metrics = false;
    has_tracing = false;
    has_logs = false;
    provisioner_queue_url = [];
    cognito_client_id = [];
    redis_addr = [];
    redis_client = none;
    has_idempotency_store = false;
    resource_publisher = none;
    resource_service = none;
    auth_service = none;
    swagger_path = none;
    server = none;
  }

  module _ (libraries : Libraries D N) where
    with_logs : Application D N → Run (Application D N)
    with_logs app = do
      started ←
          in_context "failed to initialize logs pipeline"
            (open_part logs_part (new_logs libraries.exporters app.config.app))
      pure (record app { has_logs = true })

    start_logs : Application D N → Run (Application D N)
    start_logs app = if otlp_enabled app.config then with_logs app else pure app

    with_tracing : Application D N → Run (Application D N)
    with_tracing app = do
      started ←
          in_context "failed to initialize tracing"
            (open_part tracing_part (new_tracing libraries.exporters app.config.app))
      pure (record app { has_tracing = true })

    start_tracing : Application D N → Run (Application D N)
    start_tracing app = if otlp_enabled app.config then with_tracing app else pure app

    -- initializeMetrics
    pub initialize_metrics : Application D N → Run (Application D N)
    initialize_metrics app = do
      started ← open_part metrics_part (new_metrics libraries.exporters app.config.app)
      pure (record app { has_metrics = true })

    -- NewAWSClients
    pub new_aws_clients : Application D N → Run (Application D N)
    new_aws_clients app = do
      loaded ← in_context "failed to load AWS config" (lift libraries.load_aws_config)
      pure (record app { has_aws_clients = true })

    read_parameter : String → Text → Run Text
    read_parameter context key = in_context context (lift (get_parameter libraries.ssm key))

    read_redis_addr : Application D N → Run Text
    read_redis_addr app =
        if not (text_eq app.config.idempotency.redis_addr [])
        then pure app.config.idempotency.redis_addr
        else if not (text_eq app.config.aws.redis_addr_param_key [])
        then read_parameter "failed to get Redis address" app.config.aws.redis_addr_param_key
        else pure app.redis_addr

    -- loadRuntimeConfig
    pub load_runtime_config : Application D N → Run (Application D N)
    load_runtime_config app = do
      queue_url ←
          read_parameter "failed to get provisioner queue URL"
            app.config.aws.provisioner_queue_param_key
      client_id ←
          read_parameter "failed to get Cognito client ID"
            app.config.aws.cognito_client_id_param_key
      addr ← read_redis_addr app
      pure (record app {
        provisioner_queue_url = queue_url;
        cognito_client_id = client_id;
        redis_addr = addr;
      })

    dial_redis : Application D N → Run (Application D N)
    dial_redis app = do
      client ← new_redis_client libraries.ping (record {
        addr = app.redis_addr;
        password = app.config.idempotency.redis_password;
        db = app.config.idempotency.redis_db;
        dial_timeout = app.config.idempotency.dial_timeout;
        read_timeout = app.config.idempotency.read_timeout;
        write_timeout = app.config.idempotency.write_timeout;
      })
      pure (record app { redis_client = some client; has_idempotency_store = true })

    -- initializeRedis
    pub initialize_redis : Application D N → Run (Application D N)
    initialize_redis app = if text_eq app.redis_addr [] then pure app else dial_redis app

    -- New outside local mode, once the telemetry is set up.
    pub initialize_cloud : Text → Application D N → Run (Application D N)
    initialize_cloud swagger_path app = do
      app ← in_context "failed to initialize AWS clients" (new_aws_clients app)
      app ← in_context "failed to load runtime configuration" (load_runtime_config app)
      app ← in_context "failed to initialize Redis" (initialize_redis app)
      pure (initialize_server (initialize_services (initialize_adapters swagger_path app)))

    -- New
    pub new_application : Config D N → Text → Run (Application D N)
    new_application cfg swagger_path = do
      app ← start_logs (empty_application cfg)
      app ← start_tracing app
      app ← in_context "failed to initialize metrics" (initialize_metrics app)
      if is_local_mode cfg
          then initialize_local swagger_path app
          else initialize_cloud swagger_path app
