-- ===== src/Bootstrap/Tests.antt =====
-- Starts of the API: in the cloud, with a Redis server that does not answer, and in local mode.
use internal_developer_platf.Shared.{ℕ, ◌≡◌, refl, true, some, [], ◌∷◌, ◌++◌, ok, err}
use internal_developer_platf.Text.{codes, text_eq}
use internal_developer_platf.Startup.{
  WrappedError, wrapped_error, logs_part, tracing_part, metrics_part, events, result, still_open,
  without, ◌>>=◌, follow, pure, lift, wrap_error, open_part, open_events,
}
use internal_developer_platf.Telemetry.{
  new_logs, new_tracing, new_metrics, new_provider, new_resource,
}
use internal_developer_platf.Infrastructure.{get_parameter, new_redis_client, connected}
use internal_developer_platf.Bootstrap.{
  Application, sqs_publisher, new_application, is_local_mode, in_context, otlp_enabled,
  empty_application, start_logs, with_logs, start_tracing, with_tracing, initialize_metrics,
  initialize_cloud, new_aws_clients, load_runtime_config, read_parameter, read_redis_addr,
  initialize_redis, dial_redis, initialize_adapters, initialize_services, initialize_server,
}
use internal_developer_platf.Bootstrap.Shutdown.{shutdown}
use internal_developer_platf.Bootstrap.Shutdown.Balance.{AllTelemetry, IsWired}
use internal_developer_platf.Bootstrap.Shutdown.Complete.{
  closings, shutdown_complete, failed_start_leaves_telemetry,
}
use internal_developer_platf.Bootstrap.Examples.{
  config_for, no_answer, libraries_with, redis_sticks,
}
use internal_developer_platf.Bootstrap.Local.{local_needs_no_cloud}

abbrev served : Application ℕ ℕ
served = record {
  config = config_for (codes "dev");
  has_aws_clients = true;
  has_metrics = true;
  has_tracing = true;
  has_logs = true;
  provisioner_queue_url = codes "v";
  cognito_client_id = codes "v";
  redis_addr = codes "v";
  redis_client = some (record {
    addr = codes "v";
    password = [];
    db = 0;
    dial_timeout = 2;
    read_timeout = 1;
    write_timeout = 1;
  });
  has_idempotency_store = true;
  resource_publisher = some (sqs_publisher (codes "v"));
  resource_service = some (sqs_publisher (codes "v"));
  auth_service = some (codes "v");
  swagger_path = some [];
  server = some (record {
    settings = (config_for (codes "dev")).server;
    router = record {
      allowed_origins = codes "*" ∷ [];
      has_idempotency_store = true;
      idempotency_ttl = 86400;
    };
    stripped = some (codes "/dev");
  });
}

abbrev ping_failed : WrappedError
ping_failed =
    wrapped_error (codes "failed to initialize Redis")
      (wrapped_error (codes "redis ping failed") no_answer)

-- What New returns with and without an answer of Redis; without, all telemetry stays open.
starts :
    let cfg = config_for (codes "dev") in
    let silent = new_application (libraries_with (err no_answer)) cfg [] in
    (result (new_application (libraries_with (ok tt)) cfg []) ≡ ok served)
    × (result silent ≡ err ping_failed)
    × (still_open [] (events silent) ≡ metrics_part ∷ tracing_part ∷ logs_part ∷ [])
unfolding new_logs new_tracing new_metrics new_provider new_resource new_application ◌>>=◌ follow
    pure lift wrap_error open_part open_events in_context without still_open text_eq is_local_mode
    otlp_enabled empty_application start_logs with_logs start_tracing with_tracing
    initialize_metrics initialize_cloud new_aws_clients load_runtime_config read_parameter
    read_redis_addr get_parameter initialize_redis dial_redis new_redis_client connected
    initialize_adapters initialize_services initialize_server
starts = (refl, refl, refl)

shutdown_complete_example :
    let started = new_application (libraries_with (ok tt)) (config_for (codes "dev")) [] in
    let stopped = shutdown redis_sticks served in
    (closings (events stopped) ≡ still_open [] (events started))
    × (still_open [] (events started ++ events stopped) ≡ [])
    × (result stopped ≡ ok tt)
    × IsWired served
shutdown_complete_example =
    shutdown_complete redis_sticks (libraries_with (ok tt)) (config_for (codes "dev")) [] served
      starts.0

failed_start_leaves_telemetry_example : AllTelemetry (
    still_open []
      (events (new_application (libraries_with (err no_answer)) (config_for (codes "dev")) [])))
failed_start_leaves_telemetry_example =
    failed_start_leaves_telemetry (libraries_with (err no_answer)) (config_for (codes "dev")) []
      ping_failed starts.1

is_local : is_local_mode (config_for (codes "local")) ≡ true
unfolding is_local_mode text_eq
is_local = refl

local_needs_no_cloud_example :
    new_application (libraries_with (ok tt)) (config_for (codes "local")) []
    ≡ new_application (libraries_with (err no_answer)) (config_for (codes "local")) []
local_needs_no_cloud_example =
    local_needs_no_cloud (config_for (codes "local")) is_local (libraries_with (ok tt))
      (libraries_with (err no_answer)) [] refl
