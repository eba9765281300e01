-- ===== src/Bootstrap/Parts.antt =====
-- application.go: Application and its parts, and what New calls.
use internal_developer_platf.Shared.{Bool, Option, List, Result}
use internal_developer_platf.Text.{Text}
use internal_developer_platf.Config.Settings.{Config, ServerConfig}
use internal_developer_platf.Startup.{WrappedError}
use internal_developer_platf.Telemetry.{Exporters}
use internal_developer_platf.Infrastructure.{SsmClient, RedisConfig}

-- The publisher of the resource service, by its arguments.
pub data Publisher : Type 0 where
  sqs_publisher : Text → Publisher
  kafka_publisher : List Text → Text → Publisher

-- RouterConfig as New fills it: whether the store is nil is all that the routes depend on.
pub record RouterSetup (D : Type 0) : Type 0 where
  pub allowed_origins : List Text
  pub has_idempotency_store : Bool
  pub idempotency_ttl : D

-- The server, with the path prefix that it strips, where it is wrapped.
pub record ServerSetup (D : Type 0) : Type 0 where
  pub settings : ServerConfig D
  pub router : RouterSetup D
  pub stripped : Option Text

-- Application: pointers as flags or, where what they point to was made from a text, that text.
pub record Application (D N : Type 0) : Type 0 where
  pub config : Config D N
  pub has_aws_clients : Bool
  pub has_metrics : Bool
  pub has_tracing : Bool
  pub has_logs : Bool
  pub provisioner_queue_url : Text
  pub cognito_client_id : Text
  pub redis_addr : Text
  pub redis_client : Option (RedisConfig D N)
  pub has_idempotency_store : Bool
  pub resource_publisher : Option Publisher
  pub resource_service : Option Publisher
  pub auth_service : Option Text
  pub swagger_path : Option Text
  pub server : Option (ServerSetup D)

-- What New calls: what the telemetry pipelines are made of, the AWS configuration, the Parameter
-- Store and the Redis server's answer to a PING.
pub record Libraries (D N : Type 0) : Type 0 where
  pub exporters : Exporters
  pub load_aws_config : Result WrappedError (Unit {0})
  pub ssm : SsmClient
  pub ping : RedisConfig D N → Result WrappedError (Unit {0})
