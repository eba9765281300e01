-- ===== src/Bootstrap/Examples.antt =====
-- A configuration and libraries for the tests of the API's start.
use internal_developer_platf.Shared.{ℕ, true, some, [], ◌∷◌, Result, ok, err}
use internal_developer_platf.Text.{Text, codes}
use internal_developer_platf.Config.Settings.{Config}
use internal_developer_platf.Startup.{WrappedError, plain_error, Part, redis_part}
use internal_developer_platf.Infrastructure.{SsmClient}
use internal_developer_platf.Bootstrap.{Libraries}

-- A configuration for an environment, with brokers for the local one.
abbrev pub config_for : Text → Config ℕ ℕ
config_for environment = record {
  server = record {
    port = codes "8080";
    read_timeout = 15;
    write_timeout = 15;
    idle_timeout = 60;
    shutdown_timeout = 30;
  };
  aws = record {
    region = codes "us-east-1";
    provisioner_queue_param_key = codes "/queue";
    cognito_client_id_param_key = codes "/client";
    redis_addr_param_key = codes "/redis";
  };
  app = record {
    environment = environment;
    log_level = codes "info";
    allowed_origins = codes "*" ∷ [];
    enable_tracing = true;
    service_name = codes "api";
    version = [];
  };
  messaging = record {
    kafka_brokers = codes "kafka:9092" ∷ [];
    kafka_topic = codes "resource-provisioning";
  };
  idempotency = record {
    redis_addr = [];
    redis_password = [];
    redis_db = 0;
    ttl = 86400;
    dial_timeout = 2;
    read_timeout = 1;
    write_timeout = 1;
  };
}

abbrev pub no_answer : WrappedError
no_answer = plain_error (codes "connection refused")

-- Every parameter has the value "v".
abbrev pub store : SsmClient
store = record {
  get_parameter =
      λ decrypted name. ok (some (record { name = some name; value = some (codes "v") }));
  get_parameters = λ names. ok [];
}

abbrev pub libraries_with : Result WrappedError (Unit {0}) → Libraries ℕ ℕ
libraries_with ping = record {
  exporters = record {
    trace = ok tt;
    log = ok tt;
    prometheus = ok tt;
    merge = λ attributes. ok tt;
  };
  load_aws_config = ok tt;
  ssm = store;
  ping = λ config. ping;
}

-- Closing Redis fails.
abbrev pub redis_sticks : Part → Result WrappedError (Unit {0})
redis_sticks redis_part = err no_answer
redis_sticks _ = ok tt
