-- ===== src/Config/Settings.antt =====
-- config.go: Config, NewConfig, its options and Validate. `D` stands for durations and `N` for ints.
use internal_developer_platf.Shared.{
  ℕ, ◌≡◌, refl, ◌≢◌, ◌↔◌, Bool, true, false, Option, List, [], ◌∷◌, Result, ok, err, if◌then◌else◌,
  arith, String,
}
use internal_developer_platf.Text.{Text, codes, text_eq}
use internal_developer_platf.Text.Trim.{text_eq_iff}
use internal_developer_platf.Config.{get_env_or_default, get_parsed_env, get_slice_env}

pub record ServerConfig (D : Type 0) : Type 0 where
  pub port : Text
  pub read_timeout : D
  pub write_timeout : D
  pub idle_timeout : D
  pub shutdown_timeout : D

pub record AwsConfig : Type 0 where
  pub region : Text
  pub provisioner_queue_param_key : Text
  pub cognito_client_id_param_key : Text
  pub redis_addr_param_key : Text

pub record MessagingConfig : Type 0 where
  pub kafka_brokers : List Text
  pub kafka_topic : Text

pub record IdempotencyConfig (D N : Type 0) : Type 0 where
  pub redis_addr : Text
  pub redis_password : Text
  pub redis_db : N
  pub ttl : D
  pub dial_timeout : D
  pub read_timeout : D
  pub write_timeout : D

pub record AppConfig : Type 0 where
  pub environment : Text
  pub log_level : Text
  pub allowed_origins : List Text
  pub enable_tracing : Bool
  pub service_name : Text
  pub version : Text

pub record Config (D N : Type 0) : Type 0 where
  pub server : ServerConfig D
  pub aws : AwsConfig
  pub app : AppConfig
  pub messaging : MessagingConfig
  pub idempotency : IdempotencyConfig D N

-- What the libraries make of a value: ParseDuration, Atoi and ParseBool; a duration of so many
-- seconds; the int 0.
pub record Parsers (D N : Type 0) : Type 0 where
  pub duration : Text → Option D
  pub int : Text → Option N
  pub bool : Text → Option Bool
  pub seconds : ℕ → D
  pub zero_int : N

module _ {D N : Type 0} (parsers : Parsers D N) (env : String → Text) where
  read_duration : String → ℕ → D
  unfolding get_parsed_env
  read_duration key default_value =
      get_parsed_env parsers.duration (env key) (parsers.seconds default_value)

  -- The defaults of NewConfig, over an environment.
  unfoldable pub defaults : Config D N
  unfolding read_duration
  defaults = record {
    server = record {
      port = get_env_or_default (env "PORT") (codes "8080");
      read_timeout = read_duration "SERVER_READ_TIMEOUT" 15;
      write_timeout = read_duration "SERVER_WRITE_TIMEOUT" 15;
      idle_timeout = read_duration "SERVER_IDLE_TIMEOUT" 60;
      shutdown_timeout = read_duration "SERVER_SHUTDOWN_TIMEOUT" 30;
    };
    aws = record {
      region = get_env_or_default (env "AWS_REGION") (codes "us-east-1");
      provisioner_queue_param_key =
          get_env_or_default (env "PROVISIONER_QUEUE_PARAM_KEY")
            (codes "/INTERNAL_DEVELOPER_PLATFORM/PROVISIONER_QUEUE_URL");
      cognito_client_id_param_key =
          get_env_or_default (env "COGNITO_CLIENT_ID_PARAM_KEY")
            (codes "/INTERNAL_DEVELOPER_PLATFORM/COGNITO_CLIENT_ID");
      redis_addr_param_key =
          get_env_or_default (env "REDIS_ADDR_PARAM_KEY")
            (codes "/INTERNAL_DEVELOPER_PLATFORM/REDIS_ADDR");
    };
    app = record {
      environment = get_env_or_default (env "ENVIRONMENT") (codes "dev");
      log_level = get_env_or_default (env "LOG_LEVEL") (codes "info");
      allowed_origins = get_slice_env (env "ALLOWED_ORIGINS") (codes "*" ∷ []);
      enable_tracing = get_parsed_env parsers.bool (env "ENABLE_TRACING") true;
      service_name =
          get_env_or_default (env "SERVICE_NAME") (codes "internal-developer-platform.api");
      version = get_env_or_default (env "SERVICE_VERSION") [];
    };
    messaging = record {
      kafka_brokers = get_slice_env (env "KAFKA_BROKERS") [];
      kafka_topic = get_env_or_default (env "KAFKA_TOPIC") (codes "resource-provisioning");
    };
    idempotency = record {
      redis_addr = get_env_or_default (env "REDIS_ADDR") [];
      redis_password = get_env_or_default (env "REDIS_PASSWORD") [];
      redis_db = get_parsed_env parsers.int (env "REDIS_DB") parsers.zero_int;
      ttl = read_duration "IDEMPOTENCY_TTL" 86400;
      dial_timeout = read_duration "REDIS_DIAL_TIMEOUT" 2;
      read_timeout = read_duration "REDIS_READ_TIMEOUT" 1;
      write_timeout = read_duration "REDIS_WRITE_TIMEOUT" 1;
    };
  }

  apply_options : List (Config D N → Config D N) → Config D N → Config D N
  apply_options [] cfg = cfg
  apply_options (opt ∷ opts) cfg = apply_options opts (opt cfg)

  -- NewConfig
  unfoldable pub new_config : List (Config D N → Config D N) → Config D N
  unfolding defaults apply_options
  new_config opts = apply_options opts defaults

-- Config.Validate: the error's text behind the sentinel's.
unfoldable pub validate : {D N : Type 0} → Config D N → Result String (Unit {0})
validate c =
    if text_eq c.server.port []
    then err "server port"
    else if text_eq c.aws.provisioner_queue_param_key []
    then err "provisioner queue param key"
    else if text_eq c.aws.cognito_client_id_param_key []
    then err "cognito client id param key"
    else ok tt

-- WithPort
unfoldable pub with_port : {D N : Type 0} → Text → Config D N → Config D N
with_port port c = record c { server = record c.server { port = port } }

-- WithEnvironment
unfoldable pub with_environment : {D N : Type 0} → Text → Config D N → Config D N
with_environment environment c = record c { app = record c.app { environment = environment } }

-- WithLogLevel
unfoldable pub with_log_level : {D N : Type 0} → Text → Config D N → Config D N
with_log_level level c = record c { app = record c.app { log_level = level } }

get_env-given :
    (value : Text) (d : ℕ) (s : Text) → text_eq (get_env_or_default value (d ∷ s)) [] ≡ false
unfolding get_env_or_default text_eq
get_env-given [] d s = refl
get_env-given (c ∷ value) d s = refl

not_empty : (s : Text) → text_eq s [] ≡ false → s ≢ []
not_empty s given = ground (arith, text_eq_iff s [])

validate_iff :
    {D N : Type 0} (c : Config D N)
    → text_eq c.aws.provisioner_queue_param_key [] ≡ false
    → text_eq c.aws.cognito_client_id_param_key [] ≡ false
    → (validate c ≡ ok tt) ↔ (c.server.port ≢ [])
unfolding validate
validate_iff c queue client = ground (arith, text_eq_iff c.server.port [])

-- Whatever the environment, the configuration that NewConfig makes with no option is valid, and with
-- a port given to it, it is valid exactly where the port is not empty.
pub new_config-validate :
    {D N : Type 0} (parsers : Parsers D N) (env : String → Text) (port : Text)
    → (validate (new_config parsers env []) ≡ ok tt)
      × ((validate (new_config parsers env (with_port port ∷ [])) ≡ ok tt) ↔ (port ≢ []))
unfolding new_config with_port defaults
new_config-validate parsers env port =
    let given : (key : String) (d : ℕ) (s : Text)
        → text_eq (get_env_or_default (env key) (d ∷ s)) [] ≡ false =
      λ key d s. get_env-given (env key) d s in
    let queue = given "PROVISIONER_QUEUE_PARAM_KEY" _ _ in
    let client = given "COGNITO_CLIENT_ID_PARAM_KEY" _ _ in
    (
      (validate_iff (defaults parsers env) queue client).1
          (not_empty (get_env_or_default (env "PORT") (codes "8080")) (given "PORT" _ _)),
      validate_iff (with_port port (defaults parsers env)) queue client,
    )
