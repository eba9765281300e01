-- ===== src/Provisioner.antt =====
-- services/provisioner: internal/telemetry/telemetry.go and cmd/consumer/main.go.
pub mod Brokers
pub mod Exits
mod Tests
use internal_developer_platf.Shared.{
  ℕ, String, Bool, true, false, not, ◌&&◌, Option, none, some, List, [], ◌∷◌, ◌++◌, Result, ok, err,
  ◌==◌, if◌then◌else◌,
}
use internal_developer_platf.Text.{Text, codes, text_eq, trim_space}
use internal_developer_platf.Startup.{
  WrappedError, plain_error, wrap_error, Part, logs_part, tracing_part, metrics_part, Event, closed,
  Run, pure, lift, open_part, ◌>>=◌, events, result,
}
use internal_developer_platf.Consumer.{Progress, start}
use internal_developer_platf.Consumer.Kafka.{Round as KafkaRound, run_kafka}
use internal_developer_platf.Consumer.Sqs.{Round as SqsRound, run_sqs}

-- Config of the telemetry.
pub record TelemetryConfig : Type 0 where
  pub service_name : Text
  pub version : Text
  pub environment : Text

-- envOrDefault, where `value` is what os.Getenv returns for the key.
unfoldable pub env_or_default : Text → Text → Text
env_or_default value fallback = if text_eq value [] then fallback else value

-- The telemetry's configuration in main.
pub telemetry_config : (String → Text) → TelemetryConfig
telemetry_config env = record {
  service_name = codes "resource-provisioner-consumer";
  version = env "SERVICE_VERSION";
  environment = env_or_default (env "ENVIRONMENT") (codes "dev");
}

version_attribute : Text → List (String × Text)
version_attribute version = if text_eq version [] then [] else ("service.version", version) ∷ []

-- The attributes of newResource.
unfoldable pub resource_attributes : TelemetryConfig → List (String × Text)
unfolding version_attribute
resource_attributes cfg =
    ("service.name", cfg.service_name)
    ∷ ("deployment.environment", cfg.environment)
    ∷ version_attribute cfg.version

-- What Setup calls: resource.Merge, on the attributes, and the exporters' constructors.
pub record Exporters : Type 0 where
  pub merge : List (String × Text) → Result WrappedError (Unit {0})
  pub trace : Result WrappedError (Unit {0})
  pub metric : Result WrappedError (Unit {0})
  pub log : Result WrappedError (Unit {0})

-- What Setup returns: the providers that its shutdown function shuts down, and whether there is a
-- hook.
pub record Telemetry : Type 0 where
  pub shuts_down : List Part
  pub has_hook : Bool

-- One pipeline: its exporter, then its provider.
pipeline : String → Part → Result WrappedError (Unit {0}) → Run (Unit {0})
pipeline context p made = open_part p (wrap_error (codes context) made)

set_up_pipelines : Exporters → TelemetryConfig → Run Telemetry
set_up_pipelines exporters cfg = do
  merged ←
      lift (
        wrap_error (codes "building telemetry resource")
          (exporters.merge (resource_attributes cfg)))
  tracing ← pipeline "creating otlp trace exporter" tracing_part exporters.trace
  metrics ← pipeline "creating otlp metric exporter" metrics_part exporters.metric
  logs ← pipeline "creating otlp log exporter" logs_part exporters.log
  pure (record { shuts_down = tracing_part ∷ metrics_part ∷ logs_part ∷ []; has_hook = true })

-- Setup, where `endpoint` is the variable OTEL_EXPORTER_OTLP_ENDPOINT.
pub setup : Text → Exporters → TelemetryConfig → Run Telemetry
setup endpoint exporters cfg =
    if text_eq endpoint []
    then pure (record { shuts_down = []; has_hook = false })
    else set_up_pipelines exporters cfg

-- strings.Split at one byte; `part` is the part so far.
unfoldable pub split_at : ℕ → Text → Text → List Text
split_at b part [] = part ∷ []
split_at b part (c ∷ s) =
    let found = split_at b [] s in
    let passed = split_at b (part ++ c ∷ []) s in if b == c then part ∷ found else passed

keep_trimmed : Text → List Text → List Text
keep_trimmed trimmed rest = if not (text_eq trimmed []) then trimmed ∷ rest else rest

trim_parts : List Text → List Text
unfolding keep_trimmed
trim_parts [] = []
trim_parts (part ∷ parts) = keep_trimmed (trim_space part) (trim_parts parts)

-- splitBrokers
unfoldable pub split_brokers : Text → List Text
unfolding trim_parts
split_brokers csv = trim_parts (split_at b',' [] csv)

-- What runSQS calls: the AWS configuration and the Parameter Store, whose answer is a pointer to a
-- parameter, which has a pointer to its value.
pub record Cloud : Type 0 where
  pub load_config : Result WrappedError (Unit {0})
  pub get_parameter : Text → Result WrappedError (Option (Option Text))

-- What the look-up of the queue comes to: a URL, an error, or a panic, since a nil parameter is
-- dereferenced.
pub data QueueLookup : Type 0 where
  found : Text → QueueLookup
  not_found : WrappedError → QueueLookup
  nil_parameter : QueueLookup

given_url : Text → QueueLookup
given_url url =
    if text_eq url [] then not_found (plain_error (codes "SQS queue URL is empty")) else found url

queue_url_of : Result WrappedError (Option (Option Text)) → QueueLookup
queue_url_of (err e) = not_found e
queue_url_of (ok none) = nil_parameter
queue_url_of (ok (some none)) = given_url []
queue_url_of (ok (some (some url))) = given_url url

module _ (cloud : Cloud) (env : String → Text) where
  -- getQueueURL
  unfoldable pub get_queue_url : QueueLookup
  unfolding queue_url_of given_url
  get_queue_url = queue_url_of (
      cloud.get_parameter (
        env_or_default (env "PROVISIONER_QUEUE_PARAM_KEY")
          (codes "/INTERNAL_DEVELOPER_PLATFORM/PROVISIONER_QUEUE_URL")))

  -- runSQS up to the loop: the URL that the loop reads from.
  unfoldable pub resolve_queue : QueueLookup
  resolve_queue = elim (wrap_error (codes "load AWS config") cloud.load_config) [
    | err e ↦ not_found e
    | ok u ↦ get_queue_url
  ]

-- The rounds of either consumer's loop; where they end, the context is cancelled.
pub record Rounds : Type 0 where
  pub kafka : List KafkaRound
  pub sqs : List SqsRound

-- The end of the process: what it opened and closed, its exit code and, where a consumer ran, what
-- it came to.
pub record Exit : Type 0 where
  pub events : List Event
  pub code : ℕ
  pub consumed : Option Progress

shut_down : List Part → List Event
shut_down [] = []
shut_down (p ∷ parts) = closed p ∷ shut_down parts

-- main returns: its deferred shutdown of the telemetry is called.
leave : List Event → Telemetry → Option Progress → Exit
leave es telemetry consumed = record {
  events = es ++ shut_down telemetry.shuts_down;
  code = 0;
  consumed = consumed;
}

-- os.Exit(1), which calls nothing that is deferred.
abort : List Event → Exit
abort es = record { events = es; code = 1; consumed = none }

-- A panic of main: what is deferred is called, and the runtime exits with 2.
crash : List Event → Telemetry → Exit
crash es telemetry = record {
  events = es ++ shut_down telemetry.shuts_down;
  code = 2;
  consumed = none;
}

module _ (rounds : Rounds) (cancelled : Bool) where
  run_queue : List Event → Telemetry → QueueLookup → Exit
  run_queue es telemetry nil_parameter = crash es telemetry
  run_queue es telemetry (not_found e) = if cancelled then leave es telemetry none else abort es
  run_queue es telemetry (found url) = leave es telemetry (some (run_sqs rounds.sqs start))

  consume : List Event → Telemetry → List Text → QueueLookup → Exit
  consume es telemetry [] queue_url = run_queue es telemetry queue_url
  consume es telemetry (broker ∷ brokers) queue_url =
      leave es telemetry (some (run_kafka rounds.kafka start))

  after_setup : List Event → Result WrappedError Telemetry → List Text → QueueLookup → Exit
  after_setup es (err e) brokers queue_url = abort es
  after_setup es (ok telemetry) brokers queue_url = consume es telemetry brokers queue_url

  -- main. `cancelled` tells whether the context is cancelled when the queue's URL is not found; the
  -- URL is looked up only where it is used.
  pub provisioner_main : Exporters → Cloud → (String → Text) → Exit
  provisioner_main exporters cloud env =
      let ready = setup (env "OTEL_EXPORTER_OTLP_ENDPOINT") exporters (telemetry_config env) in
      after_setup (events ready) (result ready) (split_brokers (env "KAFKA_BROKERS"))
        (resolve_queue cloud env)
