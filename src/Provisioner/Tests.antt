-- ===== src/Provisioner/Tests.antt =====
-- Runs of the provisioner's process: without brokers and without a queue.
use internal_developer_platf.Shared.{
  String, ◌≡◌, refl, false, some, [], ◌∷◌, ok, str_eq, if◌then◌else◌, arith,
}
use internal_developer_platf.Text.{Text, codes, text_eq, trim_space, trim, trim_left, trim_right}
use internal_developer_platf.Startup.{
  logs_part, tracing_part, metrics_part, still_open, ◌>>=◌, follow, pure, lift, wrap_error,
  open_part, open_events,
}
use internal_developer_platf.Config.{get_slice_env}
use internal_developer_platf.Provisioner.{
  Exporters, Cloud, Rounds, setup, split_brokers, split_at, trim_parts, resolve_queue,
  get_queue_url, provisioner_main, set_up_pipelines, pipeline, consume, run_queue, after_setup,
  abort,
}
use internal_developer_platf.Provisioner.Brokers.{brokers_agree}

abbrev exporters : Exporters
exporters = record { merge = λ attributes. ok tt; trace = ok tt; metric = ok tt; log = ok tt }

-- The parameter is empty.
abbrev cloud : Cloud
cloud = record { load_config = ok tt; get_parameter = λ name. ok (some (some [])) }

-- The variables are empty but for the endpoint of the collector.
abbrev env : String → Text
env key = if str_eq key "OTEL_EXPORTER_OTLP_ENDPOINT" then codes "http://collector" else []

abbrev rounds : Rounds
rounds = record { kafka = []; sqs = [] }

-- Without a queue the process exits with 1 and leaves the telemetry's pipelines open.
aborts_with_open_telemetry :
    let exit = provisioner_main rounds false exporters cloud env in
    (exit.code ≡ 1) × (still_open [] exit.events ≡ logs_part ∷ metrics_part ∷ tracing_part ∷ [])
unfolding provisioner_main setup set_up_pipelines pipeline ◌>>=◌ follow pure lift wrap_error
    open_part open_events still_open text_eq after_setup consume run_queue abort split_brokers
    split_at trim_parts resolve_queue get_queue_url trim_space trim trim_left trim_right
aborts_with_open_telemetry = (refl, refl)

brokers_agree_example :
    split_brokers (b'a' ∷ b',' ∷ b' ' ∷ []) ≡ get_slice_env (b'a' ∷ b',' ∷ b' ' ∷ []) []
brokers_agree_example = brokers_agree b'a' (b',' ∷ b' ' ∷ []) [] (
  (omega arith, omega arith, omega arith),
  ((omega arith, omega arith, omega arith), ((omega arith, omega arith, omega arith), tt)),
)
