-- ===== src/Provisioner/Exits.antt =====
-- cmd/consumer/main.go: how the provisioner's process ends.
use internal_developer_platf.Shared.{
  ℕ, ◌≡◌, ◌≢◌, Bool, Option, none, some, List, [], ◌∷◌, ◌++◌, Result, ok, err, if◌then◌else◌,
}
use internal_developer_platf.Text.{Text}
use internal_developer_platf.Startup.{WrappedError, Event, events, still_open}
use internal_developer_platf.Bootstrap.Shutdown.Complete.{closings}
use internal_developer_platf.Server.{is_ok}
use internal_developer_platf.Consumer.{Progress, start}
use internal_developer_platf.Consumer.Kafka.{run_kafka}
use internal_developer_platf.Consumer.Sqs.{run_sqs}
use internal_developer_platf.Provisioner.{
  Telemetry, Rounds, Exit, shut_down, QueueLookup, found, not_found, nil_parameter,
}

-- Setup closes nothing, and the shutdown function that it returns closes what it opened.
abbrev IsReady : List Event → Result WrappedError Telemetry → Type 0
IsReady es (ok telemetry) =
    (still_open [] (es ++ shut_down telemetry.shuts_down) ≡ []) × (closings es ≡ [])
IsReady es (err e) = closings es ≡ []

-- What the consumer of a process that has set up its telemetry comes to: over Kafka where there are
-- brokers, else over SQS where the queue's URL is found.
abbrev pub consumption : Rounds → List Text → QueueLookup → Option Progress
consumption rounds [] nil_parameter = none
consumption rounds [] (not_found e) = none
consumption rounds [] (found url) = some (run_sqs rounds.sqs start)
consumption rounds (broker ∷ brokers) queue_url = some (run_kafka rounds.kafka start)

-- The exit code of such a process.
abbrev pub ready_code : Bool → List Text → QueueLookup → ℕ
ready_code cancelled [] nil_parameter = 2
ready_code cancelled [] (not_found e) = if cancelled then 0 else 1
ready_code cancelled [] (found url) = 0
ready_code cancelled (broker ∷ brokers) queue_url = 0

-- How a process ends by the telemetry's set-up, the brokers and the queue's URL: its code, what was
-- consumed, and that a process that exits with 1 has closed nothing while any other leaves nothing
-- open.
pub record Ends (cancelled : Bool) (rounds : Rounds) (brokers : List Text) (queue_url : QueueLookup)
    (ready : Result WrappedError Telemetry) (exit : Exit) : Type 0 where
  pub code_is : exit.code ≡ (if is_ok ready then ready_code cancelled brokers queue_url else 1)
  pub consumed_is :
      exit.consumed ≡ (if is_ok ready then consumption rounds brokers queue_url else none)
  pub closed_unless_one : exit.code ≢ 1 → still_open [] exit.events ≡ []
  pub none_closed_if_one : exit.code ≡ 1 → closings exit.events ≡ []
