-- ===== src/Consumer/Tests.antt =====
-- The theorems on the consumer's loops, at concrete rounds.
use internal_developer_platf.Shared.{
  ◌≡◌, refl, true, false, Bool, none, some, [], ◌∷◌, List, leb, if◌then◌else◌, arith,
}
use internal_developer_platf.Consumer.{Message, start}
use internal_developer_platf.Consumer.Kafka
use internal_developer_platf.Consumer.Kafka.{fetch_failed, fetched, run_kafka}
use internal_developer_platf.Consumer.Sqs
use internal_developer_platf.Consumer.Sqs.{receive_failed, received, run_sqs}
use internal_developer_platf.Consumer.Counts.{Adds, run_kafka-Adds, one_by_one, run_sqs-run_kafka}
use internal_developer_platf.Consumer.Cancellation.{
  Environment, kafka_loop, sqs_loop, kafka_rounds as rounds_of_kafka, sqs_rounds as rounds_of_sqs,
  loops_end,
}

abbrev message : Message
message = record { body = "vm"; receipt = "r1" }

abbrev kafka_rounds : List Kafka.Round
kafka_rounds =
    fetch_failed false
    ∷ fetched message true
    ∷ fetched message false
    ∷ fetch_failed true
    ∷ fetched message true
    ∷ []

abbrev sqs_rounds : List Sqs.Round
sqs_rounds =
    receive_failed false
    ∷ received ((message, true) ∷ (message, false) ∷ [])
    ∷ receive_failed true
    ∷ []

run_kafka-Adds_example : Adds kafka_rounds start (run_kafka kafka_rounds start)
run_kafka-Adds_example = run_kafka-Adds kafka_rounds start

run_sqs-run_kafka_example : run_sqs sqs_rounds start ≡ run_kafka (one_by_one sqs_rounds) start
run_sqs-run_kafka_example = run_sqs-run_kafka sqs_rounds start

-- The context is cancelled while the fourth round is under way; the first two fetches fail.
abbrev busy_kafka : Environment (Message × Bool)
busy_kafka = record {
  cancelled_at_head = λ n. leb 4 n;
  answer = λ n. if leb 2 n then some (message, true) else none;
  cancelled_after_error = λ n. false;
}

abbrev idle_sqs : Environment (List (Message × Bool))
idle_sqs = record {
  cancelled_at_head = λ n. leb 4 n;
  answer = λ n. none;
  cancelled_after_error = λ n. leb 3 n;
}

loops_end_example :
    (kafka_loop busy_kafka 5 start ≡ some (run_kafka (rounds_of_kafka busy_kafka 4) start))
    × (sqs_loop idle_sqs 5 start ≡ some (run_sqs (rounds_of_sqs idle_sqs 4) start))
loops_end_example = loops_end busy_kafka idle_sqs 4 5 start refl refl (omega arith)
