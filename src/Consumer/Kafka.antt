-- ===== src/Consumer/Kafka.antt =====
-- services/provisioner/internal/consumer/kafka.go: RunKafka.
use internal_developer_platf.Shared.{Bool, List, [], ◌∷◌, if◌then◌else◌}
use internal_developer_platf.Consumer.{Message, Progress, receive, handle_message, poll_failed}

-- What the reader answers in one round of the loop.
pub data Round : Type 0 where
  -- FetchMessage failed; the flag tells whether the context was cancelled by then.
  fetch_failed : Bool → Round
  -- A message was fetched; the flag tells whether CommitMessages succeeded.
  fetched : Message → Bool → Round

-- The loop; where the rounds end, the context is cancelled at its head.
unfoldable pub run_kafka : List Round → Progress → Progress
run_kafka [] p = p
run_kafka (fetch_failed cancelled ∷ rounds) p =
    let rest = run_kafka rounds (poll_failed p) in if cancelled then p else rest
run_kafka (fetched message committed ∷ rounds) p =
    run_kafka rounds (handle_message message committed (receive 1 p))
