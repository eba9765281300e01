-- ===== src/Consumer/Sqs.antt =====
-- services/provisioner/internal/consumer/sqs.go: RunSQS.
use internal_developer_platf.Shared.{Bool, List, [], ◌∷◌, length, if◌then◌else◌}
use internal_developer_platf.Consumer.{Message, Progress, receive, handle_message, poll_failed}

-- What the queue answers in one round of the loop.
pub data Round : Type 0 where
  -- ReceiveMessage failed; the flag tells whether the context was cancelled by then.
  receive_failed : Bool → Round
  -- A batch was received, each message with whether DeleteMessage succeeded on it.
  received : List (Message × Bool) → Round

-- The loop over one batch.
unfoldable pub handle_batch : List (Message × Bool) → Progress → Progress
handle_batch [] p = p
handle_batch ((message, deleted) ∷ batch) p = handle_batch batch (handle_message message deleted p)

-- The loop; where the rounds end, the context is cancelled at its head.
unfoldable pub run_sqs : List Round → Progress → Progress
unfolding handle_batch
run_sqs [] p = p
run_sqs (receive_failed cancelled ∷ rounds) p =
    let rest = run_sqs rounds (poll_failed p) in if cancelled then p else rest
run_sqs (received batch ∷ rounds) p = run_sqs rounds (handle_batch batch (receive (length batch) p))
