-- ===== src/Consumer.antt =====
-- services/provisioner/internal/consumer: the loops that take provisioning messages from Kafka and
-- from SQS, over an environment that says what each call answers.
pub mod Kafka
pub mod Sqs
pub mod Counts
pub mod Cancellation
mod Tests
use internal_developer_platf.Shared.{ℕ, ◌+◌, String, Bool, true, false, List, [], ◌∷◌, ◌++◌}

-- Metrics: the three counters.
pub record Metrics : Type 0 where
  pub received : ℕ
  pub processed : ℕ
  pub failed : ℕ

unfoldable pub new_metrics : Metrics
new_metrics = record { received = 0; processed = 0; failed = 0 }

-- A message, and what names it when it is acknowledged: its offset or its receipt handle.
pub record Message : Type 0 where
  pub body : String
  pub receipt : String

-- What a loop does that others can see, in order.
pub data Action : Type 0 where
  log_received : String → Action
  acknowledge : String → Action
  log_acknowledged log_failed log_poll_failed : Action

pub record Progress : Type 0 where
  pub metrics : Metrics
  pub actions : List Action

abbrev pub start : Progress
start = record { metrics = record { received = 0; processed = 0; failed = 0 }; actions = [] }

-- metrics.Received.Add
unfoldable pub receive : ℕ → Progress → Progress
receive n p = record p { metrics = record p.metrics { received = p.metrics.received + n } }

unfoldable pub settle : Bool → Progress → Progress
settle true p = record {
  metrics = record p.metrics { processed = p.metrics.processed + 1 };
  actions = p.actions ++ log_acknowledged ∷ [];
}
settle false p = record {
  metrics = record p.metrics { failed = p.metrics.failed + 1 };
  actions = p.actions ++ log_failed ∷ [];
}

-- A message that has been received is logged and then acknowledged, which succeeds or fails.
unfoldable pub handle_message : Message → Bool → Progress → Progress
unfolding settle
handle_message message acknowledged p = settle acknowledged (record p {
  actions = p.actions ++ (log_received message.body ∷ acknowledge message.receipt ∷ []);
})

unfoldable pub poll_failed : Progress → Progress
poll_failed p = record p { actions = p.actions ++ log_poll_failed ∷ [] }
