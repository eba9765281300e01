-- ===== src/Consumer/Counts.antt =====
-- kafka.go and sqs.go: the counters, the order of actions, and that the two transports agree.
use internal_developer_platf.Shared.{
  ℕ, suc, ◌+◌, ◌≡◌, refl, sym, ap, ◌∙◌, Bool, true, false, List, [], ◌∷◌, ◌++◌, append_assoc,
  append-nil, length, arith,
}
use internal_developer_platf.Consumer.{
  Message, Action, log_received, acknowledge, log_acknowledged, log_failed, log_poll_failed,
  Progress, receive, handle_message, poll_failed,
}
use internal_developer_platf.Consumer.Kafka
use internal_developer_platf.Consumer.Kafka.{fetch_failed, fetched, run_kafka}
use internal_developer_platf.Consumer.Sqs
use internal_developer_platf.Consumer.Sqs.{receive_failed, received, handle_batch, run_sqs}

-- The rounds of Kafka that answer as one batch of SQS does.
abbrev pub batch_rounds : List (Message × Bool) → List Kafka.Round → List Kafka.Round
batch_rounds [] rest = rest
batch_rounds ((message, deleted) ∷ batch) rest = fetched message deleted ∷ batch_rounds batch rest

abbrev pub one_by_one : List Sqs.Round → List Kafka.Round
one_by_one [] = []
one_by_one (receive_failed cancelled ∷ rounds) = fetch_failed cancelled ∷ one_by_one rounds
one_by_one (received batch ∷ rounds) = batch_rounds batch (one_by_one rounds)

receive-handle :
    (message : Message) (deleted : Bool) (n : ℕ) (p : Progress)
    → handle_message message deleted (receive n p) ≡ receive n (handle_message message deleted p)
unfolding handle_message receive
receive-handle message true n p = refl
receive-handle message false n p = refl

receive-one : (n : ℕ) (p : Progress) → receive n (receive 1 p) ≡ receive (suc n) p
unfolding receive
receive-one n p = ground arith

receive-zero : (p : Progress) → p ≡ receive 0 p
unfolding receive
receive-zero p = ground arith

run_batch :
    (batch : List (Message × Bool)) (rest : List Kafka.Round) (p : Progress)
    → run_kafka (batch_rounds batch rest) p
      ≡ run_kafka rest (handle_batch batch (receive (length batch) p))
unfolding run_kafka handle_batch
run_batch [] rest p = ap (run_kafka rest) (receive-zero p)
run_batch ((message, deleted) ∷ batch) rest p =
    run_batch batch rest (handle_message message deleted (receive 1 p))
    ∙ ap (λ q. run_kafka rest (handle_batch batch q))
        (sym (receive-handle message deleted (length batch) (receive 1 p))
          ∙ ap (handle_message message deleted) (receive-one (length batch) p))

-- From any progress, the loop over SQS ends with the counters and the actions with which the loop
-- over Kafka ends where the same messages come one by one, with the same acknowledgements and the
-- same failures of the transport.
pub run_sqs-run_kafka :
    (rounds : List Sqs.Round) (p : Progress) → run_sqs rounds p ≡ run_kafka (one_by_one rounds) p
unfolding run_sqs run_kafka
run_sqs-run_kafka [] p = refl
run_sqs-run_kafka (receive_failed true ∷ rounds) p = refl
run_sqs-run_kafka (receive_failed false ∷ rounds) p = run_sqs-run_kafka rounds (poll_failed p)
run_sqs-run_kafka (received batch ∷ rounds) p =
    run_sqs-run_kafka rounds (handle_batch batch (receive (length batch) p))
    ∙ sym (run_batch batch (one_by_one rounds) p)

-- The messages that are fetched before the context is cancelled, with their acknowledgements.
abbrev pub taken : List Kafka.Round → List (Message × Bool)
taken [] = []
taken (fetch_failed true ∷ rounds) = []
taken (fetch_failed false ∷ rounds) = taken rounds
taken (fetched message committed ∷ rounds) = (message, committed) ∷ taken rounds

abbrev pub tally : Bool → List (Message × Bool) → ℕ
tally b [] = 0
tally true ((message, true) ∷ messages) = suc (tally true messages)
tally true ((message, false) ∷ messages) = tally true messages
tally false ((message, true) ∷ messages) = tally false messages
tally false ((message, false) ∷ messages) = suc (tally false messages)

abbrev pub outcome_log : Bool → Action
outcome_log true = log_acknowledged
outcome_log false = log_failed

abbrev pub trace : List Kafka.Round → List Action
trace [] = []
trace (fetch_failed true ∷ rounds) = []
trace (fetch_failed false ∷ rounds) = log_poll_failed ∷ trace rounds
trace (fetched message committed ∷ rounds) =
    log_received message.body ∷ acknowledge message.receipt ∷ outcome_log committed ∷ trace rounds

-- What a loop that starts at `p` adds for these rounds.
pub record Adds (rounds : List Kafka.Round) (p q : Progress) : Type 0 where
  pub received : q.metrics.received ≡ p.metrics.received + length (taken rounds)
  pub processed : q.metrics.processed ≡ p.metrics.processed + tally true (taken rounds)
  pub failed : q.metrics.failed ≡ p.metrics.failed + tally false (taken rounds)
  pub actions : q.actions ≡ p.actions ++ trace rounds

-- Until the context is cancelled, each fetched message is counted as received once and as
-- processed or failed once, by whether its commit succeeded; it is logged, then committed, then the
-- outcome is logged, message after message in order; a failed fetch is logged and passed over.
pub run_kafka-Adds : (rounds : List Kafka.Round) (p : Progress) → Adds rounds p (run_kafka rounds p)
unfolding run_kafka handle_message receive poll_failed
run_kafka-Adds [] p = record {
  received = omega arith;
  processed = omega arith;
  failed = omega arith;
  actions = sym (append-nil p.actions);
}
run_kafka-Adds (fetch_failed true ∷ rounds) p = record {
  received = omega arith;
  processed = omega arith;
  failed = omega arith;
  actions = sym (append-nil p.actions);
}
run_kafka-Adds (fetch_failed false ∷ rounds) p =
    let later = run_kafka-Adds rounds (poll_failed p) in
    record {
      received = omega (arith, later.received);
      processed = omega (arith, later.processed);
      failed = omega (arith, later.failed);
      actions = later.actions ∙ (simp append_assoc);
    }
run_kafka-Adds (fetched message true ∷ rounds) p =
    let later = run_kafka-Adds rounds (handle_message message true (receive 1 p)) in
    record {
      received = omega (arith, later.received);
      processed = omega (arith, later.processed);
      failed = omega (arith, later.failed);
      actions = later.actions ∙ (simp append_assoc);
    }
run_kafka-Adds (fetched message false ∷ rounds) p =
    let later = run_kafka-Adds rounds (handle_message message false (receive 1 p)) in
    record {
      received = omega (arith, later.received);
      processed = omega (arith, later.processed);
      failed = omega (arith, later.failed);
      actions = later.actions ∙ (simp append_assoc);
    }
