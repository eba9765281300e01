-- ===== src/Consumer/Cancellation.antt =====
-- kafka.go and sqs.go: the loops as they read the context and their transport, and their end.
use internal_developer_platf.Shared.{
  ℕ, zero, suc, ◌+◌, ◌<◌, ◌≡◌, refl, sym, ◌∙◌, ap, Bool, true, false, Option, none, some, List, [],
  ◌∷◌, inl, inr, Bool-cases, length, if◌then◌else◌, arith,
}
use internal_developer_platf.Consumer.{Message, Progress, receive, handle_message, poll_failed}
use internal_developer_platf.Consumer.Kafka
use internal_developer_platf.Consumer.Kafka.{fetch_failed, fetched, run_kafka}
use internal_developer_platf.Consumer.Sqs
use internal_developer_platf.Consumer.Sqs.{receive_failed, received, handle_batch, run_sqs}

-- What a loop meets in its round `n`: whether the context is cancelled when the loop's head reads it,
-- the transport's answer, where `none` is an error, and whether the context is cancelled when it is
-- read after an error.
pub record Environment (Answer : Type 0) : Type 0 where
  pub cancelled_at_head : ℕ → Bool
  pub answer : ℕ → Option Answer
  pub cancelled_after_error : ℕ → Bool

-- How a round ends: the loop is left, or goes on.
data Turn : Type 0 where
  leave : Progress → Turn
  go_on : Progress → Turn

-- A for loop from its round `n` on; `none` means that the fuel ran out.
loop : (ℕ → Progress → Turn) → ℕ → ℕ → Progress → Option Progress
loop turn zero n p = none
loop turn (suc fuel) n p = elim (turn n p) [ leave q ↦ some q | go_on q ↦ loop turn fuel (n + 1) q ]

kafka_turn : Bool → Option (Message × Bool) → Bool → Progress → Turn
kafka_turn true answer after_error p = leave p
kafka_turn false none true p = leave p
kafka_turn false none false p = go_on (poll_failed p)
kafka_turn false (some (message, committed)) after_error p =
    go_on (handle_message message committed (receive 1 p))

-- The loop of RunKafka.
pub kafka_loop : Environment (Message × Bool) → ℕ → Progress → Option Progress
unfolding loop kafka_turn
kafka_loop env fuel p =
    loop (λ n. kafka_turn (env.cancelled_at_head n) (env.answer n) (env.cancelled_after_error n))
      fuel 0 p

sqs_turn : Bool → Option (List (Message × Bool)) → Bool → Progress → Turn
sqs_turn true answer after_error p = leave p
sqs_turn false none true p = leave p
sqs_turn false none false p = go_on (poll_failed p)
sqs_turn false (some batch) after_error p = go_on (handle_batch batch (receive (length batch) p))

-- The loop of RunSQS.
pub sqs_loop : Environment (List (Message × Bool)) → ℕ → Progress → Option Progress
unfolding loop sqs_turn
sqs_loop env fuel p =
    loop (λ n. sqs_turn (env.cancelled_at_head n) (env.answer n) (env.cancelled_after_error n)) fuel
      0 p

abbrev kafka_round : Option (Message × Bool) → Bool → Kafka.Round
kafka_round none after_error = fetch_failed after_error
kafka_round (some (message, committed)) after_error = fetched message committed

abbrev sqs_round : Option (List (Message × Bool)) → Bool → Sqs.Round
sqs_round none after_error = receive_failed after_error
sqs_round (some batch) after_error = received batch

-- The rounds from `n` on whose head finds the context not cancelled, and at most so many.
abbrev pub rounds_from : {Round : Type 0} → (ℕ → Bool) → (ℕ → Round) → ℕ → ℕ → List Round
rounds_from cancelled round zero n = []
rounds_from cancelled round (suc more) n =
    if cancelled n then [] else round n ∷ rounds_from cancelled round more (n + 1)

abbrev pub kafka_rounds : Environment (Message × Bool) → ℕ → List Kafka.Round
kafka_rounds env n =
    rounds_from env.cancelled_at_head
      (λ m. kafka_round (env.answer m) (env.cancelled_after_error m)) n 0

abbrev pub sqs_rounds : Environment (List (Message × Bool)) → ℕ → List Sqs.Round
sqs_rounds env n =
    rounds_from env.cancelled_at_head (λ m. sqs_round (env.answer m) (env.cancelled_after_error m))
      n 0

-- A round leaves the loop, or goes on, as the loop over a list does.
abbrev Steps :
    {Round : Type 0} → (List Round → Progress → Progress) → Round → Progress → Turn → Type 0
Steps {Round} run round p (leave q) = (rest : List Round) → run (round ∷ rest) p ≡ q
Steps {Round} run round p (go_on q) = (rest : List Round) → run (round ∷ rest) p ≡ run rest q

module _ {Round : Type 0} (cancelled : ℕ → Bool) (round : ℕ → Round)
    (run : List Round → Progress → Progress) (turn : ℕ → Progress → Turn)
    (ends : (p : Progress) → run [] p ≡ p)
    (stops : (n : ℕ) (p : Progress) → cancelled n ≡ true → turn n p ≡ leave p)
    (steps : (n : ℕ) (p : Progress) → cancelled n ≡ false → Steps run (round n) p (turn n p)) where
  loop-step :
      (more n fuel : ℕ) (p : Progress) (t : Turn)
      → turn n p ≡ t
      → Steps run (round n) p t
      → ((q : Progress)
          → loop turn fuel (n + 1) q ≡ some (run (rounds_from cancelled round more (n + 1)) q))
      → loop turn (suc fuel) n p ≡ some (run (round n ∷ rounds_from cancelled round more (n + 1)) p)
  unfolding loop
  loop-step more n fuel p (leave q) taken same rest =
      rw (taken, loop) (ap some (sym (same (rounds_from cancelled round more (n + 1)))))
  loop-step more n fuel p (go_on q) taken same rest =
      rw (taken, loop) (rest q ∙ ap some (sym (same (rounds_from cancelled round more (n + 1)))))

  loop-left :
      (n fuel : ℕ) (p : Progress) → cancelled n ≡ true → loop turn (suc fuel) n p ≡ some (run [] p)
  unfolding loop
  loop-left n fuel p over = rw (stops n p over, loop) (ap some (sym (ends p)))

  loop-run :
      (more n fuel : ℕ) (p : Progress)
      → cancelled (n + more) ≡ true
      → more < fuel
      → loop turn fuel n p ≡ some (run (rounds_from cancelled round more n) p)
  loop-run more n zero p over enough = absurd (omega arith)
  loop-run zero n (suc fuel) p over enough = loop-left n fuel p (ground arith)
  loop-run (suc more) n (suc fuel) p over enough = elim (Bool-cases (cancelled n)) [
    | inl now ↦ rw now (loop-left n fuel p now)
    | inr going ↦ rw going (
        loop-step more n fuel p (turn n p) refl (steps n p going)
          λ q. loop-run more (n + 1) fuel q (ground arith) (omega arith))
  ]

kafka_turn-Steps :
    (answer : Option (Message × Bool)) (after_error : Bool) (p : Progress)
    → Steps run_kafka (kafka_round answer after_error) p (kafka_turn false answer after_error p)
unfolding run_kafka kafka_turn
kafka_turn-Steps none true p = λ rest. refl
kafka_turn-Steps none false p = λ rest. refl
kafka_turn-Steps (some (message, committed)) after_error p = λ rest. refl

sqs_turn-Steps :
    (answer : Option (List (Message × Bool))) (after_error : Bool) (p : Progress)
    → Steps run_sqs (sqs_round answer after_error) p (sqs_turn false answer after_error p)
unfolding run_sqs sqs_turn
sqs_turn-Steps none true p = λ rest. refl
sqs_turn-Steps none false p = λ rest. refl
sqs_turn-Steps (some batch) after_error p = λ rest. refl

-- Where the context is cancelled by the head of some round, however the transport answers before,
-- RunKafka and RunSQS end: fuel for one round more is enough for them to return what run_kafka and
-- run_sqs give for the rounds up to the first one whose head finds the context cancelled, at most so
-- many.
pub loops_end :
    (kafka : Environment (Message × Bool)) (sqs : Environment (List (Message × Bool))) (n fuel : ℕ)
    (p : Progress)
    → kafka.cancelled_at_head n ≡ true
    → sqs.cancelled_at_head n ≡ true
    → n < fuel
    → (kafka_loop kafka fuel p ≡ some (run_kafka (kafka_rounds kafka n) p))
      × (sqs_loop sqs fuel p ≡ some (run_sqs (sqs_rounds sqs n) p))
unfolding kafka_loop sqs_loop kafka_turn sqs_turn run_kafka run_sqs
loops_end kafka sqs n fuel p over also enough = (
  loop-run kafka.cancelled_at_head _ run_kafka _ (λ q. refl) (λ m q now. rw now refl)
      (λ m q going. rw going (kafka_turn-Steps (kafka.answer m) (kafka.cancelled_after_error m) q))
      n 0 fuel p (ground arith) enough,
  loop-run sqs.cancelled_at_head _ run_sqs _ (λ q. refl) (λ m q now. rw now refl)
      (λ m q going. rw going (sqs_turn-Steps (sqs.answer m) (sqs.cancelled_after_error m) q)) n 0
      fuel p (ground arith) enough,
)
