-- ===== src/Idempotency/Tests/Examples.antt =====
-- The theorems on the idempotency middleware and its store, at concrete requests and records.
use internal_developer_platf.Shared.{
  ◌≡◌, refl, inl, inr, none, some, [], ◌∷◌, ◌++◌, arith, ok, str_eq_iff,
}
use internal_developer_platf.Http.{
  fresh_writer, returned, panicked, apply_ops, final_response, values, header_get, apply_op,
  Request, sendable,
}
use internal_developer_platf.Idempotency.Record.{state_completed, state_in_flight, lookup}
use internal_developer_platf.Idempotency.Redis.{Envelope, update, live, is_live}
use internal_developer_platf.Idempotency.Program.{run}
use internal_developer_platf.Idempotency.Store.{redis_store, prefixed, release}
use internal_developer_platf.Idempotency.Store.Runs.{slot}
use internal_developer_platf.Idempotency.Recorder.{new_response_recorder, record_ops}
use internal_developer_platf.Idempotency.Recorder.Mirror.{record_ops-transparent}
use internal_developer_platf.Idempotency.Middleware.{idempotency_middleware}
use internal_developer_platf.Idempotency.Middleware.Retry.{
  IsCacheable, RepeatsAnswer, retry_is_replayed,
}
use internal_developer_platf.Idempotency.Middleware.Refusals.{
  Sends, bad_request_changes_nothing, unreachable_store_refuses, other_body_refused,
  concurrent_refused,
}
use internal_developer_platf.Idempotency.Middleware.Failures.{failure_is_retryable}
use internal_developer_platf.Idempotency.Hazards.{release_deletes_completed}
use internal_developer_platf.Idempotency.Tests.{
  plain, plain-CodecLaws, platform, request, accepted, breaks, steady, lossy, start, send, standing,
  holding, healthy_steady, dates_steady, window_steady, hundred, request-IsKeyed,
}

pub accepted-IsCacheable : IsCacheable fresh_writer accepted
unfolding final_response apply_ops apply_op
accepted-IsCacheable = record {
  ends = refl;
  final = (tt, (refl, (tt, tt)));
  low = omega arith;
  high = omega arith;
}

start-free : slot steady start "k1" ≡ none
unfolding live
start-free = refl

retry_is_replayed_example :
    let (first, w₁) = send accepted request start in
    let (second, w₂) = send accepted request w₁ in
    (first ≡ (apply_ops fresh_writer accepted.ops, returned))
    × RepeatsAnswer (apply_ops fresh_writer accepted.ops) second.0
    × (second.1 ≡ returned)
    × (w₂.served ≡ start.served ++ request ∷ [])
retry_is_replayed_example =
    retry_is_replayed platform plain plain-CodecLaws 100 steady (λ r. accepted) healthy_steady
      dates_steady 0 window_steady hundred request request fresh_writer fresh_writer "k1" (7 ∷ [])
      start request-IsKeyed request-IsKeyed (refl, refl, tt) (refl, refl, tt) accepted-IsCacheable
      start-free

failure_is_retryable_example :
    let (answer, w') = send breaks request start in
    (answer ≡ (apply_ops fresh_writer breaks.ops, panicked "boom"))
    × (w'.served ≡ start.served ++ request ∷ [])
    × (slot steady w' "k1" ≡ none)
failure_is_retryable_example =
    failure_is_retryable platform plain 100 plain-CodecLaws steady (λ r. breaks) healthy_steady
      dates_steady 0 window_steady hundred request fresh_writer "k1" (7 ∷ []) start request-IsKeyed
      refl refl (refl, tt) (inl ("boom", refl)) start-free

abbrev mismatching : Envelope
mismatching = record (standing state_completed []) { request_hash = "empty" }

slot-holding :
    (e : Envelope) → slot steady (holding e) "k1" ≡ some (record { value = e; expires = some 90 })
unfolding live update is_live
slot-holding e = refl

other_body_refused_example :
    let (answer, w') = send accepted request (holding mismatching) in
    Sends answer.0 422
    × (w'.served ≡ (holding mismatching).served)
    × (w'.server ≡ (holding mismatching).server)
other_body_refused_example =
    other_body_refused platform plain 100 steady (λ r. accepted) healthy_steady request fresh_writer
      refl "k1" (7 ∷ []) request-IsKeyed (holding mismatching) _ _ mismatching refl
      (slot-holding mismatching) (slot-holding mismatching) refl
      (ground (arith, str_eq_iff "empty" "full"))

concurrent_refused_example :
    let flying = holding (standing state_in_flight []) in
    let (answer, w') = send accepted request flying in
    Sends answer.0 409
    × (values "Retry-After" (final_response answer.0).header ≡ "1" ∷ [])
    × (w'.served ≡ flying.served)
    × (w'.server ≡ flying.server)
concurrent_refused_example =
    concurrent_refused platform plain 100 steady (λ r. accepted) healthy_steady request fresh_writer
      refl "k1" (7 ∷ []) request-IsKeyed (holding (standing state_in_flight [])) _ _
      (standing state_in_flight []) refl (slot-holding (standing state_in_flight []))
      (slot-holding (standing state_in_flight [])) refl refl refl

unreachable_store_refuses_example :
    let (answer, w') =
      run plain lossy
        (λ r. accepted)
        (idempotency_middleware platform (redis_store plain) 100 request fresh_writer)
        start in
    Sends answer.0 500 × (answer.1 ≡ returned) × (w'.served ≡ start.served)
unreachable_store_refuses_example =
    unreachable_store_refuses platform plain 100 lossy (λ r. accepted) request fresh_writer refl
      start "k1" (7 ∷ []) request-IsKeyed (ground arith)

abbrev unreadable : Request
unreadable = record request { body = none }

bad_request_changes_nothing_example :
    let (answer, w') = send accepted unreadable start in
    Sends answer.0 400 × (answer.1 ≡ returned) × (w' ≡ start)
unfolding header_get
bad_request_changes_nothing_example =
    bad_request_changes_nothing platform plain 100 steady (λ r. accepted) unreadable fresh_writer
      refl start request-IsKeyed.key_given (inr refl)

record_ops-transparent_example :
    let r = record_ops (new_response_recorder fresh_writer) accepted.ops in
    (r.writer ≡ apply_ops fresh_writer accepted.ops)
    × (r.status ≡ (final_response (apply_ops fresh_writer accepted.ops)).status)
    × ((apply_ops fresh_writer accepted.ops).body ≡ sendable r.status r.body)
record_ops-transparent_example =
    record_ops-transparent fresh_writer accepted.ops refl refl (tt, (refl, (tt, tt)))

abbrev marked : Envelope
marked = standing state_completed (("X-Phase", state_in_flight) ∷ [])

release_deletes_completed_example :
    let (answer, w') = run plain steady (λ r. accepted) (release plain "k1") (holding marked) in
    (answer ≡ ok tt) × (w'.server ≡ update (holding marked).server (prefixed "k1") none)
unfolding lookup
release_deletes_completed_example =
    release_deletes_completed plain plain-CodecLaws steady (λ r. accepted) healthy_steady "k1"
      "X-Phase" (holding marked) _ marked (slot-holding marked) refl refl refl
