-- ===== src/Idempotency/Tests/Interleaved.antt =====
-- The recorder, a replay and requests at once, at concrete requests and records.
use internal_developer_platf.Shared.{ℕ, ◌≡◌, refl, some, [], ◌∷◌, arith, str_eq_iff}
use internal_developer_platf.Http.{
  Writer, Ending, fresh_writer, apply_ops, values, header_get, header_set, apply_op,
}
use internal_developer_platf.Idempotency.Record.{state_completed, state_in_flight, lookup}
use internal_developer_platf.Idempotency.Redis.{
  Envelope, healthy, exec_set_nx, update, live, is_live, transmit,
}
use internal_developer_platf.Idempotency.Store.{reserve, read_record}
use internal_developer_platf.Idempotency.Recorder.{
  new_response_recorder, record_ops, record_op, captured_headers, is_skipped,
}
use internal_developer_platf.Idempotency.Recorder.Capture.{captured_headers_lem}
use internal_developer_platf.Idempotency.Middleware.{idempotency_middleware, replay_cached_response}
use internal_developer_platf.Idempotency.Middleware.Replay.{Replays, replay_cached_response-Replays}
use internal_developer_platf.Idempotency.Exclusion.{Pool, Reach, here, next, command, act_at, act}
use internal_developer_platf.Idempotency.Exclusion.Invariant.{
  handlers_exclude_each_other, arrivals, IsServing,
}
use internal_developer_platf.Idempotency.Tests.{
  plain, platform, request, accepted, empty_server, standing, request-IsKeyed,
}

abbrev finished : Envelope
finished = standing state_completed (("Location", "/x") ∷ [])

replay_cached_response-Replays_example : Replays (read_record "k1" finished) fresh_writer (
    apply_ops fresh_writer
      (replay_cached_response platform (some (read_record "k1" finished)) "full" "r1"))
replay_cached_response-Replays_example =
    replay_cached_response-Replays platform (read_record "k1" finished) fresh_writer "full" "r1"
      refl (ground (arith, str_eq_iff state_completed state_in_flight)) (ground arith) refl refl
      refl

captured_headers_lem_example :
    lookup "Location"
      (captured_headers (record_ops (new_response_recorder fresh_writer) accepted.ops))
    ≡ some "/x"
unfolding is_skipped values record_ops record_op new_response_recorder apply_op header_set
captured_headers_lem_example =
    captured_headers_lem (record_ops (new_response_recorder fresh_writer) accepted.ops) "Location"
      (refl, tt)

abbrev pub arrived : Pool Envelope (Writer × Ending)
arrived = arrivals platform plain 100 (λ i. request) (λ i. fresh_writer) (λ i. "k1") 1 empty_server

-- The clock is read and the reservation made by the request 0; then the request 1 does the same.
abbrev raced : Pool Envelope (Writer × Ending)
raced = act_at plain healthy 1 accepted 1 (
    act_at plain healthy 1 accepted 1
      (act_at plain healthy 1 accepted 0 (act_at plain healthy 1 accepted 0 arrived)))

raced-Reach : Reach plain arrived raced
raced-Reach =
    next
      (next (next (next here (command healthy 1 accepted 0 _)) (command healthy 1 accepted 0 _))
        (command healthy 1 accepted 1 _))
      (command healthy 1 accepted 1 _)

raced-IsServing : IsServing (raced.processes 0).program
unfolding act_at act exec_set_nx live is_live update transmit idempotency_middleware reserve
    header_get
raced-IsServing = tt

handlers_exclude_each_other_example : ◌≡◌ {A = ℕ} 0 0
handlers_exclude_each_other_example =
    handlers_exclude_each_other platform plain 100 (λ i. request) (λ i. fresh_writer) (λ i. "k1")
      (λ i. 7 ∷ []) 1 empty_server raced 0 0 (λ n. request-IsKeyed) raced-Reach raced-IsServing
      raced-IsServing refl
