-- ===== src/Idempotency/Tests/Lost.antt =====
-- A request and its repetition, where the completion of the first is lost.
use internal_developer_platf.Shared.{
  ℕ, ◌+◌, ◌≡◌, ◌≢◌, refl, [], ◌∷◌, ◌++◌, ◌==◌, if◌then◌else◌, arith,
}
use internal_developer_platf.Http.{
  returned, fresh_writer, header_set, apply_ops, apply_op, final_response,
}
use internal_developer_platf.Idempotency.Redis.{healthy, lost_request, live}
use internal_developer_platf.Idempotency.Program.{Conditions, run}
use internal_developer_platf.Idempotency.Store.{redis_store}
use internal_developer_platf.Idempotency.Middleware.{idempotency_middleware}
use internal_developer_platf.Idempotency.Middleware.Refusals.{Sends}
use internal_developer_platf.Idempotency.Middleware.Lost.{lost_completion_blocks}
use internal_developer_platf.Idempotency.Tests.Examples.{accepted-IsCacheable}
use internal_developer_platf.Idempotency.Tests.{
  plain, plain-CodecLaws, platform, request, accepted, start, request-IsKeyed, hundred,
}

abbrev dropping : ℕ → Conditions
dropping n = record {
  link = if n == 2 then lost_request else healthy;
  server_time = 1;
  local_time = 1;
}

dropping-healthy : (n : ℕ) → n ≢ 0 + 2 → (dropping n).link ≡ healthy
dropping-healthy n other = ground arith

lost_completion_blocks_example :
    let send = idempotency_middleware platform (redis_store plain) 100 in
    let (first, w₁) = run plain dropping (λ r. accepted) (send request fresh_writer) start in
    let (second, w₂) = run plain dropping (λ r. accepted) (send request fresh_writer) w₁ in
    (final_response first.0 ≡ record { status = 202; header = ("Location", "/x" ∷ []) ∷ [] })
    × (first.0.body ≡ (apply_ops fresh_writer accepted.ops).body)
    × (first.1 ≡ returned)
    × Sends second.0 409
    × (w₂.served ≡ start.served ++ request ∷ [])
unfolding apply_ops apply_op header_set live
lost_completion_blocks_example =
    lost_completion_blocks platform plain plain-CodecLaws 100 dropping (λ r. accepted)
      (λ n. omega arith) 0 (λ n. (omega arith, omega arith)) hundred request request fresh_writer
      fresh_writer "k1" (7 ∷ []) start
      (record { status = 202; header = ("Location", "/x" ∷ []) ∷ [] }) dropping-healthy refl
      request-IsKeyed request-IsKeyed (refl, refl, tt) refl accepted-IsCacheable refl refl
