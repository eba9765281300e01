-- ===== src/Idempotency/Tests/Recovery.antt =====
-- A request that stops with its handler under way, and the requests that come after.
use internal_developer_platf.Shared.{ℕ, ◌+◌, ◌≡◌, refl, [], ◌∷◌, arith}
use internal_developer_platf.Http.{
  Writer, Ending, returned, fresh_writer, apply_ops, apply_op, final_response,
}
use internal_developer_platf.Idempotency.Redis.{Envelope, healthy}
use internal_developer_platf.Idempotency.Program.{Conditions, run}
use internal_developer_platf.Idempotency.Store.{redis_store}
use internal_developer_platf.Idempotency.Middleware.{idempotency_middleware}
use internal_developer_platf.Idempotency.Middleware.Retry.{RepeatsAnswer}
use internal_developer_platf.Idempotency.Contract.Calls.{at_server}
use internal_developer_platf.Idempotency.Exclusion.{Pool, act_at, act}
use internal_developer_platf.Idempotency.Expiry.{
  AnyReach, here, next, command, wait, AllEndBy, entries_end,
}
use internal_developer_platf.Idempotency.Expiry.Recovery.{abandoned_keys_recover}
use internal_developer_platf.Idempotency.Tests.{
  plain, plain-CodecLaws, platform, request, accepted, empty_server, request-IsKeyed, hundred,
}
use internal_developer_platf.Idempotency.Tests.Examples.{accepted-IsCacheable}
use internal_developer_platf.Idempotency.Tests.Interleaved.{arrived}

-- The request 0 reads the clock and makes its reservation, at the time 1; nothing more comes from
-- it, and seven milliseconds pass.
abbrev stopped : Pool Envelope (Writer × Ending)
stopped =
    let pool = act_at plain healthy 1 accepted 0 (act_at plain healthy 1 accepted 0 arrived) in
    record pool { now = pool.now + 7 }

stopped-AnyReach : AnyReach plain arrived stopped
stopped-AnyReach =
    next (next (next here (command healthy 1 accepted 0 _)) (command healthy 1 accepted 0 _))
      (wait 7 _)

entries_end_example : AllEndBy (stopped.now + 100) stopped.server
entries_end_example =
    entries_end platform plain 100 (λ i. request) (λ i. fresh_writer) (λ i. "k1") 1 empty_server
      stopped hundred (λ name. tt) stopped-AnyReach

-- Every command arrives, at the time 108.
abbrev afterwards : ℕ → Conditions
afterwards n = record { link = healthy; server_time = 108; local_time = 108 }

abandoned_keys_recover_example :
    let send = idempotency_middleware platform (redis_store plain) 100 in
    let (first, w₁) =
      run plain afterwards (λ r. accepted) (send request fresh_writer) (at_server stopped.server) in
    let (second, w₂) = run plain afterwards (λ r. accepted) (send request fresh_writer) w₁ in
    (first ≡ (apply_ops fresh_writer accepted.ops, returned))
    × RepeatsAnswer (apply_ops fresh_writer accepted.ops) second.0
    × (second.1 ≡ returned)
    × (w₂.served ≡ request ∷ [])
unfolding apply_ops apply_op final_response act_at act
abandoned_keys_recover_example =
    abandoned_keys_recover platform plain plain-CodecLaws 100 afterwards (λ r. accepted) (λ n. refl)
      (λ n. omega arith) 108 (λ n. (omega arith, omega arith)) hundred (λ i. request)
      (λ i. fresh_writer) (λ i. "k1") 1 empty_server (λ name. tt) stopped stopped-AnyReach request
      request fresh_writer fresh_writer "k1" (7 ∷ []) (omega arith) request-IsKeyed request-IsKeyed
      (refl, refl, tt) (refl, refl, tt) accepted-IsCacheable
