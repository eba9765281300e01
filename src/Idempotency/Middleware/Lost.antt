-- ===== src/Idempotency/Middleware/Lost.antt =====
-- idempotency_middleware.go and redis_store.go: a completion that does not reach the store.
use internal_developer_platf.Shared.{
  ℕ, ◌+◌, ◌≤◌, ◌<◌, String, ◌≡◌, refl, ◌∙◌, ap, ◌≢◌, true, none, some, List, [], ◌∷◌, ◌++◌, arith,
  err,
}
use internal_developer_platf.Http.{
  Request, Script, Writer, Sent, returned, apply_ops, apply_op, final_response,
}
use internal_developer_platf.Idempotency.Record.{redis_complete_script}
use internal_developer_platf.Idempotency.Redis.{
  Codec, CodecLaws, Envelope, healthy, lost_request, update, year_10000,
}
use internal_developer_platf.Idempotency.Program.{Conditions, World, run}
use internal_developer_platf.Idempotency.Store.{
  redis_store, prefixed, reservation_envelope, completion_envelope, read_record,
}
use internal_developer_platf.Idempotency.Store.Runs.{
  slot, timed, later, slot-written, run-reserve_free_sent,
}
use internal_developer_platf.Idempotency.Store.Faults.{run-complete_lost}
use internal_developer_platf.Idempotency.Recorder.{
  new_response_recorder, record_ops, captured_headers,
}
use internal_developer_platf.Idempotency.Recorder.Mirror.{record_ops-transparent}
use internal_developer_platf.Idempotency.Middleware.{
  Platform, idempotency_middleware, serve_reserved, should_cache_response, note_completion,
}
use internal_developer_platf.Idempotency.Middleware.Once.{
  IsKeyed, idempotency_middleware-keyed, settle-kept, request_id_of,
}
use internal_developer_platf.Idempotency.Middleware.Taken.{run-taken_sent}
use internal_developer_platf.Idempotency.Middleware.Retry.{IsFresh, IsCacheable, kept_of_bounds}
use internal_developer_platf.Idempotency.Middleware.Refusals.{Sends, replay-in_flight}
use internal_developer_platf.Idempotency.Middleware.Failures.{completion_failure_unseen}

-- The world after a request's reservation and its handler.
abbrev served_world :
    {Raw : Type 0} → (ℕ → Conditions) → ℕ → Request → String → World Raw → Raw → World Raw
served_world conditions ttl request key w reserved = record {
  commands = w.commands + 1;
  server =
      update w.server (prefixed key)
        (some (timed reserved (conditions w.commands).server_time ttl));
  served = w.served ++ request ∷ [];
}

module _ (platform : Platform) {Raw : Type 0} (json : Codec Raw) (ttl : ℕ)
    (conditions : ℕ → Conditions) (next : Request → Script) (request : Request) (out : Writer)
    (key : String) (body : List ℕ) (keyed : IsKeyed platform request key body) where
  -- The first run, with its completion lost: the reservation stands.
  run-unfinished :
      (w : World Raw) (reserved stored : Raw) (e : Envelope)
      → let r = record_ops (new_response_recorder out) (next request).ops in
        (conditions w.commands).link ≡ healthy
        → (conditions (w.commands + 1)).link ≡ healthy
        → (conditions (w.commands + 1 + 1)).link ≡ lost_request
        → json.marshal
            (reservation_envelope (platform.digest body) (conditions w.commands).local_time ttl)
          ≡ some reserved
        → slot conditions w key ≡ none
        → slot conditions (served_world conditions ttl request key w reserved) key
          ≡ some (timed reserved (conditions w.commands).server_time ttl)
        → json.unmarshal reserved ≡ some e
        → json.marshal (
            completion_envelope
              (read_record key e)
              r.status
              (captured_headers r)
              r.body
              (conditions (w.commands + 1)).local_time
              ttl)
          ≡ some stored
        → (next request).ending ≡ returned
        → should_cache_response r.status ≡ true
        → run json conditions next
            (idempotency_middleware platform (redis_store json) ttl request out)
            w
          ≡ (
            (
              note_completion platform (redis_store json) ttl r (err redis_complete_script),
              returned,
            ),
            later 2 (served_world conditions ttl request key w reserved),
          )
  unfolding serve_reserved run
  run-unfinished w reserved stored e first second third marshalled free stands decoded completed
        ending kept =
      let r = record_ops (new_response_recorder out) (next request).ops in
      ap (λ p. run json conditions next p w)
        (idempotency_middleware-keyed platform json ttl request out key body keyed)
      ∙ run-reserve_free_sent json conditions next key (platform.digest body) ttl reserved w
          (serve_reserved platform (redis_store json) ttl request out key (platform.digest body)
            (request_id_of request))
          first marshalled free
      ∙ ap (λ p. run json conditions next p (served_world conditions ttl request key w reserved))
          (settle-kept platform json ttl key r (next request).ending ending kept)
      ∙ run-complete_lost json conditions next key r.status (captured_headers r) r.body ttl
          (served_world conditions ttl request key w reserved)
          (timed reserved (conditions w.commands).server_time ttl) e stored _ second third stands
          decoded completed

module _ (platform : Platform) {Raw : Type 0} (json : Codec Raw) (laws : CodecLaws json) (ttl : ℕ)
    (conditions : ℕ → Conditions) (next : Request → Script)
    (dates : (n : ℕ) → (conditions n).local_time + ttl < year_10000) (base : ℕ)
    (window : (n : ℕ)
      → (base ≤ (conditions n).server_time) × ((conditions n).server_time < base + ttl))
    (ttl_pos : ttl ≢ 0) where
  -- A request whose key is free is sent, and sent again with the same key and body, where the script
  -- of its completion is the one command that is lost on the way, the server's clock stays within
  -- one time to live, and the dates can be written. If the handler has begun its response and it has
  -- a status from 200 to 499, the client gets it as it is, with no sign of the failure. The repeated
  -- request is refused with 409, although the first has been answered, and the handler has run once.
  pub lost_completion_blocks :
      (request repeated : Request) (out again_out : Writer) (key : String) (body : List ℕ)
      (w : World Raw) (sent : Sent)
      → ((n : ℕ) → n ≢ w.commands + 2 → (conditions n).link ≡ healthy)
      → (conditions (w.commands + 2)).link ≡ lost_request
      → IsKeyed platform request key body
      → IsKeyed platform repeated key body
      → IsFresh out
      → again_out.sent ≡ none
      → IsCacheable out (next request)
      → (apply_ops out (next request).ops).sent ≡ some sent
      → slot conditions w key ≡ none
      → let send = idempotency_middleware platform (redis_store json) ttl in
        let (first, w₁) = run json conditions next (send request out) w in
        let (second, w₂) = run json conditions next (send repeated again_out) w₁ in
        (final_response first.0 ≡ sent)
        × (first.0.body ≡ (apply_ops out (next request).ops).body)
        × (first.1 ≡ returned)
        × Sends second.0 409
        × (w₂.served ≡ w.served ++ request ∷ [])
  unfolding note_completion apply_op
  lost_completion_blocks request repeated out again_out key body w sent links lost keyed again fresh
        again_fresh cacheable began free =
      let r = record_ops (new_response_recorder out) (next request).ops in
      let transparent =
        record_ops-transparent out (next request).ops fresh.0 fresh.1 cacheable.final in
      let env₀ =
        reservation_envelope (platform.digest body) (conditions w.commands).local_time ttl in
      let (reserved, m₀) =
        laws.marshals env₀ (omega (arith, dates w.commands)) (omega (arith, dates w.commands)) in
      let (e, d, same) = laws.round_trip env₀ reserved m₀ in
      let (stored, m₁) =
        laws.marshals
          (completion_envelope (read_record key e) r.status (captured_headers r) r.body
            (conditions (w.commands + 1)).local_time ttl)
          (omega (arith, dates w.commands, same.created_at))
          (omega (arith, dates (w.commands + 1))) in
      let served = served_world conditions ttl request key w reserved in
      let stands = λ (v : World Raw) (written : v.server ≡ served.server).
        slot-written conditions key reserved ttl w.commands w.server v ttl_pos
          (omega (arith, window v.commands, window w.commands)) written in
      let first =
        run-unfinished platform json ttl conditions next request out key body keyed w reserved
          stored e (links w.commands (omega arith)) (links (w.commands + 1) (omega arith))
          (ground arith) m₀ free (stands served refl) d m₁ cacheable.ends
          (rw transparent.1 (kept_of_bounds _ cacheable.low cacheable.high)) in
      let w₁ = later 2 served in
      let (retried, m₂) =
        laws.marshals
          (reservation_envelope (platform.digest body) (conditions w₁.commands).local_time ttl)
          (omega (arith, dates w₁.commands)) (omega (arith, dates w₁.commands)) in
      let second =
        run-taken_sent platform json ttl conditions next repeated again_out key body w₁ retried
          (timed reserved (conditions w.commands).server_time ttl) e again
          (links w₁.commands (omega arith)) (links (w₁.commands + 1) (omega arith)) m₂
          (stands w₁ refl) (stands (later 1 w₁) refl) d in
      rw (first, second)
        (
          completion_failure_unseen platform json ttl r sent redis_complete_script
              (ap (λ (v : Writer). v.sent) transparent.0 ∙ began),
          ap (λ (v : Writer). v.body) transparent.0,
          refl,
          (replay-in_flight platform again_out key (platform.digest body) (request_id_of repeated) e
              again_fresh same.request_hash same.state).0,
          refl,
        )
