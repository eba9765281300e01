-- ===== src/Idempotency/Middleware/Retry.antt =====
-- idempotency_middleware.go and redis_store.go together: a request that is sent twice.
use internal_developer_platf.Shared.{
  ℕ, ◌+◌, ◌≤◌, ◌<◌, String, ◌≡◌, refl, sym, ap₂, ◌∙◌, ◌≢◌, true, false, none, List, [], ◌∷◌, ◌++◌,
  arith,
}
use internal_developer_platf.Http.{
  Request, Script, Writer, returned, header_get, apply_ops, final_response, is_informational,
  values, sendable,
}
use internal_developer_platf.Idempotency.Record.{IdempotencyRecord, completed_ne_in_flight}
use internal_developer_platf.Idempotency.Redis.{
  Codec, CodecLaws, SameEnvelope, Envelope, healthy, year_10000,
}
use internal_developer_platf.Idempotency.Program.{Conditions, World, run}
use internal_developer_platf.Idempotency.Store.{
  redis_store, reservation_envelope, completion_envelope, read_record,
}
use internal_developer_platf.Idempotency.Store.Runs.{slot, timed, later}
use internal_developer_platf.Idempotency.Recorder.{
  new_response_recorder, record_ops, captured_headers,
}
use internal_developer_platf.Idempotency.Recorder.Mirror.{AllFinal, record_ops-transparent}
use internal_developer_platf.Idempotency.Recorder.Capture.{
  IsUnique, is_one_of, per_response_names, captured_headers_lem, apply_ops-IsUnique,
}
use internal_developer_platf.Idempotency.Middleware.{
  Platform, idempotency_middleware, idempotency_replay_header, should_cache_response,
}
use internal_developer_platf.Idempotency.Middleware.Replay.{Replays, replay_cached_response-Replays}
use internal_developer_platf.Idempotency.Middleware.Once.{
  IsKeyed, run-first, slot-timed, completed_world, reserved_world,
}
use internal_developer_platf.Idempotency.Middleware.Taken.{run-taken}

-- A writer that has sent nothing, with the headers that the outer layers have set.
abbrev pub IsFresh : Writer → Type 0
IsFresh w = (w.sent ≡ none) × (w.body ≡ []) × IsUnique w.header

-- A handler's script that ends normally with a status from 200 to 499.
pub record IsCacheable (out : Writer) (script : Script) : Type 0 where
  pub ends : script.ending ≡ returned
  pub final : AllFinal script.ops
  pub low : 200 ≤ (final_response (apply_ops out script.ops)).status
  pub high : (final_response (apply_ops out script.ops)).status < 500

-- The answer to a repeated request, against what the handler wrote the first time.
pub record RepeatsAnswer (written again : Writer) : Type 0 where
  pub status : (final_response again).status ≡ (final_response written).status
  pub body : again.body ≡ written.body
  pub marked : header_get idempotency_replay_header (final_response again).header ≡ "true"
  pub header :
      (name value : String) (more : List String)
      → is_one_of name per_response_names ≡ false
      → name ≢ idempotency_replay_header
      → values name written.header ≡ value ∷ more
      → values name (final_response again).header ≡ value ∷ []

Replays-RepeatsAnswer :
    (out again_out again : Writer) (script : Script) (key : String) (now ttl : ℕ)
    (existing : IdempotencyRecord) (e : Envelope)
    → IsFresh out
    → IsCacheable out script
    → SameEnvelope e (
        completion_envelope existing
          (record_ops (new_response_recorder out) script.ops).status
          (captured_headers (record_ops (new_response_recorder out) script.ops))
          (record_ops (new_response_recorder out) script.ops).body
          now
          ttl)
    → Replays (read_record key e) again_out again
    → RepeatsAnswer (apply_ops out script.ops) again
Replays-RepeatsAnswer out again_out again script key now ttl existing e fresh cacheable same
      replays =
    record {
      status = replays.status ∙ same.status_code ∙ transparent.1;
      body = replays.body ∙ ap₂ sendable same.status_code same.body ∙ sym transparent.2;
      marked = replays.marked;
      header = λ name value more kept other stands.
          replays.header name other
          ∙ rw (
            same.headers name,
            captured_headers_lem (record_ops (new_response_recorder out) script.ops) name
                (rw transparent.0 (apply_ops-IsUnique out script.ops fresh.2)),
            kept,
            transparent.0,
            stands,
          );
    }
  where
    transparent :
        ((record_ops (new_response_recorder out) script.ops).writer ≡ apply_ops out script.ops)
        × ((record_ops (new_response_recorder out) script.ops).status
            ≡ (final_response (apply_ops out script.ops)).status)
        × ((apply_ops out script.ops).body
            ≡ sendable
                (record_ops (new_response_recorder out) script.ops).status
                (record_ops (new_response_recorder out) script.ops).body)
    transparent = record_ops-transparent out script.ops fresh.0 fresh.1 cacheable.final

pub kept_of_bounds :
    (status : ℕ) → 200 ≤ status → status < 500 → should_cache_response status ≡ true
unfolding should_cache_response
kept_of_bounds status low high = ground arith

final_of_bound : (status : ℕ) → 200 ≤ status → is_informational status ≡ false
final_of_bound status low = ground arith

module _ (platform : Platform) {Raw : Type 0} (json : Codec Raw) (laws : CodecLaws json) (ttl : ℕ)
    (conditions : ℕ → Conditions) (next : Request → Script)
    (healthy_link : (n : ℕ) → (conditions n).link ≡ healthy)
    (dates : (n : ℕ) → (conditions n).local_time + ttl < year_10000) (base : ℕ)
    (window : (n : ℕ)
      → (base ≤ (conditions n).server_time) × ((conditions n).server_time < base + ttl))
    (ttl_pos : ttl ≢ 0) where
  -- A request whose key is free is sent, and sent again with the same key and body, where every
  -- command of the two arrives, the server's clock stays within one time to live, and the dates
  -- can be written. If the handler's response to the first has a status from 200 to 499, the client
  -- gets it as if there were no middleware; the second time the handler does not run, and the
  -- client gets the same status and body, every header value that the first response ended with,
  -- but for the names left out, and the mark of a replay.
  pub retry_is_replayed :
      (request repeated : Request) (out again_out : Writer) (key : String) (body : List ℕ)
      (w : World Raw)
      → IsKeyed platform request key body
      → IsKeyed platform repeated key body
      → IsFresh out
      → IsFresh again_out
      → IsCacheable out (next request)
      → slot conditions w key ≡ none
      → let send = idempotency_middleware platform (redis_store json) ttl in
        let (first, w₁) = run json conditions next (send request out) w in
        let (second, w₂) = run json conditions next (send repeated again_out) w₁ in
        (first ≡ (apply_ops out (next request).ops, returned))
        × RepeatsAnswer (apply_ops out (next request).ops) second.0
        × (second.1 ≡ returned)
        × (w₂.served ≡ w.served ++ request ∷ [])
  retry_is_replayed request repeated out again_out key body w keyed again fresh again_fresh
        cacheable free =
      let r = record_ops (new_response_recorder out) (next request).ops in
      let transparent =
        record_ops-transparent out (next request).ops fresh.0 fresh.1 cacheable.final in
      let env₀ =
        reservation_envelope (platform.digest body) (conditions w.commands).local_time ttl in
      let (reserved, m₀) =
        laws.marshals env₀ (omega (arith, dates w.commands)) (omega (arith, dates w.commands)) in
      let (e₀, d₀, same₀) = laws.round_trip env₀ reserved m₀ in
      let env₁ =
        completion_envelope (read_record key e₀) r.status (captured_headers r) r.body
          (conditions (w.commands + 1)).local_time ttl in
      let (stored, m₁) =
        laws.marshals env₁ (omega (arith, dates w.commands, same₀.created_at))
          (omega (arith, dates (w.commands + 1))) in
      let (e₁, d₁, same₁) = laws.round_trip env₁ stored m₁ in
      let first =
        run-first platform json ttl conditions next healthy_link base window ttl_pos request out key
          body keyed w reserved stored e₀ free m₀ d₀ m₁ cacheable.ends
          (rw transparent.1 (kept_of_bounds _ cacheable.low cacheable.high)) in
      let w₁ =
        completed_world platform json ttl conditions next healthy_link base window ttl_pos request
          out key body keyed w reserved stored in
      let (retried, m₂) =
        laws.marshals
          (reservation_envelope (platform.digest body) (conditions w₁.commands).local_time ttl)
          (omega (arith, dates w₁.commands)) (omega (arith, dates w₁.commands)) in
      let held = λ (v : World Raw) (e : v.server ≡ w₁.server).
        slot-timed platform json ttl conditions next healthy_link base window ttl_pos key stored
          (reserved_world platform json ttl conditions next healthy_link base window ttl_pos request
            out key body keyed w reserved).server
          v (w.commands + 1 + 1) e in
      let second =
        run-taken platform json ttl conditions next healthy_link repeated again_out key body w₁
          retried (timed stored (conditions (w.commands + 1 + 1)).server_time ttl) e₁ again m₂
          (held w₁ refl) (held (later 1 w₁) refl) d₁ in
      let status_low : 200 ≤ e₁.status_code =
        omega (arith, same₁.status_code, transparent.1, cacheable.low) in
      rw (first, second)
        (
          rw transparent.0 refl,
          Replays-RepeatsAnswer out again_out _ (next request) key _ ttl (read_record key e₀) e₁
              fresh cacheable same₁
              (replay_cached_response-Replays platform (read_record key e₁) again_out _ _
                (same₁.request_hash ∙ same₀.request_hash)
                (λ e. completed_ne_in_flight (sym same₁.state ∙ e)) (omega (arith, status_low))
                (final_of_bound _ status_low) again_fresh.0 again_fresh.1),
          refl,
          refl,
        )
