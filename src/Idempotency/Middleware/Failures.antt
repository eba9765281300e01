-- ===== src/Idempotency/Middleware/Failures.antt =====
-- idempotency_middleware.go: handlers that panic or answer with 5xx, and a completion that fails.
use internal_developer_platf.Shared.{
  ℕ, ◌+◌, ◌≤◌, ◌<◌, String, ◌≡◌, refl, ◌∙◌, ap, ◌≢◌, ◌⊎◌, inl, inr, true, false, Option, none, some,
  List, [], ◌∷◌, ◌++◌, arith, ok, err, str_eq_refl,
}
use internal_developer_platf.Http.{
  Request, Script, Writer, Sent, Ending, returned, panicked, apply_ops, apply_op, final_response,
}
use internal_developer_platf.Idempotency.Record.{IdempotencyRecord, StoreError, state_in_flight}
use internal_developer_platf.Idempotency.Redis.{
  Codec, CodecLaws, Entry, Server, healthy, live, update, year_10000,
}
use internal_developer_platf.Idempotency.Program.{done, Conditions, World, proceed, run, ◌>>=◌}
use internal_developer_platf.Idempotency.Store.{
  redis_store, prefixed, release, reservation_envelope,
}
use internal_developer_platf.Idempotency.Store.Runs.{
  slot, timed, run-reserve_free, run-release_found,
}
use internal_developer_platf.Idempotency.Recorder.{
  ResponseRecorder, new_response_recorder, record_ops,
}
use internal_developer_platf.Idempotency.Recorder.Mirror.{AllFinal, record_ops-transparent}
use internal_developer_platf.Idempotency.Middleware.{
  Platform, idempotency_middleware, serve_reserved, should_cache_response, settle, note_completion,
}
use internal_developer_platf.Idempotency.Middleware.Once.{
  IsKeyed, idempotency_middleware-keyed, request_id_of, slot-timed,
}

-- A handler's script that panics, or ends with a status of 500 or more.
abbrev pub Fails : Writer → Script → Type 0
Fails out script =
    ((value : String) × (script.ending ≡ panicked value))
    ⊎ ((script.ending ≡ returned) × (500 ≤ (final_response (apply_ops out script.ops)).status))

server_error_not_kept : (status : ℕ) → 500 ≤ status → should_cache_response status ≡ false
unfolding should_cache_response
server_error_not_kept status high = ground arith

module _ (platform : Platform) {Raw : Type 0} (json : Codec Raw) (ttl : ℕ) where
  settle-failed :
      (key : String) (recorder : ResponseRecorder) (ending : Ending)
      → ((value : String) × (ending ≡ panicked value))
        ⊎ ((ending ≡ returned) × (500 ≤ recorder.status))
      → settle platform (redis_store json) ttl key recorder ending
        ≡ (release json key >>= λ released. done (recorder.writer, ending))
  unfolding settle
  settle-failed key recorder (panicked value) failed = refl
  settle-failed key recorder returned (inl (value, e)) = cc
  settle-failed key recorder returned (inr (e, high)) =
      rw (server_error_not_kept recorder.status high)

  module _ (laws : CodecLaws json) (conditions : ℕ → Conditions) (next : Request → Script)
      (healthy_link : (n : ℕ) → (conditions n).link ≡ healthy)
      (dates : (n : ℕ) → (conditions n).local_time + ttl < year_10000) (base : ℕ)
      (window : (n : ℕ)
        → (base ≤ (conditions n).server_time) × ((conditions n).server_time < base + ttl))
      (ttl_pos : ttl ≢ 0) where
    run-disowned :
        (request : Request) (out : Writer) (key hash : String) (w : World Raw)
        (existing : Option IdempotencyRecord) (entry : Entry Raw)
        → slot conditions w key ≡ some entry
        → json.finds_quoted entry.value state_in_flight ≡ true
        → ((value : String) × ((next request).ending ≡ panicked value))
          ⊎ (((next request).ending ≡ returned)
              × (500 ≤ (record_ops (new_response_recorder out) (next request).ops).status))
        → run json conditions next
            (serve_reserved platform
              (redis_store json)
              ttl
              request
              out
              key
              hash
              (request_id_of request)
              (ok (record { existing = existing; created = true })))
            w
          ≡ (
            (
              (record_ops (new_response_recorder out) (next request).ops).writer,
              (next request).ending,
            ),
            proceed
                (record w { served = w.served ++ request ∷ [] })
                (update w.server (prefixed key) none),
          )
    unfolding serve_reserved run
    run-disowned request out key hash w existing entry there found fails =
        ap (λ p. run json conditions next p (record w { served = w.served ++ request ∷ [] }))
          (settle-failed key (record_ops (new_response_recorder out) (next request).ops)
            (next request).ending fails)
        ∙ run-release_found json conditions next healthy_link key
            (record w { served = w.served ++ request ∷ [] }) entry _ there found

    live-removed :
        (now : ℕ) (server : Server Raw) (key : String)
        → live now (update server (prefixed key) none (prefixed key)) ≡ none
    unfolding live update
    live-removed now server key = rw (str_eq_refl (prefixed key))

    -- A request whose key is free is sent, where every command arrives and the server's clock
    -- stays within one time to live. If the handler panics or answers with 500 or more, the client
    -- gets what the handler wrote, the panic goes on, the handler has run once, and the key is free
    -- again.
    pub failure_is_retryable :
        (request : Request) (out : Writer) (key : String) (body : List ℕ) (w : World Raw)
        → IsKeyed platform request key body
        → out.sent ≡ none
        → out.body ≡ []
        → AllFinal (next request).ops
        → Fails out (next request)
        → slot conditions w key ≡ none
        → let (answer, w') =
            run json conditions next
              (idempotency_middleware platform (redis_store json) ttl request out)
              w in
          (answer ≡ (apply_ops out (next request).ops, (next request).ending))
          × (w'.served ≡ w.served ++ request ∷ [])
          × (slot conditions w' key ≡ none)
    failure_is_retryable request out key body w keyed sent empty final fails free =
        let (written, status, _) = record_ops-transparent out (next request).ops sent empty final in
        let env =
          reservation_envelope (platform.digest body) (conditions w.commands).local_time ttl in
        let (reserved, marshalled) =
          laws.marshals env (omega (arith, dates w.commands)) (omega (arith, dates w.commands)) in
        let w₁ = proceed w (
          update w.server (prefixed key)
            (some (timed reserved (conditions w.commands).server_time ttl))) in
        rw
          (ap (λ p. run json conditions next p w)
              (idempotency_middleware-keyed platform json ttl request out key body keyed)
            ∙ run-reserve_free json conditions next healthy_link key (platform.digest body) ttl
                reserved w
                (serve_reserved platform (redis_store json) ttl request out key
                  (platform.digest body) (request_id_of request))
                marshalled free
            ∙ run-disowned request out key (platform.digest body) w₁ _
                (timed reserved (conditions w.commands).server_time ttl)
                (slot-timed platform json ttl conditions next healthy_link base window ttl_pos key
                  reserved w.server w₁ w.commands refl)
                (laws.quotes_state env reserved marshalled refl) (recorded fails status))
          (ap (λ v. (v, (next request).ending)) written, refl, live-removed _ w₁.server key)
      where
        recorded :
            Fails out (next request)
            → (record_ops (new_response_recorder out) (next request).ops).status
              ≡ (final_response (apply_ops out (next request).ops)).status
            → ((value : String) × ((next request).ending ≡ panicked value))
              ⊎ (((next request).ending ≡ returned)
                  × (500 ≤ (record_ops (new_response_recorder out) (next request).ops).status))
        recorded (inl panic) status = inl panic
        recorded (inr (ends, high)) status = inr (ends, omega arith)

-- Where the handler has begun its response, the header that notes a failed completion is not in
-- what the client is sent.
pub completion_failure_unseen :
    (platform : Platform) {Raw : Type 0} (json : Codec Raw) (ttl : ℕ) (recorder : ResponseRecorder)
    (sent : Sent) (e : StoreError)
    → recorder.writer.sent ≡ some sent
    → final_response (note_completion platform (redis_store json) ttl recorder (err e)) ≡ sent
unfolding note_completion final_response apply_op
completion_failure_unseen platform json ttl recorder sent e began = ground arith
