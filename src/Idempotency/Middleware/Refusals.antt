-- ===== src/Idempotency/Middleware/Refusals.antt =====
-- idempotency_middleware.go: the requests that are answered with no call of the handler.
use internal_developer_platf.Shared.{
  ℕ, String, ◌≡◌, refl, ◌∙◌, ◌≢◌, ◌⊎◌, false, none, some, List, [], ◌∷◌, ◌++◌, arith, str_eq_iff,
  str_eq_ne,
}
use internal_developer_platf.Http.{
  Request, Script, Writer, returned, header_get, apply_ops, apply_op, final_response, values,
  header_set, is_informational,
}
use internal_developer_platf.Idempotency.Record.{state_in_flight}
use internal_developer_platf.Idempotency.Redis.{Codec, Entry, Envelope, healthy, transmit}
use internal_developer_platf.Idempotency.Program.{Conditions, World, run}
use internal_developer_platf.Idempotency.Store.{
  redis_store, reserve, reservation_envelope, read_record,
}
use internal_developer_platf.Idempotency.Store.Runs.{slot, later}
use internal_developer_platf.Idempotency.Recorder.Capture.{values-header_set}
use internal_developer_platf.Idempotency.Middleware.{
  Platform, idempotency_middleware, header_idempotency_key, replay_cached_response, fail,
}
use internal_developer_platf.Idempotency.Middleware.Once.{IsKeyed, request_id_of}
use internal_developer_platf.Idempotency.Middleware.Taken.{run-taken}

-- The client is sent this status.
abbrev pub Sends : Writer → ℕ → Type 0
Sends w status = (final_response w).status ≡ status

fail-Sends :
    (platform : Platform) (w : Writer) (status : ℕ) (code message request_id : String)
    → w.sent ≡ none
    → is_informational status ≡ false
    → Sends (apply_ops w (fail platform status code message request_id)) status
unfolding fail apply_ops apply_op final_response
fail-Sends platform w status code message request_id fresh final = ground arith

module _ (platform : Platform) {Raw : Type 0} (json : Codec Raw) (ttl : ℕ)
    (conditions : ℕ → Conditions) (next : Request → Script) (request : Request) (out : Writer)
    (fresh : out.sent ≡ none) (w : World Raw) where
  -- A request that has a key, where the key is no UUID or the body cannot be read, is answered
  -- with 400, whatever the state of the store: no command is sent and the handler does not run.
  pub bad_request_changes_nothing :
      header_get header_idempotency_key request.header ≢ ""
      → (platform.is_uuid (header_get header_idempotency_key request.header) ≡ false)
        ⊎ (request.body ≡ none)
      → let (answer, w') =
          run json conditions next
            (idempotency_middleware platform (redis_store json) ttl request out)
            w in
        Sends answer.0 400 × (answer.1 ≡ returned) × (w' ≡ w)
  unfolding idempotency_middleware run fail apply_ops apply_op final_response
  bad_request_changes_nothing given bad =
      ground (arith, str_eq_iff (header_get header_idempotency_key request.header) "")

  -- A request with no key goes to the handler as it is, and no command is sent to the store.
  pub keyless_passes_through :
      header_get header_idempotency_key request.header ≡ ""
      → run json conditions next
          (idempotency_middleware platform (redis_store json) ttl request out)
          w
        ≡ (
          (apply_ops out (next request).ops, (next request).ending),
          record w { served = w.served ++ request ∷ [] },
        )
  unfolding idempotency_middleware run
  keyless_passes_through absent =
      ground (arith, str_eq_iff (header_get header_idempotency_key request.header) "")

  -- Where the reply to the reservation is not received, be it that the command or only its reply
  -- was lost, the request is answered with 500 and the handler does not run.
  pub unreachable_store_refuses :
      (key : String) (body : List ℕ)
      → IsKeyed platform request key body
      → (conditions w.commands).link ≢ healthy
      → let (answer, w') =
          run json conditions next
            (idempotency_middleware platform (redis_store json) ttl request out)
            w in
        Sends answer.0 500 × (answer.1 ≡ returned) × (w'.served ≡ w.served)
  unfolding idempotency_middleware run fail apply_ops apply_op final_response reserve transmit
  unreachable_store_refuses key body keyed lost = ground (arith, str_eq_iff key "")

replay-mismatch :
    (platform : Platform) (w : Writer) (key request_hash request_id : String) (e : Envelope)
    → w.sent ≡ none
    → e.request_hash ≢ request_hash
    → Sends
        (apply_ops w
          (replay_cached_response platform (some (read_record key e)) request_hash request_id))
        422
unfolding replay_cached_response
replay-mismatch platform w key request_hash request_id e fresh other =
    rw (str_eq_ne e.request_hash request_hash other)
      (fail-Sends platform w 422 _ _ request_id fresh refl)

pub replay-in_flight :
    (platform : Platform) (w : Writer) (key request_hash request_id : String) (e : Envelope)
    → w.sent ≡ none
    → e.request_hash ≡ request_hash
    → e.state ≡ state_in_flight
    → let answer =
        apply_ops w
          (replay_cached_response platform (some (read_record key e)) request_hash request_id) in
      Sends answer 409 × (values "Retry-After" (final_response answer).header ≡ "1" ∷ [])
unfolding replay_cached_response apply_ops apply_op fail final_response
replay-in_flight platform w key request_hash request_id e fresh same flying =
    rw
      (
        (str_eq_iff e.request_hash request_hash).1 same,
        (str_eq_iff e.state state_in_flight).1 flying,
      )
      (rw fresh (
        refl,
        values-header_set "Retry-After" "Content-Type" "application/json"
              (header_set "Retry-After" "1" w.header)
            ∙ values-header_set "Retry-After" "Retry-After" "1" w.header,
      ))

module _ (platform : Platform) {Raw : Type 0} (json : Codec Raw) (ttl : ℕ)
    (conditions : ℕ → Conditions) (next : Request → Script)
    (healthy_link : (n : ℕ) → (conditions n).link ≡ healthy) (request : Request) (out : Writer)
    (fresh : out.sent ≡ none) (key : String) (body : List ℕ)
    (keyed : IsKeyed platform request key body) (w : World Raw) (payload : Raw) (entry : Entry Raw)
    (e : Envelope)
    (marshalled : json.marshal
        (reservation_envelope (platform.digest body) (conditions w.commands).local_time ttl)
      ≡ some payload)
    (taken : slot conditions w key ≡ some entry)
    (still : slot conditions (later 1 w) key ≡ some entry)
    (decoded : json.unmarshal entry.value ≡ some e) where
  -- Where the key stands in the store with another body's hash, in flight or completed, the
  -- request is answered with 422, the handler does not run and the store is left as it was.
  pub other_body_refused :
      e.request_hash ≢ platform.digest body
      → let (answer, w') =
          run json conditions next
            (idempotency_middleware platform (redis_store json) ttl request out)
            w in
        Sends answer.0 422 × (w'.served ≡ w.served) × (w'.server ≡ w.server)
  other_body_refused other =
      rw
        (run-taken platform json ttl conditions next healthy_link request out key body w payload
          entry e keyed marshalled taken still decoded)
        (
          replay-mismatch platform out key (platform.digest body) (request_id_of request) e fresh
              other,
          refl,
          refl,
        )

  -- Where the key stands in the store in flight with the same body's hash, the request is answered
  -- with 409 and the advice to retry after a second, the handler does not run and the store is left
  -- as it was.
  pub concurrent_refused :
      e.request_hash ≡ platform.digest body
      → e.state ≡ state_in_flight
      → let (answer, w') =
          run json conditions next
            (idempotency_middleware platform (redis_store json) ttl request out)
            w in
        Sends answer.0 409
        × (values "Retry-After" (final_response answer.0).header ≡ "1" ∷ [])
        × (w'.served ≡ w.served)
        × (w'.server ≡ w.server)
  concurrent_refused same flying =
      let (conflict, advice) =
        replay-in_flight platform out key (platform.digest body) (request_id_of request) e fresh
          same flying in
      rw
        (run-taken platform json ttl conditions next healthy_link request out key body w payload
          entry e keyed marshalled taken still decoded)
        (conflict, advice, refl, refl)
