-- ===== src/Idempotency/Middleware/Taken.antt =====
-- idempotency_middleware.go: a request whose key is taken.
use internal_developer_platf.Shared.{ℕ, ◌+◌, String, ◌≡◌, ◌∙◌, ap, some, List}
use internal_developer_platf.Http.{Request, Script, Writer, returned, apply_ops}
use internal_developer_platf.Idempotency.Redis.{Codec, Entry, Envelope, healthy}
use internal_developer_platf.Idempotency.Program.{Conditions, World, run}
use internal_developer_platf.Idempotency.Store.{redis_store, reservation_envelope, read_record}
use internal_developer_platf.Idempotency.Store.Runs.{slot, later, run-reserve_taken_sent}
use internal_developer_platf.Idempotency.Middleware.{
  Platform, idempotency_middleware, serve_reserved, replay_cached_response,
}
use internal_developer_platf.Idempotency.Middleware.Once.{
  IsKeyed, idempotency_middleware-keyed, request_id_of,
}

module _ (platform : Platform) {Raw : Type 0} (json : Codec Raw) (ttl : ℕ) where
  module _ (conditions : ℕ → Conditions) (next : Request → Script) (request : Request)
      (out : Writer) (key : String) (body : List ℕ) (w : World Raw) (payload : Raw)
      (entry : Entry Raw) (e : Envelope) (keyed : IsKeyed platform request key body) where
    -- A request whose key is taken, and whose two commands arrive, is answered from the stored
    -- record, and changes nothing.
    pub run-taken_sent :
        (conditions w.commands).link ≡ healthy
        → (conditions (w.commands + 1)).link ≡ healthy
        → json.marshal
            (reservation_envelope (platform.digest body) (conditions w.commands).local_time ttl)
          ≡ some payload
        → slot conditions w key ≡ some entry
        → slot conditions (later 1 w) key ≡ some entry
        → json.unmarshal entry.value ≡ some e
        → run json conditions next
            (idempotency_middleware platform (redis_store json) ttl request out)
            w
          ≡ (
            (
              apply_ops out (
                  replay_cached_response platform
                    (some (read_record key e))
                    (platform.digest body)
                    (request_id_of request)),
              returned,
            ),
            later 2 w,
          )
    unfolding serve_reserved run
    run-taken_sent first second marshalled taken still decoded =
        ap (λ p. run json conditions next p w)
          (idempotency_middleware-keyed platform json ttl request out key body keyed)
        ∙ run-reserve_taken_sent json conditions next key (platform.digest body) ttl payload w entry
            e
            (serve_reserved platform (redis_store json) ttl request out key (platform.digest body)
              (request_id_of request))
            first second marshalled taken still decoded

  module _ (conditions : ℕ → Conditions) (next : Request → Script)
      (healthy_link : (n : ℕ) → (conditions n).link ≡ healthy) where
    -- A request whose key is taken is answered from the stored record, and changes nothing.
    pub run-taken :
        (request : Request) (out : Writer) (key : String) (body : List ℕ) (w : World Raw)
        (payload : Raw) (entry : Entry Raw) (e : Envelope)
        → IsKeyed platform request key body
        → json.marshal
            (reservation_envelope (platform.digest body) (conditions w.commands).local_time ttl)
          ≡ some payload
        → slot conditions w key ≡ some entry
        → slot conditions (later 1 w) key ≡ some entry
        → json.unmarshal entry.value ≡ some e
        → run json conditions next
            (idempotency_middleware platform (redis_store json) ttl request out)
            w
          ≡ (
            (
              apply_ops out (
                  replay_cached_response platform
                    (some (read_record key e))
                    (platform.digest body)
                    (request_id_of request)),
              returned,
            ),
            later 2 w,
          )
    run-taken request out key body w payload entry e keyed marshalled taken still decoded =
        run-taken_sent conditions next request out key body w payload entry e keyed
          (healthy_link w.commands) (healthy_link (w.commands + 1)) marshalled taken still decoded
