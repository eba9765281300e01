-- ===== src/Idempotency/Middleware/Once.antt =====
-- idempotency_middleware.go: a request with a key that is free, and its repetition.
use internal_developer_platf.Shared.{
  ℕ, ◌+◌, ◌≤◌, ◌<◌, String, ◌≡◌, refl, ◌∙◌, ap, ◌≢◌, true, Option, none, some, List, [], ◌∷◌, ◌++◌,
  arith, ok, str_eq_iff,
}
use internal_developer_platf.Http.{Request, Script, Writer, Ending, returned, panicked, header_get}
use internal_developer_platf.Idempotency.Record.{IdempotencyRecord}
use internal_developer_platf.Idempotency.Redis.{Codec, Entry, Server, Envelope, healthy, update}
use internal_developer_platf.Idempotency.Program.{done, Conditions, World, proceed, run, ◌>>=◌}
use internal_developer_platf.Idempotency.Store.{
  prefixed, reserve, complete, redis_store, reservation_envelope, completion_envelope, read_record,
}
use internal_developer_platf.Idempotency.Store.Runs.{
  slot, timed, later, slot-written, run-reserve_free, run-complete_stored,
}
use internal_developer_platf.Idempotency.Recorder.{
  ResponseRecorder, new_response_recorder, record_ops, captured_headers,
}
use internal_developer_platf.Idempotency.Middleware.{
  Platform, idempotency_middleware, serve_reserved, header_idempotency_key, should_cache_response,
  settle, note_completion,
}

-- A request with a valid key and a body that can be read.
pub record IsKeyed (platform : Platform) (request : Request) (key : String) (body : List ℕ)
    : Type 0 where
  pub key_sent : header_get header_idempotency_key request.header ≡ key
  pub key_given : key ≢ ""
  pub key_valid : platform.is_uuid key ≡ true
  pub body_read : request.body ≡ some body

abbrev pub request_id_of : Request → String
request_id_of request = header_get "X-Request-Id" request.header

module _ (platform : Platform) {Raw : Type 0} (json : Codec Raw) (ttl : ℕ) where
  pub idempotency_middleware-keyed :
      (request : Request) (w : Writer) (key : String) (body : List ℕ)
      → IsKeyed platform request key body
      → idempotency_middleware platform (redis_store json) ttl request w ≡ (
          reserve json key (platform.digest body) ttl
          >>= serve_reserved platform
              (redis_store json)
              ttl
              request
              w
              key
              (platform.digest body)
              (request_id_of request))
  unfolding idempotency_middleware
  idempotency_middleware-keyed request w key body k = ground (arith, str_eq_iff key "")

  pub settle-kept :
      (key : String) (recorder : ResponseRecorder) (ending : Ending)
      → ending ≡ returned
      → should_cache_response recorder.status ≡ true
      → settle platform (redis_store json) ttl key recorder ending ≡ (
          complete json key recorder.status (captured_headers recorder) recorder.body ttl
          >>= λ completed.
              done (note_completion platform (redis_store json) ttl recorder completed, returned))
  unfolding settle
  settle-kept key recorder (panicked value) ending kept = cc
  settle-kept key recorder returned ending kept = rw kept

  module _ (conditions : ℕ → Conditions) (next : Request → Script)
      (healthy_link : (n : ℕ) → (conditions n).link ≡ healthy) (base : ℕ)
      (window : (n : ℕ)
        → (base ≤ (conditions n).server_time) × ((conditions n).server_time < base + ttl))
      (ttl_pos : ttl ≢ 0) where
    pub slot-timed :
        (key : String) (payload : Raw) (server : Server Raw) (w : World Raw) (c : ℕ)
        → w.server
          ≡ update server (prefixed key) (some (timed payload (conditions c).server_time ttl))
        → slot conditions w key ≡ some (timed payload (conditions c).server_time ttl)
    slot-timed key payload server w c e =
        slot-written conditions key payload ttl c server w ttl_pos
          (omega (arith, window w.commands, window c)) e

    module _ (request : Request) (out : Writer) (key : String) (body : List ℕ)
        (keyed : IsKeyed platform request key body) where
      abbrev pub hash : String
      hash = platform.digest body

      abbrev pub recorder : ResponseRecorder
      recorder = record_ops (new_response_recorder out) (next request).ops

      abbrev pub reserved_world : World Raw → Raw → World Raw
      reserved_world w reserved = proceed w (
          update w.server (prefixed key)
            (some (timed reserved (conditions w.commands).server_time ttl)))

      abbrev pub completed_world : World Raw → Raw → Raw → World Raw
      completed_world w reserved stored = record {
        commands = w.commands + 1 + 1 + 1;
        server =
            update
              (update w.server (prefixed key)
                (some (timed reserved (conditions w.commands).server_time ttl)))
              (prefixed key)
              (some (timed stored (conditions (w.commands + 1 + 1)).server_time ttl));
        served = w.served ++ request ∷ [];
      }

      -- The owner of a reservation runs the handler and stores what it wrote.
      run-owned :
          (w : World Raw) (existing : Option IdempotencyRecord) (entry : Entry Raw) (e : Envelope)
          (stored : Raw)
          → slot conditions w key ≡ some entry
          → slot conditions (later 1 w) key ≡ some entry
          → json.unmarshal entry.value ≡ some e
          → json.marshal (
              completion_envelope
                (read_record key e)
                recorder.status
                (captured_headers recorder)
                recorder.body
                (conditions w.commands).local_time
                ttl)
            ≡ some stored
          → (next request).ending ≡ returned
          → should_cache_response recorder.status ≡ true
          → run json conditions next
              (serve_reserved platform
                (redis_store json)
                ttl
                request
                out
                key
                hash
                (request_id_of request)
                (ok (record { existing = existing; created = true })))
              w
            ≡ (
              (recorder.writer, returned),
              record {
                commands = w.commands + 1 + 1;
                server =
                    update w.server
                      (prefixed key)
                      (some (timed stored (conditions (w.commands + 1)).server_time ttl));
                served = w.served ++ request ∷ [];
              },
            )
      unfolding serve_reserved run note_completion
      run-owned w existing entry e stored there still decoded completed ending kept =
          ap (λ p. run json conditions next p (record w { served = w.served ++ request ∷ [] }))
            (settle-kept key recorder (next request).ending ending kept)
          ∙ run-complete_stored json conditions next healthy_link key recorder.status
              (captured_headers recorder) recorder.body ttl
              (record w { served = w.served ++ request ∷ [] }) entry e stored _ there still decoded
              completed ttl_pos

      -- The first run of a request whose response may be kept: the handler runs once, its response
      -- goes out, and the completed record is stored.
      pub run-first :
          (w : World Raw) (reserved stored : Raw) (e : Envelope)
          → slot conditions w key ≡ none
          → json.marshal (reservation_envelope hash (conditions w.commands).local_time ttl)
            ≡ some reserved
          → json.unmarshal reserved ≡ some e
          → json.marshal (
              completion_envelope
                (read_record key e)
                recorder.status
                (captured_headers recorder)
                recorder.body
                (conditions (w.commands + 1)).local_time
                ttl)
            ≡ some stored
          → (next request).ending ≡ returned
          → should_cache_response recorder.status ≡ true
          → run json conditions next
              (idempotency_middleware platform (redis_store json) ttl request out)
              w
            ≡ ((recorder.writer, returned), completed_world w reserved stored)
      run-first w reserved stored e free marshalled decoded completed ending kept =
          ap (λ p. run json conditions next p w)
            (idempotency_middleware-keyed request out key body keyed)
          ∙ run-reserve_free json conditions next healthy_link key hash ttl reserved w
              (serve_reserved platform (redis_store json) ttl request out key hash
                (request_id_of request))
              marshalled free
          ∙ run-owned (reserved_world w reserved) _ _ e stored
              (slot-timed key reserved w.server (reserved_world w reserved) w.commands refl)
              (slot-timed key reserved w.server (later 1 (reserved_world w reserved)) w.commands
                refl)
              decoded completed ending kept
