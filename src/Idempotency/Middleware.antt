-- ===== src/Idempotency/Middleware.antt =====
-- services/api/internal/adapters/inbound/http/idempotency_middleware.go: IdempotencyMiddleware.
pub mod Replay
pub mod Once
pub mod Taken
pub mod Retry
pub mod Refusals
pub mod Failures
pub mod Lifetimes
pub mod Lost
use internal_developer_platf.Shared.{
  ℕ, String, Bool, true, false, not, Option, none, some, List, [], ◌∷◌, Result, ok, err, ltb, ◌==◌,
  str_eq, if◌then◌else◌,
}
use internal_developer_platf.Http.{
  Request, ErrorResponse, Writer, WriterOp, set_header, write_header, write, apply_op, apply_ops,
  Script, Ending, returned, panicked, header_get, respond_with_error,
  err_code_idempotency_key_invalid, err_code_invalid_json, err_code_internal_error,
  err_code_idempotency_key_mismatch, err_code_idempotency_in_progress,
}
use internal_developer_platf.Idempotency.Record.{
  TextMap, IdempotencyRecord, Reservation, StoreError, state_in_flight,
}
use internal_developer_platf.Idempotency.Program.{Program, done, serve_next, ◌>>=◌}
use internal_developer_platf.Idempotency.Store.{IdempotencyStore}
use internal_developer_platf.Idempotency.Recorder.{
  ResponseRecorder, new_response_recorder, record_ops, captured_headers,
}

abbrev pub header_idempotency_key : String
header_idempotency_key = "X-Idempotency-Key"

abbrev pub idempotency_replay_header : String
idempotency_replay_header = "X-Idempotent-Replay"

-- What the middleware takes from elsewhere: the JSON encoder's bytes for an error response, the
-- uuid package's verdict on a key, and the hexadecimal SHA-256 digest of a body.
pub record Platform : Type 0 where
  pub encode : ErrorResponse → List ℕ
  pub is_uuid : String → Bool
  pub digest : List ℕ → String

-- shouldCacheResponse
unfoldable pub should_cache_response : ℕ → Bool
should_cache_response status = let shown = if status == 0 then 200 else status in ltb shown 500

-- w.Header().Set for each entry of a map, and what follows. Go leaves the order open; here the
-- last entry comes first.
unfoldable pub set_all : TextMap → List WriterOp → List WriterOp
set_all [] rest = rest
set_all ((name, value) ∷ entries) rest = set_all entries (set_header name value ∷ rest)

module _ (platform : Platform) where
  fail : ℕ → String → String → String → List WriterOp
  unfolding respond_with_error
  fail status code message request_id =
      respond_with_error platform.encode status
        (record { code = code; message = message; request_id = request_id; details = [] })

  replay_body : List ℕ → List WriterOp
  replay_body [] = []
  replay_body (b ∷ bytes) = write (b ∷ bytes) ∷ []

  replay_stored : IdempotencyRecord → List WriterOp
  unfolding set_all replay_body
  replay_stored existing = set_all existing.headers (
      set_header idempotency_replay_header "true"
      ∷ write_header (if existing.status_code == 0 then 200 else existing.status_code)
      ∷ replay_body existing.body)

  -- replayCachedResponse
  unfoldable pub replay_cached_response : Option IdempotencyRecord → String → String → List WriterOp
  unfolding fail replay_stored
  replay_cached_response none request_hash request_id =
      fail 500 err_code_internal_error "Idempotency record missing after reservation conflict"
        request_id
  replay_cached_response (some existing) request_hash request_id =
      if not (str_eq existing.request_hash request_hash)
      then fail 422 err_code_idempotency_key_mismatch
          "Idempotency key was reused with a different request body" request_id
      else if str_eq existing.state state_in_flight
      then set_header "Retry-After" "1"
        ∷ fail 409 err_code_idempotency_in_progress
            "A request with this idempotency key is still being processed" request_id
      else replay_stored existing

  module _ {Raw : Type 0} (store : IdempotencyStore Raw) (ttl : ℕ) where
    -- After Complete: its error is noted in the header.
    unfoldable pub note_completion : ResponseRecorder → Result StoreError (Unit {0}) → Writer
    note_completion recorder (ok _) = recorder.writer
    note_completion recorder (err _) =
        apply_op recorder.writer (set_header "X-Idempotent-Cache" "store-failed")

    -- After next.ServeHTTP; a panic runs the deferred function, which releases and panics again.
    unfoldable pub settle : String → ResponseRecorder → Ending → Program Raw (Writer × Ending)
    unfolding note_completion
    settle key recorder (panicked value) = do
      released ← store.release key
      done (recorder.writer, panicked value)
    settle key recorder returned =
        if should_cache_response recorder.status
        then (do
          completed ←
              store.complete key recorder.status (captured_headers recorder) recorder.body ttl
          done (note_completion recorder completed, returned))
        else (do released ← store.release key; done (recorder.writer, returned))

    unfoldable pub serve_reserved :
        Request
        → Writer
        → String
        → String
        → String
        → Result StoreError Reservation
        → Program Raw (Writer × Ending)
    unfolding fail settle
    serve_reserved request w key request_hash request_id (err e) = done (
      apply_ops w (fail 500 err_code_internal_error "Idempotency store unavailable" request_id),
      returned,
    )
    serve_reserved request w key request_hash request_id (ok reservation) =
        if not reservation.created
        then done (
          apply_ops w (replay_cached_response reservation.existing request_hash request_id),
          returned,
        )
        else serve_next request
            λ script. settle key (record_ops (new_response_recorder w) script.ops) script.ending

    serve_body :
        Request → Writer → String → String → Option (List ℕ) → Program Raw (Writer × Ending)
    unfolding fail serve_reserved
    serve_body request w key request_id none = done (
      apply_ops w (fail 400 err_code_invalid_json "Failed to read request body" request_id),
      returned,
    )
    serve_body request w key request_id (some body) = do
      let request_hash = platform.digest body
      reservation ← store.reserve key request_hash ttl
      serve_reserved request w key request_hash request_id reservation

    serve_keyed : Request → Writer → String → String → Program Raw (Writer × Ending)
    unfolding fail serve_body
    serve_keyed request w key request_id =
        if not (platform.is_uuid key)
        then done (
          apply_ops w (
              fail 400 err_code_idempotency_key_invalid "X-Idempotency-Key must be a valid UUID"
                request_id),
          returned,
        )
        else serve_body request w key request_id request.body

    -- IdempotencyMiddleware: the handler writes to `w` itself where there is no key.
    unfoldable pub idempotency_middleware : Request → Writer → Program Raw (Writer × Ending)
    unfolding serve_keyed
    idempotency_middleware request w =
        let key = header_get header_idempotency_key request.header in
        if str_eq key ""
        then serve_next request (λ script. done (apply_ops w script.ops, script.ending))
        else serve_keyed request w key (header_get "X-Request-Id" request.header)
