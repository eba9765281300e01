-- ===== src/Idempotency/Middleware/Lifetimes.antt =====
-- idempotency_middleware.go: every record that it writes has the time to live that it was given.
use internal_developer_platf.Shared.{
  ℕ, String, Option, none, some, List, Result, ok, err, Bool-cases, inl, inr, str_eq,
}
use internal_developer_platf.Http.{Request, Writer, Ending, returned, panicked, header_get}
use internal_developer_platf.Idempotency.Record.{Reservation, StoreError}
use internal_developer_platf.Idempotency.Redis.{Codec}
use internal_developer_platf.Idempotency.Store.{redis_store, reserve, complete, release}
use internal_developer_platf.Idempotency.Store.Lifetimes.{
  AsksFor, >>=-AsksFor, reserve-AsksFor, complete-AsksFor, release-AsksFor,
}
use internal_developer_platf.Idempotency.Recorder.{
  ResponseRecorder, new_response_recorder, record_ops, captured_headers,
}
use internal_developer_platf.Idempotency.Middleware.{
  Platform, idempotency_middleware, serve_reserved, serve_keyed, serve_body, settle,
  should_cache_response, header_idempotency_key,
}

module _ (platform : Platform) {Raw : Type 0} (json : Codec Raw) (ttl : ℕ) where
  settle-AsksFor :
      (key : String) (recorder : ResponseRecorder) (ending : Ending)
      → AsksFor ttl (settle platform (redis_store json) ttl key recorder ending)
  unfolding settle
  settle-AsksFor key recorder (panicked value) =
      >>=-AsksFor ttl (release json key) _ (release-AsksFor json key ttl) (λ r. tt)
  settle-AsksFor key recorder returned = elim (Bool-cases (should_cache_response recorder.status)) [
    | inl kept ↦ rw kept (
        >>=-AsksFor ttl
          (complete json key recorder.status (captured_headers recorder) recorder.body ttl) _
          (complete-AsksFor json key ttl recorder.status (captured_headers recorder) recorder.body)
          (λ r. tt))
    | inr failed ↦
        rw failed (>>=-AsksFor ttl (release json key) _ (release-AsksFor json key ttl) (λ r. tt))
  ]

  serve_reserved-AsksFor :
      (request : Request) (w : Writer) (key hash request_id : String)
      (reservation : Result StoreError Reservation)
      → AsksFor ttl
          (serve_reserved platform (redis_store json) ttl request w key hash request_id reservation)
  unfolding serve_reserved
  serve_reserved-AsksFor request w key hash request_id (err e) = tt
  serve_reserved-AsksFor request w key hash request_id (ok reservation) =
      elim (Bool-cases reservation.created) [
        | inl granted ↦ rw granted (λ script.
            settle-AsksFor key (record_ops (new_response_recorder w) script.ops) script.ending)
        | inr refused ↦ rw refused tt
      ]

  serve_body-AsksFor :
      (request : Request) (w : Writer) (key request_id : String) (body : Option (List ℕ))
      → AsksFor ttl (serve_body platform (redis_store json) ttl request w key request_id body)
  unfolding serve_body
  serve_body-AsksFor request w key request_id none = tt
  serve_body-AsksFor request w key request_id (some body) =
      >>=-AsksFor ttl (reserve json key (platform.digest body) ttl) _
        (reserve-AsksFor json key ttl (platform.digest body))
        (serve_reserved-AsksFor request w key (platform.digest body) request_id)

  pub idempotency_middleware-AsksFor :
      (request : Request) (w : Writer)
      → AsksFor ttl (idempotency_middleware platform (redis_store json) ttl request w)
  unfolding idempotency_middleware serve_keyed
  idempotency_middleware-AsksFor request w =
      elim (Bool-cases (str_eq (header_get header_idempotency_key request.header) "")) [
        | inl keyless ↦ rw keyless (λ script. tt)
        | inr keyed ↦
            rw keyed
              (elim (Bool-cases
                (platform.is_uuid (header_get header_idempotency_key request.header))) [
                  | inl valid ↦ rw valid (
                      serve_body-AsksFor request w
                        (header_get header_idempotency_key request.header)
                        (header_get "X-Request-Id" request.header) request.body)
                  | inr invalid ↦ rw invalid tt
                ])
      ]
