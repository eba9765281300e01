-- ===== src/Idempotency/Exclusion/Discipline.antt =====
-- What a program may do with the key that it works on: it runs the handler, completes or releases
-- only while the reservation is its own, and reserves only while it is not.
use internal_developer_platf.Shared.{
  ℕ, String, ◌≡◌, refl, Bool, true, false, Option, none, some, List, inl, inr, Result, ok, err,
  Bool-cases,
}
use internal_developer_platf.Http.{Request, Script, Writer, Ending, returned, panicked}
use internal_developer_platf.Idempotency.Record.{
  TextMap, IdempotencyRecord, Reservation, StoreError, marshal_reservation, redis_set_nx,
  marshal_completion, redis_complete_script,
}
use internal_developer_platf.Idempotency.Redis.{Codec, Envelope}
use internal_developer_platf.Idempotency.Program.{
  Program, done, local_time, set_nx, get, eval_complete, eval_release, serve_next, ◌>>=◌,
}
use internal_developer_platf.Idempotency.Store.{
  redis_store, prefixed, reserve, complete, release, reserve_with, complete_with, complete_reply,
  complete_existing, complete_missing, read_reply, existing_reservation, reservation_envelope,
}
use internal_developer_platf.Idempotency.Recorder.{
  ResponseRecorder, new_response_recorder, record_ops, captured_headers,
}
use internal_developer_platf.Idempotency.Middleware.{
  Platform, idempotency_middleware, serve_reserved, settle, should_cache_response,
}
use internal_developer_platf.Idempotency.Middleware.Once.{
  IsKeyed, idempotency_middleware-keyed, request_id_of,
}

abbrev pub Disciplined : {Raw A : Type 0} → String → Bool → Program Raw A → Type 0
Disciplined key owned (done a) = Unit
Disciplined key owned (local_time k) = (t : ℕ) → Disciplined key owned (k t)
Disciplined key true (set_nx name value ttl k) = ⊥
Disciplined key false (set_nx name value ttl k) =
    (name ≡ key)
    × Disciplined key false (k none)
    × Disciplined key false (k (some false))
    × Disciplined key true (k (some true))
Disciplined {Raw} key owned (get name k) =
    (reply : Option (Option Raw)) → Disciplined key owned (k reply)
Disciplined key true (eval_complete name value ttl k) =
    (name ≡ key) × ((reply : Option Bool) → Disciplined key false (k reply))
Disciplined key false (eval_complete name value ttl k) = ⊥
Disciplined key true (eval_release name k) =
    (name ≡ key) × ((reply : Option Bool) → Disciplined key false (k reply))
Disciplined key false (eval_release name k) = ⊥
Disciplined key true (serve_next request k) = (script : Script) → Disciplined key true (k script)
Disciplined key false (serve_next request k) = ⊥

module _ {Raw : Type 0} (json : Codec Raw) (key : String) {B : Type 0} where
  module _ (f : Result StoreError (Unit {0}) → Program Raw B)
      (after : (r : Result StoreError (Unit {0})) → Disciplined (prefixed key) false (f r)) where
    complete_reply-Disciplined :
        (reply : Option Bool) → Disciplined (prefixed key) false (complete_reply json reply >>= f)
    unfolding complete_reply
    complete_reply-Disciplined none = after (err redis_complete_script)
    complete_reply-Disciplined (some stored) = after (ok tt)

    release-Disciplined : Disciplined (prefixed key) true (release json key >>= f)
    unfolding release
    release-Disciplined = (refl, λ reply. after _)

  module _ (f : Result StoreError (Unit {0}) → Program Raw B)
      (after : (r : Result StoreError (Unit {0})) → Disciplined (prefixed key) false (f r))
      (still : (r : Result StoreError (Unit {0})) → Disciplined (prefixed key) true (f r)) where
    complete_with-Disciplined :
        (ttl : ℕ) (marshalled : Option Raw)
        → Disciplined (prefixed key) true (complete_with json key ttl marshalled >>= f)
    unfolding complete_with
    complete_with-Disciplined ttl none = still (err marshal_completion)
    complete_with-Disciplined ttl (some payload) = (refl, complete_reply-Disciplined f after)

    complete_existing-Disciplined :
        (status : ℕ) (headers : TextMap) (body : List ℕ) (now ttl : ℕ)
        (existing : Result StoreError IdempotencyRecord)
        → Disciplined
            (prefixed key)
            true
            (complete_existing json key status headers body now ttl existing >>= f)
    unfolding complete_existing
    complete_existing-Disciplined status headers body now ttl (err e) =
        still (complete_missing json e)
    complete_existing-Disciplined status headers body now ttl (ok existing) =
        complete_with-Disciplined ttl _

    complete-Disciplined :
        (status : ℕ) (headers : TextMap) (body : List ℕ) (ttl : ℕ)
        → Disciplined (prefixed key) true (complete json key status headers body ttl >>= f)
    unfolding complete
    complete-Disciplined status headers body ttl = λ now reply.
        complete_existing-Disciplined status headers body now ttl (read_reply json key reply)

  module _ (f : Result StoreError Reservation → Program Raw B)
      (refused : (e : StoreError) → Disciplined (prefixed key) false (f (err e)))
      (found : (existing : IdempotencyRecord)
        → Disciplined
            (prefixed key)
            false
            (f (ok (record { existing = some existing; created = false }))))
      (owned : (existing : Option IdempotencyRecord)
        → Disciplined
            (prefixed key)
            true
            (f (ok (record { existing = existing; created = true })))) where
    existing-Disciplined :
        (existing : Result StoreError IdempotencyRecord)
        → Disciplined (prefixed key) false (f (existing_reservation json existing))
    unfolding existing_reservation
    existing-Disciplined (err e) = refused e
    existing-Disciplined (ok existing) = found existing

    reserve_with-Disciplined :
        (env : Envelope) (ttl : ℕ) (marshalled : Option Raw)
        → Disciplined (prefixed key) false (reserve_with json key env ttl marshalled >>= f)
    unfolding reserve_with
    reserve_with-Disciplined env ttl none = refused marshal_reservation
    reserve_with-Disciplined env ttl (some payload) = (
      refl,
      refused redis_set_nx,
      λ reply. existing-Disciplined (read_reply json key reply),
      owned _,
    )

    reserve-Disciplined :
        (hash : String) (ttl : ℕ)
        → Disciplined (prefixed key) false (reserve json key hash ttl >>= f)
    unfolding reserve
    reserve-Disciplined hash ttl =
        λ now. reserve_with-Disciplined (reservation_envelope hash now ttl) ttl _

module _ (platform : Platform) {Raw : Type 0} (json : Codec Raw) (ttl : ℕ) (key : String) where
  settle-Disciplined :
      (recorder : ResponseRecorder) (ending : Ending)
      → Disciplined (prefixed key) true (settle platform (redis_store json) ttl key recorder ending)
  unfolding settle
  settle-Disciplined recorder (panicked value) = release-Disciplined json key _ (λ r. tt)
  settle-Disciplined recorder returned = elim (Bool-cases (should_cache_response recorder.status)) [
    | inl kept ↦ rw kept (
        complete-Disciplined json key _ (λ r. tt) (λ r. tt) recorder.status
          (captured_headers recorder) recorder.body ttl)
    | inr failed ↦ rw failed (release-Disciplined json key _ (λ r. tt))
  ]

  -- The middleware keeps to the discipline: for a request with a key, it reserves once, and runs
  -- the handler, completes and releases only under a reservation that was granted to it.
  pub idempotency_middleware-Disciplined :
      (request : Request) (out : Writer) (body : List ℕ)
      → IsKeyed platform request key body
      → Disciplined
          (prefixed key)
          false
          (idempotency_middleware platform (redis_store json) ttl request out)
  unfolding serve_reserved
  idempotency_middleware-Disciplined request out body keyed =
      rw (idempotency_middleware-keyed platform json ttl request out key body keyed) (
        reserve-Disciplined json key
          (serve_reserved platform (redis_store json) ttl request out key (platform.digest body)
            (request_id_of request))
          (λ e. tt) (λ existing. tt)
          (λ existing script.
            settle-Disciplined (record_ops (new_response_recorder out) script.ops) script.ending)
          (platform.digest body) ttl)
