-- ===== src/Idempotency/Store/Lifetimes.antt =====
-- redis_store.go: the times to live that the commands of its methods ask for.
use internal_developer_platf.Shared.{
  ℕ, String, ◌≡◌, refl, Bool, true, false, Option, none, some, List, Result, ok, err,
}
use internal_developer_platf.Http.{Script}
use internal_developer_platf.Idempotency.Record.{TextMap, IdempotencyRecord, StoreError}
use internal_developer_platf.Idempotency.Redis.{Codec, Envelope}
use internal_developer_platf.Idempotency.Program.{
  Program, done, local_time, set_nx, get, eval_complete, eval_release, serve_next, ◌>>=◌,
}
use internal_developer_platf.Idempotency.Store.{
  reserve, complete, release, reserve_with, reserve_reply, complete_with, complete_reply,
  complete_existing, read_reply, reservation_envelope, get_record,
}

-- Every write that the program makes asks for this time to live.
abbrev pub AsksFor : {Raw A : Type 0} → ℕ → Program Raw A → Type 0
AsksFor ttl (done a) = Unit
AsksFor ttl (local_time k) = (t : ℕ) → AsksFor ttl (k t)
AsksFor ttl (set_nx name value t k) = (t ≡ ttl) × ((reply : Option Bool) → AsksFor ttl (k reply))
AsksFor {Raw} ttl (get name k) = (reply : Option (Option Raw)) → AsksFor ttl (k reply)
AsksFor ttl (eval_complete name value t k) =
    (t ≡ ttl) × ((reply : Option Bool) → AsksFor ttl (k reply))
AsksFor ttl (eval_release name k) = (reply : Option Bool) → AsksFor ttl (k reply)
AsksFor ttl (serve_next request k) = (script : Script) → AsksFor ttl (k script)

pub >>=-AsksFor :
    {Raw A B : Type 0} (ttl : ℕ) (m : Program Raw A) (f : A → Program Raw B)
    → AsksFor ttl m
    → ((a : A) → AsksFor ttl (f a))
    → AsksFor ttl (m >>= f)
>>=-AsksFor ttl (done a) f h after = after a
>>=-AsksFor ttl (local_time k) f h after = λ t. >>=-AsksFor ttl (k t) f (h t) after
>>=-AsksFor ttl (set_nx name value t k) f (e, h) after =
    (e, λ r. >>=-AsksFor ttl (k r) f (h r) after)
>>=-AsksFor ttl (get name k) f h after = λ r. >>=-AsksFor ttl (k r) f (h r) after
>>=-AsksFor ttl (eval_complete name value t k) f (e, h) after =
    (e, λ r. >>=-AsksFor ttl (k r) f (h r) after)
>>=-AsksFor ttl (eval_release name k) f h after = λ r. >>=-AsksFor ttl (k r) f (h r) after
>>=-AsksFor ttl (serve_next request k) f h after = λ r. >>=-AsksFor ttl (k r) f (h r) after

module _ {Raw : Type 0} (json : Codec Raw) (key : String) (ttl : ℕ) where
  reserve_reply-AsksFor :
      (env : Envelope) (reply : Option Bool) → AsksFor ttl (reserve_reply json key env reply)
  unfolding reserve_reply get_record
  reserve_reply-AsksFor env none = tt
  reserve_reply-AsksFor env (some true) = tt
  reserve_reply-AsksFor env (some false) = λ reply. tt

  reserve_with-AsksFor :
      (env : Envelope) (marshalled : Option Raw)
      → AsksFor ttl (reserve_with json key env ttl marshalled)
  unfolding reserve_with
  reserve_with-AsksFor env none = tt
  reserve_with-AsksFor env (some payload) = (refl, reserve_reply-AsksFor env)

  pub reserve-AsksFor : (hash : String) → AsksFor ttl (reserve json key hash ttl)
  unfolding reserve
  reserve-AsksFor hash now = reserve_with-AsksFor (reservation_envelope hash now ttl) _

  complete_reply-AsksFor : (reply : Option Bool) → AsksFor ttl (complete_reply json reply)
  unfolding complete_reply
  complete_reply-AsksFor none = tt
  complete_reply-AsksFor (some stored) = tt

  complete_with-AsksFor :
      (marshalled : Option Raw) → AsksFor ttl (complete_with json key ttl marshalled)
  unfolding complete_with
  complete_with-AsksFor none = tt
  complete_with-AsksFor (some payload) = (refl, complete_reply-AsksFor)

  complete_existing-AsksFor :
      (status : ℕ) (headers : TextMap) (body : List ℕ) (now : ℕ)
      (existing : Result StoreError IdempotencyRecord)
      → AsksFor ttl (complete_existing json key status headers body now ttl existing)
  unfolding complete_existing
  complete_existing-AsksFor status headers body now (err e) = tt
  complete_existing-AsksFor status headers body now (ok existing) = complete_with-AsksFor _

  pub complete-AsksFor :
      (status : ℕ) (headers : TextMap) (body : List ℕ)
      → AsksFor ttl (complete json key status headers body ttl)
  unfolding complete
  complete-AsksFor status headers body now reply =
      complete_existing-AsksFor status headers body now (read_reply json key reply)

  pub release-AsksFor : AsksFor ttl (release json key)
  unfolding release
  release-AsksFor reply = tt
