-- ===== src/Idempotency/Store/Faults.antt =====
-- redis_store.go: what single methods do where some commands arrive and one is lost.
use internal_developer_platf.Shared.{ℕ, ◌+◌, String, ◌≡◌, some, List, arith, Result, err}
use internal_developer_platf.Http.{Request, Script}
use internal_developer_platf.Idempotency.Record.{TextMap, StoreError, redis_complete_script}
use internal_developer_platf.Idempotency.Redis.{
  Codec, Entry, Envelope, healthy, lost_request, transmit, exec_get,
}
use internal_developer_platf.Idempotency.Program.{Program, Conditions, World, run, ◌>>=◌}
use internal_developer_platf.Idempotency.Store.{complete, completion_envelope, read_record}
use internal_developer_platf.Idempotency.Store.Runs.{slot, later}

module _ {Raw : Type 0} (json : Codec Raw) (conditions : ℕ → Conditions) (next : Request → Script)
    {A : Type 0} (key : String) where
  -- Complete on a record that is there, where its script is lost on the way: an error, and no change.
  pub run-complete_lost :
      (status : ℕ) (headers : TextMap) (body : List ℕ) (ttl : ℕ) (w : World Raw) (entry : Entry Raw)
      (e : Envelope) (payload : Raw) (f : Result StoreError (Unit {0}) → Program Raw A)
      → (conditions w.commands).link ≡ healthy
      → (conditions (w.commands + 1)).link ≡ lost_request
      → slot conditions w key ≡ some entry
      → json.unmarshal entry.value ≡ some e
      → json.marshal (
          completion_envelope
            (read_record key e)
            status
            headers
            body
            (conditions w.commands).local_time
            ttl)
        ≡ some payload
      → run json conditions next (complete json key status headers body ttl >>= f) w
        ≡ run json conditions next (f (err redis_complete_script)) (later 2 w)
  unfolding run complete transmit exec_get
  run-complete_lost status headers body ttl w entry e payload f arrives lost there decoded
        marshalled =
      ground arith
