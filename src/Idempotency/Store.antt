-- ===== src/Idempotency/Store.antt =====
-- services/api/internal/adapters/outbound/idempotency/redis_store.go: the store's methods, as
-- programs of Redis commands, and the port that they implement.
pub mod Runs
pub mod Lifetimes
pub mod Faults
use internal_developer_platf.Shared.{
  ℕ, ◌+◌, String, Bool, true, false, Option, none, some, List, [], Result, ok, err,
}
use Prim.Native.String as Text
use internal_developer_platf.Idempotency.Record.{
  TextMap, IdempotencyRecord, Reservation, StoreError, marshal_reservation, redis_set_nx, not_found,
  redis_get, unmarshal_record, marshal_completion, redis_complete_script, redis_release_script,
  state_in_flight, state_completed,
}
use internal_developer_platf.Idempotency.Redis.{Codec, Envelope}
use internal_developer_platf.Idempotency.Program.{
  Program, done, local_time, set_nx, get, eval_complete, eval_release, ◌>>=◌,
}

-- The port IdempotencyStore. Times to live are in milliseconds.
pub record IdempotencyStore (Raw : Type 0) : Type 0 where
  pub reserve : String → String → ℕ → Program Raw (Result StoreError Reservation)
  pub complete : String → ℕ → TextMap → List ℕ → ℕ → Program Raw (Result StoreError (Unit {0}))
  pub release : String → Program Raw (Result StoreError (Unit {0}))

abbrev pub key_prefix : String
key_prefix = "idempotency:"

abbrev pub prefixed : String → String
prefixed key = Text.◌++◌ key_prefix key

abbrev pub reservation_envelope : String → ℕ → ℕ → Envelope
reservation_envelope request_hash now ttl = record {
  state = state_in_flight;
  request_hash = request_hash;
  status_code = 0;
  headers = [];
  body = [];
  created_at = now;
  expires_at = now + ttl;
}

abbrev pub created_record : String → Envelope → IdempotencyRecord
created_record key env = record {
  key = key;
  state = env.state;
  request_hash = env.request_hash;
  status_code = 0;
  headers = [];
  body = [];
  created_at = env.created_at;
  expires_at = env.expires_at;
}

abbrev pub read_record : String → Envelope → IdempotencyRecord
read_record key env = record {
  key = key;
  state = env.state;
  request_hash = env.request_hash;
  status_code = env.status_code;
  headers = env.headers;
  body = env.body;
  created_at = env.created_at;
  expires_at = env.expires_at;
}

abbrev pub completion_envelope : IdempotencyRecord → ℕ → TextMap → List ℕ → ℕ → ℕ → Envelope
completion_envelope existing status_code headers body now ttl = record {
  state = state_completed;
  request_hash = existing.request_hash;
  status_code = status_code;
  headers = headers;
  body = body;
  created_at = existing.created_at;
  expires_at = now + ttl;
}

module _ {Raw : Type 0} (json : Codec Raw) where
  decode_record : String → Option Envelope → Result StoreError IdempotencyRecord
  decode_record key none = err unmarshal_record
  decode_record key (some env) = ok (read_record key env)

  unfoldable pub read_reply : String → Option (Option Raw) → Result StoreError IdempotencyRecord
  unfolding decode_record
  read_reply key none = err redis_get
  read_reply key (some none) = err not_found
  read_reply key (some (some raw)) = decode_record key (json.unmarshal raw)

  -- RedisStore.get
  unfoldable pub get_record : String → Program Raw (Result StoreError IdempotencyRecord)
  unfolding read_reply
  get_record key = get (prefixed key) (λ reply. done (read_reply key reply))

  unfoldable pub existing_reservation :
      Result StoreError IdempotencyRecord → Result StoreError Reservation
  existing_reservation (err e) = err e
  existing_reservation (ok existing) = ok (record { existing = some existing; created = false })

  reserve_reply : String → Envelope → Option Bool → Program Raw (Result StoreError Reservation)
  unfolding existing_reservation get_record
  reserve_reply key env none = done (err redis_set_nx)
  reserve_reply key env (some true) =
      done (ok (record { existing = some (created_record key env); created = true }))
  reserve_reply key env (some false) = do
    existing ← get_record key
    done (existing_reservation existing)

  unfoldable pub reserve_with :
      String → Envelope → ℕ → Option Raw → Program Raw (Result StoreError Reservation)
  unfolding reserve_reply
  reserve_with key env ttl none = done (err marshal_reservation)
  reserve_with key env ttl (some payload) =
      set_nx (prefixed key) payload ttl (reserve_reply key env)

  -- RedisStore.Reserve
  unfoldable pub reserve : String → String → ℕ → Program Raw (Result StoreError Reservation)
  unfolding reserve_with
  reserve key request_hash ttl = local_time λ now.
      let env = reservation_envelope request_hash now ttl in
      reserve_with key env ttl (json.marshal env)

  unfoldable pub complete_reply : Option Bool → Program Raw (Result StoreError (Unit {0}))
  complete_reply none = done (err redis_complete_script)
  complete_reply (some _) = done (ok tt)

  unfoldable pub complete_with :
      String → ℕ → Option Raw → Program Raw (Result StoreError (Unit {0}))
  unfolding complete_reply
  complete_with key ttl none = done (err marshal_completion)
  complete_with key ttl (some payload) = eval_complete (prefixed key) payload ttl complete_reply

  -- A record that is gone is no error of Complete.
  unfoldable pub complete_missing : StoreError → Result StoreError (Unit {0})
  complete_missing not_found = ok tt
  complete_missing e = err e

  unfoldable pub complete_existing :
      String
      → ℕ
      → TextMap
      → List ℕ
      → ℕ
      → ℕ
      → Result StoreError IdempotencyRecord
      → Program Raw (Result StoreError (Unit {0}))
  unfolding complete_missing complete_with
  complete_existing key status_code headers body now ttl (err e) = done (complete_missing e)
  complete_existing key status_code headers body now ttl (ok existing) =
      complete_with key ttl
        (json.marshal (completion_envelope existing status_code headers body now ttl))

  -- RedisStore.Complete
  unfoldable pub complete :
      String → ℕ → TextMap → List ℕ → ℕ → Program Raw (Result StoreError (Unit {0}))
  unfolding get_record complete_existing
  complete key status_code headers body ttl = local_time λ now. do
    existing ← get_record key
    complete_existing key status_code headers body now ttl existing

  release_reply : Option Bool → Result StoreError (Unit {0})
  release_reply none = err redis_release_script
  release_reply (some _) = ok tt

  -- RedisStore.Release
  unfoldable pub release : String → Program Raw (Result StoreError (Unit {0}))
  unfolding release_reply
  release key = eval_release (prefixed key) (λ reply. done (release_reply reply))

  abbrev pub redis_store : IdempotencyStore Raw
  redis_store = record { reserve = reserve; complete = complete; release = release }
