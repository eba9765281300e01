-- ===== src/Idempotency/Store/Runs.antt =====
-- redis_store.go: what each method does to the server and answers, where every command arrives.
use internal_developer_platf.Shared.{
  ℕ, ◌+◌, String, ◌≡◌, ◌≢◌, true, false, Option, none, some, List, arith, Result, ok, if◌then◌else◌,
  ◌==◌, ◌<◌, str_eq_refl, ap,
}
use internal_developer_platf.Http.{Request, Script}
use internal_developer_platf.Idempotency.Record.{TextMap, Reservation, StoreError, state_in_flight}
use internal_developer_platf.Idempotency.Redis.{
  Codec, Entry, Server, Envelope, healthy, live, update, transmit, exec_set_nx, exec_get,
  exec_complete, exec_release,
}
use internal_developer_platf.Idempotency.Program.{Program, Conditions, World, proceed, run, ◌>>=◌}
use internal_developer_platf.Idempotency.Store.{
  prefixed, reserve, complete, release, reservation_envelope, completion_envelope, created_record,
  read_record,
}

-- The entry of a key when the next command arrives.
abbrev pub slot : {Raw : Type 0} → (ℕ → Conditions) → World Raw → String → Option (Entry Raw)
slot conditions w key = live (conditions w.commands).server_time (w.server (prefixed key))

abbrev pub timed : {Raw : Type 0} → Raw → ℕ → ℕ → Entry Raw
timed value now ttl = record {
  value = value;
  expires = if ttl == 0 then none else some (now + ttl);
}

-- The world after `n` commands that left the server as it was.
abbrev pub later : {Raw : Type 0} → ℕ → World Raw → World Raw
later n w = record w { commands = w.commands + n }

-- An entry that was written less than its time to live ago stands.
pub slot-written :
    {Raw : Type 0} (conditions : ℕ → Conditions) (key : String) (payload : Raw) (ttl c : ℕ)
    (server : Server Raw) (w : World Raw)
    → ttl ≢ 0
    → (conditions w.commands).server_time < (conditions c).server_time + ttl
    → w.server ≡ update server (prefixed key) (some (timed payload (conditions c).server_time ttl))
    → slot conditions w key ≡ some (timed payload (conditions c).server_time ttl)
unfolding live update
slot-written conditions key payload ttl c server w pos before written =
    ground (arith, str_eq_refl (prefixed key), ap (λ (f : Server _). f (prefixed key)) written)

module _ {Raw : Type 0} (json : Codec Raw) (conditions : ℕ → Conditions) (next : Request → Script)
    {A : Type 0} (key : String) where
  -- Reserve on a free key, where its command arrives.
  pub run-reserve_free_sent :
      (hash : String) (ttl : ℕ) (payload : Raw) (w : World Raw)
      (f : Result StoreError Reservation → Program Raw A)
      → (conditions w.commands).link ≡ healthy
      → json.marshal (reservation_envelope hash (conditions w.commands).local_time ttl)
        ≡ some payload
      → slot conditions w key ≡ none
      → run json conditions next (reserve json key hash ttl >>= f) w
        ≡ run json conditions next
            (f (
              ok (record {
                existing = some (
                    created_record key
                      (reservation_envelope hash (conditions w.commands).local_time ttl));
                created = true;
              })))
            (proceed w (
              update w.server
                (prefixed key)
                (some (timed payload (conditions w.commands).server_time ttl))))
  unfolding run reserve transmit exec_set_nx
  run-reserve_free_sent hash ttl payload w f arrives marshalled free = ground arith

  -- Reserve on a key that is taken, where its two commands arrive.
  pub run-reserve_taken_sent :
      (hash : String) (ttl : ℕ) (payload : Raw) (w : World Raw) (entry : Entry Raw) (e : Envelope)
      (f : Result StoreError Reservation → Program Raw A)
      → (conditions w.commands).link ≡ healthy
      → (conditions (w.commands + 1)).link ≡ healthy
      → json.marshal (reservation_envelope hash (conditions w.commands).local_time ttl)
        ≡ some payload
      → slot conditions w key ≡ some entry
      → slot conditions (later 1 w) key ≡ some entry
      → json.unmarshal entry.value ≡ some e
      → run json conditions next (reserve json key hash ttl >>= f) w
        ≡ run json conditions next
            (f (ok (record { existing = some (read_record key e); created = false })))
            (later 2 w)
  unfolding run reserve transmit exec_set_nx exec_get
  run-reserve_taken_sent hash ttl payload w entry e f arrives too marshalled taken still decoded =
      ground arith

module _ {Raw : Type 0} (json : Codec Raw) (conditions : ℕ → Conditions) (next : Request → Script)
    (healthy_link : (n : ℕ) → (conditions n).link ≡ healthy) where
  -- Reserve on a free key creates the record in flight.
  pub run-reserve_free :
      {A : Type 0} (key hash : String) (ttl : ℕ) (payload : Raw) (w : World Raw)
      (f : Result StoreError Reservation → Program Raw A)
      → json.marshal (reservation_envelope hash (conditions w.commands).local_time ttl)
        ≡ some payload
      → slot conditions w key ≡ none
      → run json conditions next (reserve json key hash ttl >>= f) w
        ≡ run json conditions next
            (f (
              ok (record {
                existing = some (
                    created_record key
                      (reservation_envelope hash (conditions w.commands).local_time ttl));
                created = true;
              })))
            (proceed w (
              update w.server
                (prefixed key)
                (some (timed payload (conditions w.commands).server_time ttl))))
  run-reserve_free key hash ttl payload w f marshalled free =
      run-reserve_free_sent json conditions next key hash ttl payload w f (healthy_link w.commands)
        marshalled free

  -- Reserve on a key that is taken, and still is when it is read, returns the stored record.
  pub run-reserve_taken :
      {A : Type 0} (key hash : String) (ttl : ℕ) (payload : Raw) (w : World Raw) (entry : Entry Raw)
      (e : Envelope) (f : Result StoreError Reservation → Program Raw A)
      → json.marshal (reservation_envelope hash (conditions w.commands).local_time ttl)
        ≡ some payload
      → slot conditions w key ≡ some entry
      → slot conditions (later 1 w) key ≡ some entry
      → json.unmarshal entry.value ≡ some e
      → run json conditions next (reserve json key hash ttl >>= f) w
        ≡ run json conditions next
            (f (ok (record { existing = some (read_record key e); created = false })))
            (later 2 w)
  run-reserve_taken key hash ttl payload w entry e f marshalled taken still decoded =
      run-reserve_taken_sent json conditions next key hash ttl payload w entry e f
        (healthy_link w.commands) (healthy_link (w.commands + 1)) marshalled taken still decoded

  -- Complete on a record that is there writes the completed one over it.
  pub run-complete_stored :
      {A : Type 0} (key : String) (status : ℕ) (headers : TextMap) (body : List ℕ) (ttl : ℕ)
      (w : World Raw) (entry : Entry Raw) (e : Envelope) (payload : Raw)
      (f : Result StoreError (Unit {0}) → Program Raw A)
      → slot conditions w key ≡ some entry
      → slot conditions (later 1 w) key ≡ some entry
      → json.unmarshal entry.value ≡ some e
      → json.marshal (
          completion_envelope
            (read_record key e)
            status
            headers
            body
            (conditions w.commands).local_time
            ttl)
        ≡ some payload
      → ttl ≢ 0
      → run json conditions next (complete json key status headers body ttl >>= f) w
        ≡ run json conditions next (f (ok tt)) (
            proceed (later 1 w) (
              update w.server
                (prefixed key)
                (some (timed payload (conditions (w.commands + 1)).server_time ttl))))
  unfolding run complete transmit exec_complete exec_get
  run-complete_stored key status headers body ttl w entry e payload f there still decoded marshalled
        pos =
      ground (arith, healthy_link w.commands, healthy_link (w.commands + 1))

  -- Release deletes what its search takes for a record in flight, and nothing else.
  pub run-release_found :
      {A : Type 0} (key : String) (w : World Raw) (entry : Entry Raw)
      (f : Result StoreError (Unit {0}) → Program Raw A)
      → slot conditions w key ≡ some entry
      → json.finds_quoted entry.value state_in_flight ≡ true
      → run json conditions next (release json key >>= f) w
        ≡ run json conditions next (f (ok tt)) (proceed w (update w.server (prefixed key) none))
  unfolding run release transmit exec_release
  run-release_found key w entry f there found = ground (arith, healthy_link w.commands)

  -- Complete on a key that is free changes nothing and reports no error.
  pub run-complete_gone :
      {A : Type 0} (key : String) (status : ℕ) (headers : TextMap) (body : List ℕ) (ttl : ℕ)
      (w : World Raw) (f : Result StoreError (Unit {0}) → Program Raw A)
      → slot conditions w key ≡ none
      → run json conditions next (complete json key status headers body ttl >>= f) w
        ≡ run json conditions next (f (ok tt)) (later 1 w)
  unfolding run complete transmit exec_get
  run-complete_gone key status headers body ttl w f free = ground (arith, healthy_link w.commands)

  -- Release leaves alone what its search does not take for a record in flight.
  pub run-release_left :
      {A : Type 0} (key : String) (w : World Raw) (entry : Entry Raw)
      (f : Result StoreError (Unit {0}) → Program Raw A)
      → slot conditions w key ≡ some entry
      → json.finds_quoted entry.value state_in_flight ≡ false
      → run json conditions next (release json key >>= f) w
        ≡ run json conditions next (f (ok tt)) (later 1 w)
  unfolding run release transmit exec_release
  run-release_left key w entry f there found = ground (arith, healthy_link w.commands)

  -- Release on a key that is free changes nothing and reports no error.
  pub run-release_gone :
      {A : Type 0} (key : String) (w : World Raw) (f : Result StoreError (Unit {0}) → Program Raw A)
      → slot conditions w key ≡ none
      → run json conditions next (release json key >>= f) w
        ≡ run json conditions next (f (ok tt)) (later 1 w)
  unfolding run release transmit exec_release
  run-release_gone key w f free = ground (arith, healthy_link w.commands)
