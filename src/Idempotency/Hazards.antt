-- ===== src/Idempotency/Hazards.antt =====
-- redis_store.go: what its scripts allow beyond the contract of the port.
pub mod Takeover
use internal_developer_platf.Shared.{
  ℕ, ◌+◌, ◌<◌, String, ◌≡◌, sym, ap, str_eq_refl, ◌∙◌, ◌≢◌, Option, none, some, List, ok, arith,
}
use internal_developer_platf.Http.{Request, Script}
use internal_developer_platf.Idempotency.Record.{TextMap, lookup, state_in_flight, state_completed}
use internal_developer_platf.Idempotency.Redis.{
  transmit, exec_release, Codec, CodecLaws, Envelope, Entry, Server, healthy, update, year_10000,
}
use internal_developer_platf.Idempotency.Program.{Conditions, World, done, run, >>=-done}
use internal_developer_platf.Idempotency.Store.{
  prefixed, complete, release, completion_envelope, read_record,
}
use internal_developer_platf.Idempotency.Store.Runs.{slot, timed, later, run-complete_stored}

update_self :
    {Raw : Type 0} (server : Server Raw) (key : String) (entry : Option (Entry Raw))
    → update server key entry key ≡ entry
unfolding update
update_self server key entry = rw (str_eq_refl key)

module _ {Raw : Type 0} (json : Codec Raw) (laws : CodecLaws json) (conditions : ℕ → Conditions)
    (next : Request → Script) (healthy_link : (n : ℕ) → (conditions n).link ≡ healthy) where
  -- A completed record that stands in the store is deleted by Release, if one of its headers has
  -- the value IN_FLIGHT.
  pub release_deletes_completed :
      (key name : String) (w : World Raw) (entry : Entry Raw) (e : Envelope)
      → slot conditions w key ≡ some entry
      → json.marshal e ≡ some entry.value
      → e.state ≡ state_completed
      → lookup name e.headers ≡ some state_in_flight
      → let (answer, w') = run json conditions next (release json key) w in
        (answer ≡ ok tt) × (w'.server ≡ update w.server (prefixed key) none)
  unfolding run release transmit exec_release
  release_deletes_completed key name w entry e there written completed header =
      ground (arith, healthy_link w.commands, laws.quotes_headers e entry.value name written header)

  -- Complete writes over whatever record stands under the key, completed ones and other requests'
  -- reservations included: the new record has the caller's status and body, and the request hash of
  -- the record that stood there.
  pub complete_overwrites_any :
      (key : String) (status ttl : ℕ) (headers : TextMap) (body : List ℕ) (w : World Raw)
      (entry : Entry Raw) (e : Envelope)
      → ttl ≢ 0
      → (conditions w.commands).local_time + ttl < year_10000
      → e.created_at < year_10000
      → slot conditions w key ≡ some entry
      → slot conditions (later 1 w) key ≡ some entry
      → json.unmarshal entry.value ≡ some e
      → let (answer, w') = run json conditions next (complete json key status headers body ttl) w in
        (stored : Raw) × (e' : Envelope) × (answer ≡ ok tt)
        × (w'.server (prefixed key)
            ≡ some (timed stored (conditions (w.commands + 1)).server_time ttl))
        × (json.unmarshal stored ≡ some e')
        × (e'.state ≡ state_completed)
        × (e'.request_hash ≡ e.request_hash)
        × (e'.status_code ≡ status)
        × (e'.body ≡ body)
  unfolding run
  complete_overwrites_any key status ttl headers body w entry e pos now created there still
        decoded =
      let env =
        completion_envelope (read_record key e) status headers body
          (conditions w.commands).local_time ttl in
      let (stored, marshalled) = laws.marshals env created now in
      let (e', read, same) = laws.round_trip env stored marshalled in
      let ran =
        ap (λ p. run json conditions next p w)
          (sym (>>=-done (complete json key status headers body ttl)))
        ∙ run-complete_stored json conditions next healthy_link key status headers body ttl w entry
            e stored done there still decoded marshalled pos in
      (
        stored,
        e',
        ap (λ r. r.0) ran,
        ap (λ r. r.1.server (prefixed key)) ran ∙ update_self w.server (prefixed key) _,
        read,
        same.state,
        same.request_hash,
        same.status_code,
        same.body,
      )
