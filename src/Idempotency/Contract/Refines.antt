-- ===== src/Idempotency/Contract/Refines.antt =====
-- redis_store.go against the operations on a ledger of claims.
use internal_developer_platf.Shared.{
  ℕ, ◌+◌, String, ◌≡◌, refl, sym, ap, ap₂, ◌∙◌, ◌≢◌, Bool, true, Option, none, some, List, [], ◌∷◌,
  arith,
}
use internal_developer_platf.Idempotency.Record.{TextMap, lookup}
use internal_developer_platf.Idempotency.Redis.{
  Codec, CodecLaws, Entry, Server, live, spells_in_flight,
}
use internal_developer_platf.Idempotency.Program.{run, done}
use internal_developer_platf.Idempotency.Store.{
  prefixed, reservation_envelope, completion_envelope, read_record,
}
use internal_developer_platf.Idempotency.Store.Runs.{
  timed, run-reserve_free, run-reserve_taken, run-complete_stored, run-complete_gone,
  run-release_found, run-release_left, run-release_gone,
}
use internal_developer_platf.Idempotency.Contract.{
  Claim, in_flight, completed, Held, Ledger, standing, hash_of, Call, reserve, complete, release,
  conflict, finished, answer_call, grant, promote, withdraw, withdraw_claim,
}
use internal_developer_platf.Idempotency.Contract.Represents.{
  when, given, Holds, Represents, Stores, Stores-update, hash_of-claim, SameEnvelope-claim,
  live-standing,
}
use internal_developer_platf.Idempotency.Contract.Calls.{
  reservation_reply, completion_reply, no_handler, instant, at_server, invoke, Agrees, QuotesOnly,
  IsServable, Timed, run_calls, answer_calls, AllServable,
}

timed-expires :
    {Raw : Type 0} (value : Raw) (now ttl : ℕ)
    → ttl ≢ 0
    → (timed value now ttl).expires ≡ some (now + ttl)
timed-expires value now ttl pos = ground arith

module _ {Raw : Type 0} (json : Codec Raw) (laws : CodecLaws json) (tracks : Bool)
    (quotes_only : tracks ≡ true → QuotesOnly json) (now clock : ℕ) (server : Server Raw)
    (ledger : Ledger) (stores : Stores json tracks server ledger) where
  abbrev Refines : Call → Type 0
  Refines call =
      Agrees json tracks (invoke json now clock call server) (answer_call now call ledger)

  reserve_from :
      (key hash : String) (ttl : ℕ) (entry : Option (Entry Raw)) (held : Option Held)
      → IsServable tracks clock (reserve key hash ttl)
      → live now (server (prefixed key)) ≡ entry
      → standing now (ledger key) ≡ held
      → Represents json tracks entry held
      → Refines (reserve key hash ttl)
  unfolding answer_call grant run
  reserve_from key hash ttl none none (pos, dates, plain) free unclaimed represents =
      let env = reservation_envelope hash clock ttl in
      let (payload, marshalled) = laws.marshals env (omega arith) dates in
      let (e, decoded, same) = laws.round_trip env payload marshalled in
      rw
        (
          run-reserve_free json (instant now clock) no_handler (λ n. refl) key hash ttl payload
              (at_server server) (λ r. done (reservation_reply r)) marshalled free,
          unclaimed,
        )
        (record {
          stores =
              Stores-update json tracks server ledger key (some (timed payload now ttl))
                (some (record { claim = in_flight hash; until = now + ttl })) stores
                (record {
                  envelope = e;
                  expires = timed-expires payload now ttl pos;
                  decoded = decoded;
                  claim = SameEnvelope-claim e env same;
                  found = when tracks (λ set. laws.quotes_state env payload marshalled refl);
                  hash = when tracks (λ set. rw same.request_hash (given tracks set plain));
                  date = omega (arith, same.created_at);
                });
          reply = refl;
        })
  reserve_from key hash ttl (some entry) (some held) (pos, dates, plain) taken claimed holds =
      let (payload, marshalled) =
        laws.marshals (reservation_envelope hash clock ttl) (omega arith) dates in
      rw
        (
          run-reserve_taken json (instant now clock) no_handler (λ n. refl) key hash ttl payload
              (at_server server) entry holds.envelope (λ r. done (reservation_reply r)) marshalled
              taken taken holds.decoded,
          claimed,
        )
        (record { stores = stores; reply = ap conflict holds.claim })
  reserve_from key hash ttl none (some held) servable free claimed represents = absurd represents
  reserve_from key hash ttl (some entry) none servable taken unclaimed represents =
      absurd represents

  complete_from :
      (key : String) (status ttl : ℕ) (headers : TextMap) (body : List ℕ)
      (entry : Option (Entry Raw)) (held : Option Held)
      → IsServable tracks clock (complete key status headers body ttl)
      → live now (server (prefixed key)) ≡ entry
      → standing now (ledger key) ≡ held
      → Represents json tracks entry held
      → Refines (complete key status headers body ttl)
  unfolding answer_call promote run spells_in_flight
  complete_from key status ttl headers body none none servable free unclaimed represents =
      rw
        (
          run-complete_gone json (instant now clock) no_handler (λ n. refl) key status headers body
              ttl (at_server server) (λ r. done (completion_reply r)) free,
          unclaimed,
        )
        (record { stores = stores; reply = refl })
  complete_from key status ttl headers body (some entry) (some held) (pos, dates, plain) there
        claimed holds =
      let env =
        completion_envelope (read_record key holds.envelope) status headers body clock ttl in
      let (payload, marshalled) = laws.marshals env holds.date dates in
      let (e, decoded, same) = laws.round_trip env payload marshalled in
      rw
        (
          run-complete_stored json (instant now clock) no_handler (λ n. refl) key status headers
              body ttl (at_server server) entry holds.envelope payload
              (λ r. done (completion_reply r)) there there holds.decoded marshalled pos,
          claimed,
        )
        (record {
          stores =
              Stores-update json tracks server ledger key (some (timed payload now ttl)) _ stores
                (record {
                  envelope = e;
                  expires = timed-expires payload now ttl pos;
                  decoded = decoded;
                  claim =
                      SameEnvelope-claim e env same
                      ∙ ap (λ h. completed h status (λ name. lookup name headers) body)
                          (sym (hash_of-claim holds.envelope) ∙ ap hash_of holds.claim);
                  found = when tracks (λ set.
                      quotes_only set env payload marshalled refl (given tracks set holds.hash)
                        (given tracks set plain));
                  hash = when tracks (λ set. rw same.request_hash (given tracks set holds.hash));
                  date = omega (arith, same.created_at, holds.date);
                });
          reply = refl;
        })
  complete_from key status ttl headers body none (some held) servable free claimed represents =
      absurd represents
  complete_from key status ttl headers body (some entry) none servable there unclaimed represents =
      absurd represents

  release_held :
      (key : String) (entry : Entry Raw) (claim : Claim) (until : ℕ)
      → live now (server (prefixed key)) ≡ some entry
      → tracks ≡ true
      → Holds json tracks entry (record { claim = claim; until = until })
      → Agrees json tracks
          (invoke json now clock (release key) server)
          (withdraw_claim key ledger claim, finished)
  unfolding withdraw_claim run
  release_held key entry (in_flight hash) until there set holds =
      rw
        (run-release_found json (instant now clock) no_handler (λ n. refl) key (at_server server)
          entry (λ r. done (completion_reply r)) there (given tracks set holds.found))
        (record {
          stores = Stores-update json tracks server ledger key none none stores tt;
          reply = refl;
        })
  release_held key entry (completed hash status headers body) until there set holds =
      rw
        (run-release_left json (instant now clock) no_handler (λ n. refl) key (at_server server)
          entry (λ r. done (completion_reply r)) there (given tracks set holds.found))
        (record { stores = stores; reply = refl })

  release_from :
      (key : String) (entry : Option (Entry Raw)) (held : Option Held)
      → live now (server (prefixed key)) ≡ entry
      → standing now (ledger key) ≡ held
      → tracks ≡ true
      → Represents json tracks entry held
      → Refines (release key)
  unfolding answer_call withdraw run
  release_from key none none free unclaimed set represents =
      rw
        (
          run-release_gone json (instant now clock) no_handler (λ n. refl) key (at_server server)
              (λ r. done (completion_reply r)) free,
          unclaimed,
        )
        (record { stores = stores; reply = refl })
  release_from key (some entry) (some held) there claimed set holds =
      rw claimed (release_held key entry held.claim held.until there set holds)
  release_from key none (some held) free claimed set represents = absurd represents
  release_from key (some entry) none there unclaimed set represents = absurd represents

  call-Refines : (call : Call) → IsServable tracks clock call → Refines call
  call-Refines (reserve key hash ttl) servable =
      reserve_from key hash ttl (live now (server (prefixed key))) (standing now (ledger key))
        servable refl refl
        (live-standing json tracks now (server (prefixed key)) (ledger key) (stores key))
  call-Refines (complete key status headers body ttl) servable =
      complete_from key status ttl headers body (live now (server (prefixed key)))
        (standing now (ledger key)) servable refl refl
        (live-standing json tracks now (server (prefixed key)) (ledger key) (stores key))
  call-Refines (release key) servable =
      release_from key (live now (server (prefixed key))) (standing now (ledger key)) refl refl
        servable (live-standing json tracks now (server (prefixed key)) (ledger key) (stores key))

module _ {Raw : Type 0} (json : Codec Raw) (laws : CodecLaws json) (tracks : Bool)
    (quotes_only : tracks ≡ true → QuotesOnly json) where
  -- The refinement with or without Release among the calls.
  pub calls-Refine :
      (calls : List Timed) (server : Server Raw) (ledger : Ledger)
      → AllServable tracks calls
      → Stores json tracks server ledger
      → ((run_calls json calls server).0 ≡ (answer_calls calls ledger).0)
        × Stores json tracks (run_calls json calls server).1 (answer_calls calls ledger).1
  calls-Refine [] server ledger servable stores = (refl, stores)
  calls-Refine (t ∷ calls) server ledger (first, more) stores =
      let agrees =
        call-Refines json laws tracks quotes_only t.now t.clock server ledger stores t.call first in
      let (same, after) =
        calls-Refine calls (invoke json t.now t.clock t.call server).1.server
          (answer_call t.now t.call ledger).0 more agrees.stores in
      (ap₂ ◌∷◌ agrees.reply same, after)

-- Over a server that stores a ledger, any sequence of calls of Reserve, Complete and Release, each
-- within one millisecond, answers as the ledger's operations do, and leaves the server storing what
-- they leave: Reserve creates a claim in flight or returns the one that stands, Complete puts its
-- response in the place of whatever claim stands, Release removes a claim in flight. The calls have a
-- time to live and dates that can be written, and no hash, header name or header value of them is
-- the word IN_FLIGHT or ends with a double quote and that word; the release script finds the word in
-- quotes only where a text of the envelope is or ends like that.
pub calls_refine :
    {Raw : Type 0} (json : Codec Raw) (laws : CodecLaws json) (quotes_only : QuotesOnly json)
    (calls : List Timed) (server : Server Raw) (ledger : Ledger)
    → AllServable true calls
    → Stores json true server ledger
    → ((run_calls json calls server).0 ≡ (answer_calls calls ledger).0)
      × Stores json true (run_calls json calls server).1 (answer_calls calls ledger).1
calls_refine json laws quotes_only = calls-Refine json laws true (λ set. quotes_only)
