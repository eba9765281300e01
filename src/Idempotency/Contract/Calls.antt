-- ===== src/Idempotency/Contract/Calls.antt =====
-- redis_store.go's methods as calls with a reply, and sequences of them.
use internal_developer_platf.Shared.{
  ℕ, ◌+◌, ◌<◌, ◌≡◌, ◌≢◌, Option, none, some, List, [], ◌∷◌, Result, ok, err, Bool, true, false,
  if◌then◌else◌,
}
use internal_developer_platf.Http.{returned, Request, Script}
use internal_developer_platf.Idempotency.Record.{
  TextMap, lookup, state_in_flight, IdempotencyRecord, Reservation, StoreError,
}
use internal_developer_platf.Idempotency.Redis.{
  Codec, Server, Envelope, spells_in_flight, healthy, year_10000,
}
use internal_developer_platf.Idempotency.Program.{Program, Conditions, World, run, done, ◌>>=◌}
use internal_developer_platf.Idempotency.Store
use internal_developer_platf.Idempotency.Store.{
  prefixed, reservation_envelope, completion_envelope, read_record, created_record,
}
use internal_developer_platf.Idempotency.Contract.{
  Claim, Ledger, Call, reserve, complete, release, Reply, granted, conflict, finished, failed,
  answer_call,
}
use internal_developer_platf.Idempotency.Contract.Represents.{When, claim_in, Stores}

abbrev pub claim_of_record : IdempotencyRecord → Claim
claim_of_record r =
    claim_in r.state r.request_hash r.status_code (λ name. lookup name r.headers) r.body

abbrev pub conflict_with : Option IdempotencyRecord → Reply
conflict_with none = failed
conflict_with (some existing) = conflict (claim_of_record existing)

abbrev pub reservation_reply : Result StoreError Reservation → Reply
reservation_reply (err e) = failed
reservation_reply (ok r) = if r.created then granted else conflict_with r.existing

abbrev pub completion_reply : Result StoreError (Unit {0}) → Reply
completion_reply (err e) = failed
completion_reply (ok _) = finished

-- Every command of a call arrives, in the same millisecond of the server.
abbrev pub instant : ℕ → ℕ → ℕ → Conditions
instant now clock n = record { link = healthy; server_time = now; local_time = clock }

abbrev pub no_handler : Request → Script
no_handler request = record { ops = []; ending = returned }

-- The call of a client, and what is told back to it.
abbrev pub perform : {Raw : Type 0} → Codec Raw → Call → Program Raw Reply
perform json (reserve key hash ttl) =
    Store.reserve json key hash ttl >>= λ r. done (reservation_reply r)
perform json (complete key status headers body ttl) =
    Store.complete json key status headers body ttl >>= λ r. done (completion_reply r)
perform json (release key) = Store.release json key >>= λ r. done (completion_reply r)

abbrev pub at_server : {Raw : Type 0} → Server Raw → World Raw
at_server server = record { commands = 0; server = server; served = [] }

abbrev pub invoke : {Raw : Type 0} → Codec Raw → ℕ → ℕ → Call → Server Raw → Reply × World Raw
invoke json now clock call server =
    run json (instant now clock) no_handler (perform json call) (at_server server)

-- What a call came to is what was due: the reply, and a server that stores the ledger.
pub record Agrees {Raw : Type 0} (json : Codec Raw) (tracks : Bool) (ran : Reply × World Raw)
    (due : Ledger × Reply) : Type 0 where
  pub stores : Stores json tracks ran.1.server due.0
  pub reply : ran.0 ≡ due.1

-- No name and no value of the headers shows the word IN_FLIGHT in quotes.
abbrev pub IsPlain : TextMap → Type 0
IsPlain [] = Unit
IsPlain ((name, value) ∷ headers) =
    (spells_in_flight name ≡ false) × (spells_in_flight value ≡ false) × IsPlain headers

-- encoding/json with Lua's search: the word IN_FLIGHT in quotes is found only where a text of the
-- envelope shows it. Times and Base64 never do.
abbrev pub QuotesOnly : {Raw : Type 0} → Codec Raw → Type 0
QuotesOnly {Raw} json =
    (e : Envelope) (raw : Raw)
    → json.marshal e ≡ some raw
    → spells_in_flight e.state ≡ false
    → spells_in_flight e.request_hash ≡ false
    → IsPlain e.headers
    → json.finds_quoted raw state_in_flight ≡ false

-- A call with a time to live and a date that can be written. `tracks` tells whether Release may be
-- called; then no text shows the word IN_FLIGHT in quotes.
abbrev pub IsServable : Bool → ℕ → Call → Type 0
IsServable tracks clock (reserve key hash ttl) =
    (ttl ≢ 0) × (clock + ttl < year_10000) × When tracks (spells_in_flight hash ≡ false)
IsServable tracks clock (complete key status headers body ttl) =
    (ttl ≢ 0) × (clock + ttl < year_10000) × When tracks (IsPlain headers)
IsServable tracks clock (release key) = tracks ≡ true

-- A call with the server's and the client's time.
pub record Timed : Type 0 where
  pub now : ℕ
  pub clock : ℕ
  pub call : Call

abbrev pub run_calls :
    {Raw : Type 0} → Codec Raw → List Timed → Server Raw → List Reply × Server Raw
run_calls json [] server = ([], server)
run_calls json (t ∷ calls) server =
    let (reply, w) = invoke json t.now t.clock t.call server in
    let (replies, after) = run_calls json calls w.server in (reply ∷ replies, after)

abbrev pub answer_calls : List Timed → Ledger → List Reply × Ledger
answer_calls [] ledger = ([], ledger)
answer_calls (t ∷ calls) ledger =
    let (ledger', reply) = answer_call t.now t.call ledger in
    let (replies, after) = answer_calls calls ledger' in (reply ∷ replies, after)

abbrev pub AllServable : Bool → List Timed → Type 0
AllServable tracks [] = Unit
AllServable tracks (t ∷ calls) = IsServable tracks t.clock t.call × AllServable tracks calls
