-- ===== src/Idempotency/Redis.antt =====
-- The Redis server as the store uses it (SET NX, GET and the two Lua scripts of
-- services/api/internal/adapters/outbound/idempotency/redis_store.go), and the JSON envelope that
-- it holds. `Raw` stands for the stored bytes.
use internal_developer_platf.Shared.{
  ℕ, ◌+◌, ◌<◌, String, ◌≡◌, Bool, true, false, Option, none, some, List, ltb, ◌==◌, ◌||◌,
  if◌then◌else◌, str_eq,
}
use internal_developer_platf.Text.{codes, ends_with}
use internal_developer_platf.Idempotency.Record.{TextMap, lookup, state_in_flight}

pub record Envelope : Type 0 where
  pub state : String
  pub request_hash : String
  pub status_code : ℕ
  pub headers : TextMap
  pub body : List ℕ
  pub created_at : ℕ
  pub expires_at : ℕ

-- encoding/json on the envelope, and Lua's plain search for a word in double quotes.
pub record Codec (Raw : Type 0) : Type 0 where
  pub marshal : Envelope → Option Raw
  pub unmarshal : Raw → Option Envelope
  pub finds_quoted : Raw → String → Bool

-- Two envelopes with the same fields, where the headers are compared as maps.
pub record SameEnvelope (a b : Envelope) : Type 0 where
  pub state : a.state ≡ b.state
  pub request_hash : a.request_hash ≡ b.request_hash
  pub status_code : a.status_code ≡ b.status_code
  pub headers : (name : String) → lookup name a.headers ≡ lookup name b.headers
  pub body : a.body ≡ b.body
  pub created_at : a.created_at ≡ b.created_at
  pub expires_at : a.expires_at ≡ b.expires_at

-- The first millisecond that a time.Time does not marshal.
abbrev pub year_10000 : ℕ
year_10000 = 253402300800000

-- What encoding/json documents: a time before the year 10000 marshals; what is marshalled is read
-- back with the same fields; a text with no character to escape, such as the word IN_FLIGHT, is
-- written between double quotes, be it the state or a header's value.
pub record CodecLaws {Raw : Type 0} (json : Codec Raw) : Type 0 where
  pub marshals :
      (e : Envelope)
      → e.created_at < year_10000
      → e.expires_at < year_10000
      → (raw : Raw) × (json.marshal e ≡ some raw)
  pub round_trip :
      (e : Envelope) (raw : Raw)
      → json.marshal e ≡ some raw
      → (e' : Envelope) × (json.unmarshal raw ≡ some e') × SameEnvelope e' e
  pub quotes_state :
      (e : Envelope) (raw : Raw)
      → json.marshal e ≡ some raw
      → e.state ≡ state_in_flight
      → json.finds_quoted raw state_in_flight ≡ true
  pub quotes_headers :
      (e : Envelope) (raw : Raw) (name : String)
      → json.marshal e ≡ some raw
      → lookup name e.headers ≡ some state_in_flight
      → json.finds_quoted raw state_in_flight ≡ true

-- A text between double quotes, its own quotes escaped, shows the word IN_FLIGHT in double quotes: it
-- is the word, or ends with a quote and the word.
unfoldable pub spells_in_flight : String → Bool
unfolding ends_with
spells_in_flight s = str_eq s state_in_flight || ends_with (codes "\"IN_FLIGHT") (codes s)

pub record Entry (Raw : Type 0) : Type 0 where
  pub value : Raw
  pub expires : Option ℕ

abbrev pub Server : Type 0 → Type 0
Server Raw = String → Option (Entry Raw)

unfoldable pub is_live : ℕ → Option ℕ → Bool
is_live now none = true
is_live now (some expires) = ltb now expires

module _ {Raw : Type 0} where
  -- An entry past its time to live is gone.
  unfoldable pub live : ℕ → Option (Entry Raw) → Option (Entry Raw)
  unfolding is_live
  live now none = none
  live now (some entry) = if is_live now entry.expires then some entry else none

  unfoldable pub update : Server Raw → String → Option (Entry Raw) → Server Raw
  update server key entry k = if str_eq k key then entry else server k

  -- SET NX with a time to live in milliseconds, where 0 means none. The reply tells whether the
  -- key was set.
  unfoldable pub exec_set_nx : ℕ → String → Raw → ℕ → Server Raw → Server Raw × Option Bool
  unfolding live update
  exec_set_nx now key value ttl server = elim (live now (server key)) [
    | some entry ↦ (server, some false)
    | none ↦ (
      update server key
          (some (record { value = value; expires = if ttl == 0 then none else some (now + ttl) })),
      some true,
    )
  ]

  unfoldable pub exec_get : ℕ → String → Server Raw → Server Raw × Option (Option Raw)
  unfolding live
  exec_get now key server = elim (live now (server key)) [
    | some entry ↦ (server, some (some entry.value))
    | none ↦ (server, some none)
  ]

  -- completeScript. SET … PX 0 is an error of the server.
  unfoldable pub exec_complete : ℕ → String → Raw → ℕ → Server Raw → Server Raw × Option Bool
  unfolding live update
  exec_complete now key value ttl server = elim (live now (server key)) [
    | none ↦ (server, some false)
    | some entry ↦ if ttl == 0 then (server, none) else (
      update server key (some (record { value = value; expires = some (now + ttl) })),
      some true,
    )
  ]

  -- releaseScript, over the search for a quoted word in the stored bytes.
  unfoldable pub exec_release :
      (Raw → String → Bool) → ℕ → String → Server Raw → Server Raw × Option Bool
  unfolding live update
  exec_release finds_quoted now key server = elim (live now (server key)) [
    | none ↦ (server, some false)
    | some entry ↦
        if finds_quoted entry.value state_in_flight
        then (update server key none, some true)
        else (server, some false)
  ]

-- What happens to a command on its way: the server is reached, the request is lost, or the command
-- runs and its reply is lost.
pub data Link : Type 0 where
  healthy lost_request lost_reply : Link

-- `none` is the error that the client reports.
unfoldable pub transmit :
    {Raw Answer : Type 0}
    → Link
    → Server Raw
    → Server Raw × Option Answer
    → Server Raw × Option Answer
transmit healthy before after = after
transmit lost_request before after = (before, none)
transmit lost_reply before after = (after.0, none)
