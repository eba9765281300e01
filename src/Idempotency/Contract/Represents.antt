-- ===== src/Idempotency/Contract/Represents.antt =====
-- redis_store.go: when the entries of a Redis server stand for a ledger.
use internal_developer_platf.Shared.{
  ℕ, ◌<◌, String, ◌≡◌, refl, ap, Bool, true, false, Option, none, some, List, arith, Bool-cases,
  inl, inr, ltb, str_eq, str_eq_iff, if◌then◌else◌, fun_ext,
}
use text.Mathlib.TextLemmas.{append_cancel_left}
use internal_developer_platf.Idempotency.Record.{lookup, state_in_flight}
use internal_developer_platf.Idempotency.Redis.{
  Codec, SameEnvelope, Envelope, Entry, Server, update, year_10000, live, is_live, spells_in_flight,
}
use internal_developer_platf.Idempotency.Store.{prefixed, key_prefix}
use internal_developer_platf.Idempotency.Contract.{
  Claim, in_flight, completed, Held, Ledger, put, hash_of, standing, not_over,
}

abbrev pub claim_in : String → String → ℕ → (String → Option String) → List ℕ → Claim
claim_in state hash status headers body =
    if str_eq state state_in_flight then in_flight hash else completed hash status headers body

abbrev pub claim_of : Envelope → Claim
claim_of e = claim_in e.state e.request_hash e.status_code (λ name. lookup name e.headers) e.body

abbrev pub is_in_flight : Claim → Bool
is_in_flight (in_flight hash) = true
is_in_flight (completed hash status headers body) = false

-- A statement that is made where a flag is set.
abbrev pub When : Bool → Type 0 → Type 0
When true P = P
When false P = Unit

pub when : (flag : Bool) {P : Type 0} → (flag ≡ true → P) → When flag P
when true p = p refl
when false p = tt

pub given : (flag : Bool) {P : Type 0} → flag ≡ true → When flag P → P
given true set p = p
given false set p = cc

-- An entry holds a claim: it ends with it, its bytes are read back as an envelope of it, and, where
-- `tracks` is set, the release script's search finds a claim in flight and no other.
pub record Holds {Raw : Type 0} (json : Codec Raw) (tracks : Bool) (entry : Entry Raw) (held : Held)
    : Type 0 where
  pub envelope : Envelope
  pub expires : entry.expires ≡ some held.until
  pub decoded : json.unmarshal entry.value ≡ some envelope
  pub claim : claim_of envelope ≡ held.claim
  pub found : When tracks (json.finds_quoted entry.value state_in_flight ≡ is_in_flight held.claim)
  pub hash : When tracks (spells_in_flight envelope.request_hash ≡ false)
  pub date : envelope.created_at < year_10000

abbrev pub Represents :
    {Raw : Type 0} → Codec Raw → Bool → Option (Entry Raw) → Option Held → Type 0
Represents json tracks none none = Unit
Represents json tracks (some entry) (some held) = Holds json tracks entry held
Represents json tracks none (some held) = ⊥
Represents json tracks (some entry) none = ⊥

-- Each key's entry represents what the ledger has under the key.
abbrev pub Stores : {Raw : Type 0} → Codec Raw → Bool → Server Raw → Ledger → Type 0
Stores json tracks server ledger =
    (key : String) → Represents json tracks (server (prefixed key)) (ledger key)

prefixed_inj : (a b : String) → prefixed a ≡ prefixed b → a ≡ b
prefixed_inj a b e = append_cancel_left key_prefix a b e

str_eq-prefixed : (a b : String) → str_eq (prefixed a) (prefixed b) ≡ str_eq a b
str_eq-prefixed a b = ground (
  arith,
  str_eq_iff (prefixed a) (prefixed b),
  str_eq_iff a b,
  prefixed_inj a b,
  λ (e : a ≡ b). ap prefixed e,
)

-- Writing an entry under a key that represents a claim is writing the claim.
pub Stores-update :
    {Raw : Type 0} (json : Codec Raw) (tracks : Bool) (server : Server Raw) (ledger : Ledger)
    (key : String) (entry : Option (Entry Raw)) (held : Option Held)
    → Stores json tracks server ledger
    → Represents json tracks entry held
    → Stores json tracks (update server (prefixed key) entry) (put ledger key held)
unfolding update put
Stores-update json tracks server ledger key entry held stores represents k =
    elim (Bool-cases (str_eq k key)) [
      | inl same ↦ rw (str_eq-prefixed k key, same) represents
      | inr other ↦ rw (str_eq-prefixed k key, other) (stores k)
    ]

pub SameEnvelope-claim : (a b : Envelope) → SameEnvelope a b → claim_of a ≡ claim_of b
SameEnvelope-claim a b same =
    rw (same.state, same.request_hash, same.status_code, same.body, fun_ext same.headers) refl

-- An entry and its claim run out together.
pub live-standing :
    {Raw : Type 0} (json : Codec Raw) (tracks : Bool) (now : ℕ) (entry : Option (Entry Raw))
    (held : Option Held)
    → Represents json tracks entry held
    → Represents json tracks (live now entry) (standing now held)
unfolding live is_live standing not_over
live-standing json tracks now none none represents = tt
live-standing json tracks now none (some held) represents = absurd represents
live-standing json tracks now (some entry) none represents = absurd represents
live-standing json tracks now (some entry) (some held) holds =
    elim (Bool-cases (ltb now held.until)) [
      | inl lives ↦ simp (holds.expires, lives) holds
      | inr over ↦ simp (holds.expires, over) tt
    ]

pub hash_of-claim : (e : Envelope) → hash_of (claim_of e) ≡ e.request_hash
hash_of-claim e = elim (Bool-cases (str_eq e.state state_in_flight)) [
  | inl flying ↦ rw flying refl
  | inr other ↦ rw other refl
]
