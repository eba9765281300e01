-- ===== src/Idempotency/Contract.antt =====
-- services/api/internal/domain/ports/outbound/idempotency_store.go: what the operations of the port
-- do over Redis, as operations on a ledger of claims, with no envelope, no bytes and no commands. It
-- promises less than the port's comments do: there Complete promotes only a record in flight that the
-- caller still owns, here it writes over any claim that stands. Contract.Documented compares the two.
pub mod Represents
pub mod Calls
pub mod Refines
pub mod Documented
use internal_developer_platf.Shared.{
  ℕ, ◌+◌, String, Option, none, some, List, ltb, str_eq, if◌then◌else◌,
}
use internal_developer_platf.Idempotency.Record.{TextMap, lookup}

-- What a key stands for: a request under way, by its hash, or its response. A header map is known by
-- what it holds under each name.
pub data Claim : Type 0 where
  in_flight : String → Claim
  completed : String → ℕ → (String → Option String) → List ℕ → Claim

pub record Held : Type 0 where
  pub claim : Claim
  pub until : ℕ

abbrev pub Ledger : Type 0
Ledger = String → Option Held

unfoldable pub put : Ledger → String → Option Held → Ledger
put ledger key held k = if str_eq k key then held else ledger k

unfoldable pub not_over : ℕ → Held → Option Held
not_over now held = if ltb now held.until then some held else none

-- A claim that has run out is no claim.
unfoldable pub standing : ℕ → Option Held → Option Held
unfolding not_over
standing now none = none
standing now (some held) = not_over now held

abbrev pub hash_of : Claim → String
hash_of (in_flight hash) = hash
hash_of (completed hash status headers body) = hash

pub data Call : Type 0 where
  reserve : String → String → ℕ → Call
  complete : String → ℕ → TextMap → List ℕ → ℕ → Call
  release : String → Call

pub data Reply : Type 0 where
  granted : Reply
  conflict : Claim → Reply
  finished : Reply
  failed : Reply

grant : ℕ → String → String → ℕ → Ledger → Option Held → Ledger × Reply
grant now key hash ttl ledger (some held) = (ledger, conflict held.claim)
grant now key hash ttl ledger none =
    (put ledger key (some (record { claim = in_flight hash; until = now + ttl })), granted)

unfoldable pub promote : ℕ → String → ℕ → TextMap → List ℕ → ℕ → Ledger → Option Held → Ledger
promote now key status headers body ttl ledger none = ledger
promote now key status headers body ttl ledger (some held) = put ledger key (
    some (record {
      claim = completed (hash_of held.claim) status (λ name. lookup name headers) body;
      until = now + ttl;
    }))

withdraw_claim : String → Ledger → Claim → Ledger
withdraw_claim key ledger (in_flight hash) = put ledger key none
withdraw_claim key ledger (completed hash status headers body) = ledger

withdraw : String → Ledger → Option Held → Ledger
unfolding withdraw_claim
withdraw key ledger none = ledger
withdraw key ledger (some held) = withdraw_claim key ledger held.claim

-- Reserve creates a claim in flight or returns the one that stands; Complete writes its response over
-- the claim that stands, whether in flight or completed; Release removes a claim in flight.
unfoldable pub answer_call : ℕ → Call → Ledger → Ledger × Reply
unfolding grant promote withdraw
answer_call now (reserve key hash ttl) ledger =
    grant now key hash ttl ledger (standing now (ledger key))
answer_call now (complete key status headers body ttl) ledger =
    (promote now key status headers body ttl ledger (standing now (ledger key)), finished)
answer_call now (release key) ledger = (withdraw key ledger (standing now (ledger key)), finished)
