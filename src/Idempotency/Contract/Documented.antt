-- ===== src/Idempotency/Contract/Documented.antt =====
-- idempotency_store.go: Complete as the port's comment has it, which promotes a record in flight and
-- no other, against the ledger of what the store does. Who owns a claim is not part of a ledger.
use internal_developer_platf.Shared.{
  ℕ, ◌+◌, String, ◌≡◌, refl, true, Option, none, some, List, [], ◌∷◌,
}
use internal_developer_platf.Idempotency.Record.{TextMap, lookup}
use internal_developer_platf.Idempotency.Contract.{
  Claim, in_flight, completed, Held, Ledger, hash_of, put, standing, Call, reserve, complete,
  release, Reply, finished, answer_call, promote,
}
use internal_developer_platf.Idempotency.Contract.Represents.{is_in_flight}
use internal_developer_platf.Idempotency.Contract.Calls.{Timed, answer_calls}

promote_claim : ℕ → String → ℕ → TextMap → List ℕ → ℕ → Ledger → Claim → Ledger
promote_claim now key status headers body ttl ledger (in_flight hash) = put ledger key (
    some (record {
      claim = completed hash status (λ name. lookup name headers) body;
      until = now + ttl;
    }))
promote_claim now key status headers body ttl ledger (completed hash s h b) = ledger

promote_documented : ℕ → String → ℕ → TextMap → List ℕ → ℕ → Ledger → Option Held → Ledger
unfolding promote_claim
promote_documented now key status headers body ttl ledger none = ledger
promote_documented now key status headers body ttl ledger (some held) =
    promote_claim now key status headers body ttl ledger held.claim

abbrev documented_call : ℕ → Call → Ledger → Ledger × Reply
documented_call now (reserve key hash ttl) ledger = answer_call now (reserve key hash ttl) ledger
documented_call now (complete key status headers body ttl) ledger = (
  promote_documented now key status headers body ttl ledger (standing now (ledger key)),
  finished,
)
documented_call now (release key) ledger = answer_call now (release key) ledger

abbrev documented_calls : List Timed → Ledger → List Reply × Ledger
documented_calls [] ledger = ([], ledger)
documented_calls (t ∷ calls) ledger =
    let (ledger', reply) = documented_call t.now t.call ledger in
    let (replies, after) = documented_calls calls ledger' in (reply ∷ replies, after)

abbrev MeetsInFlight : Option Held → Type 0
MeetsInFlight none = Unit
MeetsInFlight (some held) = is_in_flight held.claim ≡ true

abbrev CallMeets : ℕ → Call → Ledger → Type 0
CallMeets now (reserve key hash ttl) ledger = Unit
CallMeets now (complete key status headers body ttl) ledger =
    MeetsInFlight (standing now (ledger key))
CallMeets now (release key) ledger = Unit

-- Each Complete meets a claim in flight, or none.
abbrev CompletesInFlight : List Timed → Ledger → Type 0
CompletesInFlight [] ledger = Unit
CompletesInFlight (t ∷ calls) ledger =
    CallMeets t.now t.call ledger × CompletesInFlight calls (answer_call t.now t.call ledger).0

promote_claim_lem :
    (now : ℕ) (key : String) (status : ℕ) (headers : TextMap) (body : List ℕ) (ttl : ℕ)
    (ledger : Ledger) (claim : Claim)
    → is_in_flight claim ≡ true
    → promote_claim now key status headers body ttl ledger claim
      ≡ put ledger key (
          some (record {
            claim = completed (hash_of claim) status (λ name. lookup name headers) body;
            until = now + ttl;
          }))
unfolding promote_claim
promote_claim_lem now key status headers body ttl ledger (in_flight hash) flying = refl
promote_claim_lem now key status headers body ttl ledger (completed hash s h b) flying = cc

promote_documented_lem :
    (now : ℕ) (key : String) (status : ℕ) (headers : TextMap) (body : List ℕ) (ttl : ℕ)
    (ledger : Ledger) (held : Option Held)
    → MeetsInFlight held
    → promote_documented now key status headers body ttl ledger held
      ≡ promote now key status headers body ttl ledger held
unfolding promote promote_documented
promote_documented_lem now key status headers body ttl ledger none meets = refl
promote_documented_lem now key status headers body ttl ledger (some held) meets =
    promote_claim_lem now key status headers body ttl ledger held.claim meets

documented_call_lem :
    (now : ℕ) (call : Call) (ledger : Ledger)
    → CallMeets now call ledger
    → documented_call now call ledger ≡ answer_call now call ledger
unfolding answer_call
documented_call_lem now (reserve key hash ttl) ledger meets = refl
documented_call_lem now (complete key status headers body ttl) ledger meets =
    rw
      (promote_documented_lem now key status headers body ttl ledger (standing now (ledger key))
        meets)
      refl
documented_call_lem now (release key) ledger meets = refl

-- Where each Complete meets a claim in flight or none, the ledger is the documented one.
documented_lem :
    (calls : List Timed) (ledger : Ledger)
    → CompletesInFlight calls ledger
    → documented_calls calls ledger ≡ answer_calls calls ledger
documented_lem [] ledger meets = refl
documented_lem (t ∷ calls) ledger (first, more) =
    rw
      (
        documented_call_lem t.now t.call ledger first,
        documented_lem calls (answer_call t.now t.call ledger).0 more,
      )
      refl
