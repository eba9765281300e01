-- ===== src/Idempotency/Hazards/Takeover.antt =====
-- redis_store.go: a handler that outlasts its reservation, and the request that takes its key over.
use internal_developer_platf.Shared.{
  ℕ, ◌+◌, ◌≤◌, ◌<◌, String, ◌≡◌, refl, ◌∙◌, false, none, some, List, [], ◌∷◌, arith, str_eq_refl,
}
use internal_developer_platf.Idempotency.Record.{TextMap, lookup}
use internal_developer_platf.Idempotency.Redis.{Codec, CodecLaws, Server}
use internal_developer_platf.Idempotency.Contract.{
  in_flight, completed, Held, Ledger, put, standing, not_over, reserve, complete, granted, conflict,
  finished, answer_call,
}
use internal_developer_platf.Idempotency.Contract.Represents.{Stores}
use internal_developer_platf.Idempotency.Contract.Calls.{
  Timed, run_calls, answer_calls, AllServable,
}
use internal_developer_platf.Idempotency.Contract.Refines.{calls-Refine}

-- A request with the hash `mine` reserves a key and runs for longer than its time to live; a request
-- with the hash `yours` reserves the key; the first one completes; the second one is sent again.
abbrev pub takeover :
    String → String → String → ℕ → ℕ → TextMap → List ℕ → ℕ → ℕ → ℕ → ℕ → List Timed
takeover key mine yours ttl status headers body start taken late again =
    record { now = start; clock = start; call = reserve key mine ttl }
    ∷ record { now = taken; clock = taken; call = reserve key yours ttl }
    ∷ record { now = late; clock = late; call = complete key status headers body ttl }
    ∷ record { now = again; clock = again; call = reserve key yours ttl }
    ∷ []

put-standing :
    (now : ℕ) (ledger : Ledger) (key : String) (held : Held)
    → now < held.until
    → standing now (put ledger key (some held) key) ≡ some held
unfolding put standing not_over
put-standing now ledger key held before = ground (arith, str_eq_refl key)

put-over :
    (now : ℕ) (ledger : Ledger) (key : String) (held : Held)
    → held.until ≤ now
    → standing now (put ledger key (some held) key) ≡ none
unfolding put standing not_over
put-over now ledger key held over = ground (arith, str_eq_refl key)

contract_takes_over :
    (key mine yours : String) (ttl status : ℕ) (headers : TextMap) (body : List ℕ)
    (start taken late again : ℕ) (ledger : Ledger)
    → standing start (ledger key) ≡ none
    → start + ttl ≤ taken
    → late < taken + ttl
    → again < late + ttl
    → (answer_calls
        (takeover key mine yours ttl status headers body start taken late again)
        ledger).0
      ≡ granted
        ∷ granted
        ∷ finished
        ∷ conflict (completed yours status (λ name. lookup name headers) body)
        ∷ []
unfolding answer_call
contract_takes_over key mine yours ttl status headers body start taken late again ledger free over
      before soon =
    let l₁ = put ledger key (some (record { claim = in_flight mine; until = start + ttl })) in
    let l₂ = put l₁ key (some (record { claim = in_flight yours; until = taken + ttl })) in
    rw
      (
        free,
        put-over taken ledger key (record { claim = in_flight mine; until = start + ttl }) over,
        put-standing late l₁ key (record { claim = in_flight yours; until = taken + ttl }) before,
        put-standing again l₂ key
            (record {
              claim = completed yours status (λ name. lookup name headers) body;
              until = late + ttl;
            })
            soon,
      )
      refl

-- A key is free and a request reserves it, and runs until another request with the same key, of any
-- hash, has reserved it once more after the first reservation ran out. The first one's completion
-- then succeeds, and its response stands under the second one's hash: a repetition of the second
-- request finds the first one's status, headers and body as its own response. The time to live is not
-- 0, and the dates can be written.
pub late_completion_takes_over :
    {Raw : Type 0} (json : Codec Raw) (laws : CodecLaws json) (key mine yours : String)
    (ttl status : ℕ) (headers : TextMap) (body : List ℕ) (start taken late again : ℕ)
    (server : Server Raw) (ledger : Ledger)
    → AllServable false (takeover key mine yours ttl status headers body start taken late again)
    → Stores json false server ledger
    → standing start (ledger key) ≡ none
    → start + ttl ≤ taken
    → late < taken + ttl
    → again < late + ttl
    → (run_calls json
        (takeover key mine yours ttl status headers body start taken late again)
        server).0
      ≡ granted
        ∷ granted
        ∷ finished
        ∷ conflict (completed yours status (λ name. lookup name headers) body)
        ∷ []
late_completion_takes_over json laws key mine yours ttl status headers body start taken late again
      server ledger servable stores free over before soon =
    let calls = takeover key mine yours ttl status headers body start taken late again in
    let (answered, after) =
      calls-Refine json laws false (λ set. cc) calls server ledger servable stores in
    answered
    ∙ contract_takes_over key mine yours ttl status headers body start taken late again ledger free
        over before soon
