-- ===== src/Idempotency/Tests/Calls.antt =====
-- The contract of the store, at a concrete sequence of calls.
use internal_developer_platf.Shared.{
  Option, ap, true, ◌≡◌, refl, false, none, some, List, [], ◌∷◌, arith,
}
use internal_developer_platf.Idempotency.Record.{TextMap, lookup}
use internal_developer_platf.Idempotency.Redis.{Envelope, spells_in_flight}
use internal_developer_platf.Idempotency.Contract.{
  reserve, complete, release, granted, conflict, finished, completed, standing,
}
use internal_developer_platf.Idempotency.Contract.Represents.{Stores}
use internal_developer_platf.Idempotency.Contract.Calls.{
  IsPlain, QuotesOnly, Timed, run_calls, answer_calls,
}
use internal_developer_platf.Idempotency.Contract.Refines.{calls_refine}
use internal_developer_platf.Idempotency.Hazards.Takeover.{takeover, late_completion_takes_over}
use internal_developer_platf.Idempotency.Tests.{plain, plain-CodecLaws, quoted_in, empty_server}

quoted_in-IsPlain : (headers : TextMap) → IsPlain headers → quoted_in headers ≡ false
unfolding quoted_in
quoted_in-IsPlain [] h = refl
quoted_in-IsPlain ((name, value) ∷ headers) (other, unlike, more) =
    rw (other, unlike) (quoted_in-IsPlain headers more)

kept : Option Envelope → Envelope → Envelope
kept none e = e
kept (some raw) e = raw

plain-QuotesOnly : QuotesOnly plain
unfolding kept
plain-QuotesOnly e raw written state hash headers =
    let same : e ≡ raw = ap (λ o. kept o e) written in
    rw (← same, state, hash) (quoted_in-IsPlain e.headers headers)

-- A key is reserved, reserved again, completed, released in vain, and reserved by a third call after
-- its response has run out.
abbrev calls : List Timed
calls =
    record { now = 1; clock = 1; call = reserve "k1" "full" 10 }
    ∷ record { now = 2; clock = 2; call = reserve "k1" "other" 10 }
    ∷ record { now = 3; clock = 3; call = complete "k1" 202 (("Location", "/x") ∷ []) (5 ∷ []) 10 }
    ∷ record { now = 4; clock = 4; call = release "k1" }
    ∷ record { now = 14; clock = 14; call = reserve "k1" "other" 10 }
    ∷ []

calls_refine_example :
    ((run_calls plain calls empty_server).0 ≡ (answer_calls calls (λ key. none)).0)
    × Stores plain true (run_calls plain calls empty_server).1 (answer_calls calls (λ key. none)).1
unfolding spells_in_flight
calls_refine_example =
    calls_refine plain plain-CodecLaws plain-QuotesOnly calls empty_server (λ key. none)
      (
        (ground arith, omega arith, refl),
        (
          (ground arith, omega arith, refl),
          (
            (ground arith, omega arith, (refl, refl, tt)),
            (refl, ((ground arith, omega arith, refl), tt)),
          ),
        ),
      )
      (λ key. tt)

-- The reservation of a request with the body's hash "full" runs out at 11; another one with the hash
-- "other" takes the key at 12, and the first completes at 15.
late_completion_takes_over_example :
    (run_calls plain
      (takeover "k1" "full" "other" 10 202 (("Location", "/x") ∷ []) (5 ∷ []) 1 12 15 16)
      empty_server).0
    ≡ granted
      ∷ granted
      ∷ finished
      ∷ conflict (completed "other" 202 (λ name. lookup name (("Location", "/x") ∷ [])) (5 ∷ []))
      ∷ []
unfolding standing
late_completion_takes_over_example =
    late_completion_takes_over plain plain-CodecLaws "k1" "full" "other" 10 202
      (("Location", "/x") ∷ []) (5 ∷ []) 1 12 15 16 empty_server (λ key. none)
      (
        (ground arith, omega arith, tt),
        (
          (ground arith, omega arith, tt),
          ((ground arith, omega arith, tt), ((ground arith, omega arith, tt), tt)),
        ),
      )
      (λ key. tt) refl (omega arith) (omega arith) (omega arith)
