-- ===== src/Idempotency/Recorder/Mirror.antt =====
-- idempotency_middleware.go: the copy that responseRecorder keeps, against the writer that it
-- writes through to.
use internal_developer_platf.Shared.{
  ℕ, ◌≡◌, refl, sym, ap, ◌∙◌, Bool, true, false, Option, none, some, List, [], ◌∷◌, ◌++◌, arith,
}
use internal_developer_platf.Http.{
  Writer, Sent, WriterOp, set_header, write_header, write, apply_op, apply_ops, is_informational,
  final_response, sendable,
}
use internal_developer_platf.Idempotency.Recorder.{
  ResponseRecorder, new_response_recorder, record_op, record_ops,
}

sendable-append :
    (status : ℕ) (a b : List ℕ) → sendable status (a ++ b) ≡ sendable status a ++ sendable status b
unfolding sendable
sendable-append status a b = ground arith

sendable-nil : (status : ℕ) → sendable status [] ≡ []
unfolding sendable
sendable-nil status = ground arith

-- The status that a recorder in this state stands for.
abbrev SentAs : Bool → ℕ → Option Sent → Type 0
SentAs false status none = status ≡ 200
SentAs true status (some sent) = sent.status ≡ status
SentAs _ _ _ = ⊥

pub record Mirrors (r : ResponseRecorder) : Type 0 where
  pub body : r.writer.body ≡ sendable r.status r.body
  pub empty : r.wrote_header ≡ false → r.body ≡ []
  pub sent : SentAs r.wrote_header r.status r.writer.sent

-- Operations with no informational status.
abbrev pub IsFinal : WriterOp → Type 0
IsFinal (write_header status) = is_informational status ≡ false
IsFinal _ = Unit

abbrev pub AllFinal : List WriterOp → Type 0
AllFinal [] = Unit
AllFinal (op ∷ ops) = IsFinal op × AllFinal ops

record_op-Mirrors :
    (r : ResponseRecorder) (op : WriterOp)
    → IsFinal op
    → Mirrors r
    → Mirrors (record_op r op) × ((record_op r op).writer ≡ apply_op r.writer op)
unfolding record_op apply_op
record_op-Mirrors r (set_header name value) h m = ground arith
record_op-Mirrors r (write_header status) h m = ground arith
record_op-Mirrors r (write bytes) h m = ground arith

record_ops-Mirrors :
    (r : ResponseRecorder) (ops : List WriterOp)
    → AllFinal ops
    → Mirrors r
    → Mirrors (record_ops r ops) × ((record_ops r ops).writer ≡ apply_ops r.writer ops)
unfolding record_ops apply_ops
record_ops-Mirrors r [] h m = (m, refl)
record_ops-Mirrors r (op ∷ ops) (h, hs) m =
    let (kept, through) = record_op-Mirrors r op h m in
    let (mirrors, written) = record_ops-Mirrors (record_op r op) ops hs kept in
    (mirrors, written ∙ ap (λ w. apply_ops w ops) through)

Mirrors-new : (w : Writer) → w.sent ≡ none → w.body ≡ [] → Mirrors (new_response_recorder w)
unfolding new_response_recorder
Mirrors-new w sent body = ground (arith, sendable-nil 200)

status-Mirrors : (r : ResponseRecorder) → Mirrors r → (final_response r.writer).status ≡ r.status
unfolding final_response
status-Mirrors r m = ground arith

-- Whatever a handler writes, with no informational status, through the recorder made for a writer
-- that has sent nothing, the writer ends as if the handler had had it to itself, and the recorder
-- has the status that the client is sent, and the body, of which the client is sent nothing where
-- the status allows none, as 204 and 304.
pub record_ops-transparent :
    (w : Writer) (ops : List WriterOp)
    → w.sent ≡ none
    → w.body ≡ []
    → AllFinal ops
    → ((record_ops (new_response_recorder w) ops).writer ≡ apply_ops w ops)
      × ((record_ops (new_response_recorder w) ops).status
          ≡ (final_response (apply_ops w ops)).status)
      × ((apply_ops w ops).body
          ≡ sendable
              (record_ops (new_response_recorder w) ops).status
              (record_ops (new_response_recorder w) ops).body)
unfolding new_response_recorder
record_ops-transparent w ops sent body final =
    let r = record_ops (new_response_recorder w) ops in
    let (mirrors, written) =
      record_ops-Mirrors (new_response_recorder w) ops final (Mirrors-new w sent body) in
    (
      written,
      sym (status-Mirrors r mirrors) ∙ ap (λ v. (final_response v).status) written,
      ap (λ v. v.body) (sym written) ∙ mirrors.body,
    )
