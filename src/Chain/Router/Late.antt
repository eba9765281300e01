-- ===== src/Chain/Router/Late.antt =====
-- metrics_middleware.go and middleware.go: the status that is logged against the one that is sent.
use internal_developer_platf.Shared.{
  ℕ, ◌+◌, String, ◌≡◌, refl, sym, ◌∙◌, ap, false, none, some, List, [], ◌∷◌, ◌++◌, arith,
}
use internal_developer_platf.Http.{
  Request, ErrorResponse, WriterOp, Writer, Sent, returned, panicked, set_header, write_header,
  write, apply_op, apply_ops, final_response, is_informational, sendable, respond_with_error,
  write_to, write_header_to, header_get, err_code_internal_error,
}
use internal_developer_platf.Chain.{Telemetry, Handler}
use internal_developer_platf.Chain.Layers.{recorded_status}
use internal_developer_platf.Chain.Router.{Surroundings, router_chain}
use internal_developer_platf.Chain.Router.Whole.{IsLogged}
use internal_developer_platf.Chain.Router.Promises.{
  IsQuiet, beneath, recover_panic-returned, answered,
}
use internal_developer_platf.Chain.Router.Panics.{
  IsPanicRecorded, panic_answer, panic_ops, panic_recorded, apply_ops-append,
}

-- No status is written.
abbrev pub HasNoStatus : List WriterOp → Type 0
HasNoStatus [] = Unit
HasNoStatus (set_header name value ∷ ops) = HasNoStatus ops
HasNoStatus (write_header status ∷ ops) = ⊥
HasNoStatus (write bytes ∷ ops) = HasNoStatus ops

-- A status is written at most once, a final one and before the body.
abbrev pub IsOrderly : List WriterOp → Type 0
IsOrderly [] = Unit
IsOrderly (set_header name value ∷ ops) = IsOrderly ops
IsOrderly (write_header status ∷ ops) = (is_informational status ≡ false) × HasNoStatus ops
IsOrderly (write bytes ∷ ops) = HasNoStatus ops

apply_op-sent :
    (w : Writer) (sent : Sent) (op : WriterOp)
    → w.sent ≡ some sent
    → (apply_op w op).sent ≡ some sent
unfolding apply_op write_to write_header_to
apply_op-sent w sent (set_header name value) began = began
apply_op-sent w sent (write_header status) began = ground arith
apply_op-sent w sent (write bytes) began = ground arith

-- What has been sent stays.
apply_ops-sent :
    (w : Writer) (sent : Sent) (ops : List WriterOp)
    → w.sent ≡ some sent
    → (apply_ops w ops).sent ≡ some sent
unfolding apply_ops
apply_ops-sent w sent [] began = began
apply_ops-sent w sent (op ∷ ops) began =
    apply_ops-sent (apply_op w op) sent ops (apply_op-sent w sent op began)

final_response-sent : (w : Writer) (sent : Sent) → w.sent ≡ some sent → final_response w ≡ sent
unfolding final_response
final_response-sent w sent began = ground arith

recorded_status-none :
    (status : ℕ) (ops : List WriterOp) → HasNoStatus ops → recorded_status status ops ≡ status
unfolding recorded_status
recorded_status-none status [] quiet = refl
recorded_status-none status (set_header name value ∷ ops) quiet =
    recorded_status-none status ops quiet
recorded_status-none status (write_header code ∷ ops) quiet = absurd quiet
recorded_status-none status (write bytes ∷ ops) quiet = recorded_status-none status ops quiet

recorded_status-sent :
    (w : Writer) (ops : List WriterOp)
    → w.sent ≡ none
    → IsOrderly ops
    → recorded_status 200 ops ≡ (final_response (apply_ops w ops)).status
unfolding recorded_status apply_ops apply_op final_response write_to write_header_to
recorded_status-sent w [] fresh orderly = ground arith
recorded_status-sent w (set_header name value ∷ ops) fresh orderly =
    recorded_status-sent (apply_op w (set_header name value)) ops fresh orderly
recorded_status-sent w (write_header code ∷ ops) fresh (final, quiet) =
    let sent : Sent = record { status = code; header = w.header } in
    recorded_status-none code ops quiet
    ∙ sym (
        ap (λ (r : Sent). r.status)
          (final_response-sent (apply_ops (apply_op w (write_header code)) ops) sent
            (apply_ops-sent (apply_op w (write_header code)) sent ops (ground arith))))
recorded_status-sent w (write bytes ∷ ops) fresh quiet =
    let sent : Sent = record { status = 200; header = w.header } in
    recorded_status-none 200 ops quiet
    ∙ sym (
        ap (λ (r : Sent). r.status)
          (final_response-sent (apply_ops (apply_op w (write bytes)) ops) sent
            (apply_ops-sent (apply_op w (write bytes)) sent ops (ground arith))))

-- An error response to a client that has been sent a status adds its bytes to the body.
late_error-body :
    (w : Writer) (sent : Sent) (encode : ErrorResponse → List ℕ) (status : ℕ) (e : ErrorResponse)
    → w.sent ≡ some sent
    → (apply_ops w (respond_with_error encode status e)).body
      ≡ w.body ++ sendable sent.status (encode e)
unfolding apply_ops apply_op write_to write_header_to respond_with_error
late_error-body w sent encode status e began = ground arith

module _ (env : Surroundings) (origins : List String) (mux : Handler) (quiet : IsQuiet mux)
    (request : Request) (t : Telemetry) (logged : IsLogged request) (w : Writer) where
  -- A request that is neither a scrape nor a health probe: where the layers beneath the recovery do
  -- not panic, and write a status at most once, a final one and before the body, the status that the
  -- outer layers record is the one that the client is sent.
  pub logged_status_is_sent :
      let inner = beneath env origins mux request (record t { entered = t.entered + 1 }) in
      inner.ending ≡ returned
      → IsOrderly inner.ops
      → w.sent ≡ none
      → let served = router_chain env origins mux request t in
        recorded_status 200 served.ops ≡ (final_response (apply_ops w served.ops)).status
  logged_status_is_sent ends orderly fresh =
      let inner = beneath env origins mux request (record t { entered = t.entered + 1 }) in
      let same =
        (answered env origins mux quiet request t logged).0
        ∙ recover_panic-returned env.encode inner inner.ending ends in
      ap (recorded_status 200) same
      ∙ recorded_status-sent w inner.ops fresh orderly
      ∙ ap (λ ops. (final_response (apply_ops w ops)).status) (sym same)

  -- Where they panic once a response has begun, on such a request, the client keeps the status and
  -- the header that it has been sent and gets, where that status allows a body, the bytes of an
  -- internal error after the body so far, while the duration and the access line of the request have
  -- the status 500.
  pub late_panic_misreported :
      (value : String) (sent : Sent)
      → let inner = beneath env origins mux request (record t { entered = t.entered + 1 }) in
        inner.ending ≡ panicked value
        → (apply_ops w inner.ops).sent ≡ some sent
        → let served = router_chain env origins mux request t in
          (final_response (apply_ops w served.ops) ≡ sent)
          × ((apply_ops w served.ops).body
              ≡ (apply_ops w inner.ops).body
                ++ sendable sent.status (
                    env.encode (record {
                      code = err_code_internal_error;
                      message = "An unexpected error occurred";
                      request_id = header_get "X-Request-Id" inner.request.header;
                      details = [];
                    })))
          × IsPanicRecorded t value inner served
  late_panic_misreported value sent panics began =
      let inner = beneath env origins mux request (record t { entered = t.entered + 1 }) in
      let answer = panic_answer env.encode inner in
      let split =
        ap (apply_ops w) (panic_ops env origins mux quiet request t logged value panics)
        ∙ apply_ops-append w inner.ops answer in
      (
        ap final_response split
            ∙ final_response-sent (apply_ops (apply_ops w inner.ops) answer) sent
                (apply_ops-sent (apply_ops w inner.ops) sent answer began),
        ap (λ (v : Writer). v.body) split
            ∙ late_error-body (apply_ops w inner.ops) sent env.encode 500 _ began,
        panic_recorded env origins mux quiet request t logged value panics,
      )
