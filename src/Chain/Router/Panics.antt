-- ===== src/Chain/Router/Panics.antt =====
-- router.go: a panic beneath the recovery, in what the client is sent and in what is recorded.
use internal_developer_platf.Shared.{
  ℕ, ◌+◌, String, ◌≡◌, refl, ◌∙◌, ap, ap₂, none, List, [], ◌∷◌, ◌++◌, arith,
}
use internal_developer_platf.Http.{
  Request, ErrorResponse, WriterOp, Writer, Ending, returned, panicked, set_header, write_header,
  write, apply_op, apply_ops, write_to, write_header_to, final_response, sendable, header_get,
  respond_with_error, err_code_internal_error,
}
use internal_developer_platf.Chain.{http_request, panic_recovered, Telemetry, Served, Handler}
use internal_developer_platf.Chain.Layers.{recorded_status, recover_panic}
use internal_developer_platf.Chain.Router.{Surroundings, router_chain}
use internal_developer_platf.Chain.Router.Whole.{IsLogged, route_of, duration_of}
use internal_developer_platf.Chain.Router.Promises.{
  IsQuiet, beneath, panic_lines, request-IsObserved, answered,
}

recorded_status-append :
    (status : ℕ) (ops more : List WriterOp)
    → recorded_status status (ops ++ more) ≡ recorded_status (recorded_status status ops) more
unfolding recorded_status
recorded_status-append status [] more = refl
recorded_status-append status (write_header code ∷ ops) more = recorded_status-append code ops more
recorded_status-append status (set_header name value ∷ ops) more =
    recorded_status-append status ops more
recorded_status-append status (write bytes ∷ ops) more = recorded_status-append status ops more

-- What the recovery writes after a panic.
abbrev pub panic_answer : (ErrorResponse → List ℕ) → Served → List WriterOp
panic_answer encode s = respond_with_error encode 500 (record {
  code = err_code_internal_error;
  message = "An unexpected error occurred";
  request_id = header_get "X-Request-Id" s.request.header;
  details = [];
})

recover_panic-ops :
    (encode : ErrorResponse → List ℕ) (s : Served) (e : Ending) (value : String)
    → e ≡ panicked value
    → (recover_panic encode s e).ops ≡ s.ops ++ panic_answer encode s
unfolding recover_panic
recover_panic-ops encode s returned value panics = cc
recover_panic-ops encode s (panicked v) value panics = refl

recorded_status-error :
    (status : ℕ) (encode : ErrorResponse → List ℕ) (s : Served)
    → recorded_status status (panic_answer encode s) ≡ 500
unfolding recorded_status respond_with_error
recorded_status-error status encode s = refl

pub apply_ops-append :
    (w : Writer) (ops more : List WriterOp)
    → apply_ops w (ops ++ more) ≡ apply_ops (apply_ops w ops) more
unfolding apply_ops
apply_ops-append w [] more = refl
apply_ops-append w (op ∷ ops) more = apply_ops-append (apply_op w op) ops more

-- An error response to a client that has been sent nothing.
first_error :
    (w : Writer) (encode : ErrorResponse → List ℕ) (e : ErrorResponse)
    → w.sent ≡ none
    → ((final_response (apply_ops w (respond_with_error encode 500 e))).status ≡ 500)
      × ((apply_ops w (respond_with_error encode 500 e)).body ≡ w.body ++ encode e)
unfolding apply_ops apply_op write_to write_header_to respond_with_error final_response sendable
first_error w encode e fresh = ground arith

panic_lines-panicked :
    (s : Served) (e : Ending) (value : String)
    → e ≡ panicked value
    → panic_lines s e
      ≡ panic_recovered value s.request.method s.request.path
          (header_get "X-Request-Id" s.request.header)
        ∷ []
unfolding panic_lines
panic_lines-panicked s returned value panics = cc
panic_lines-panicked s (panicked v) value panics = cc

-- What is recorded of a request whose handler panics: a duration with the status 500, a line of the
-- recovery with the panic's value, and the access line with the status 500.
pub record IsPanicRecorded (t : Telemetry) (value : String) (inner served : Served) : Type 0 where
  pub durations :
      served.telemetry.durations ≡ t.durations ++ record (duration_of served) { status = 500 } ∷ []
  pub logs :
      served.telemetry.logs
      ≡ (t.logs
          ++ panic_recovered value inner.request.method inner.request.path
              (header_get "X-Request-Id" inner.request.header)
            ∷ [])
        ++ http_request served.request.method
            (route_of served)
            500
            (header_get "X-Request-Id" served.request.header)
          ∷ []

module _ (env : Surroundings) (origins : List String) (mux : Handler) (quiet : IsQuiet mux)
    (request : Request) (t : Telemetry) (logged : IsLogged request) (value : String) where
  pub panic_ops :
      let inner = beneath env origins mux request (record t { entered = t.entered + 1 }) in
      inner.ending ≡ panicked value
      → (router_chain env origins mux request t).ops ≡ inner.ops ++ panic_answer env.encode inner
  panic_ops panics =
      (answered env origins mux quiet request t logged).0
      ∙ recover_panic-ops env.encode _ _ value panics

  pub panic_recorded :
      let inner = beneath env origins mux request (record t { entered = t.entered + 1 }) in
      inner.ending ≡ panicked value
      → IsPanicRecorded t value inner (router_chain env origins mux request t)
  panic_recorded panics =
      let inner = beneath env origins mux request (record t { entered = t.entered + 1 }) in
      let served = router_chain env origins mux request t in
      let observed = request-IsObserved env origins mux quiet request t logged in
      let status : recorded_status 200 served.ops ≡ 500 =
        ap (recorded_status 200) (panic_ops panics)
        ∙ recorded_status-append 200 inner.ops (panic_answer env.encode inner)
        ∙ recorded_status-error (recorded_status 200 inner.ops) env.encode inner in
      record {
        durations =
            observed.durations
            ∙ ap (λ n. t.durations ++ record (duration_of served) { status = n } ∷ []) status;
        logs =
            observed.logs
            ∙ ap₂
                (λ lines n.
                  (t.logs ++ lines)
                  ++ http_request served.request.method (route_of served) n
                      (header_get "X-Request-Id" served.request.header)
                    ∷ [])
                (panic_lines-panicked inner inner.ending value panics) status;
      }

  -- Where the layers beneath the recovery panic, on a request that is neither a scrape nor a health
  -- probe, and have begun no response, the client is sent the status 500 with the bytes of an
  -- internal error; the duration and the access line of the request have the status 500, a line
  -- before that one has the panic's value, and the panic ends there.
  pub panic_answered :
      (w : Writer)
      → let inner = beneath env origins mux request (record t { entered = t.entered + 1 }) in
        inner.ending ≡ panicked value
        → (apply_ops w inner.ops).sent ≡ none
        → let served = router_chain env origins mux request t in
          ((final_response (apply_ops w served.ops)).status ≡ 500)
          × ((apply_ops w served.ops).body
              ≡ (apply_ops w inner.ops).body
                ++ env.encode (record {
                  code = err_code_internal_error;
                  message = "An unexpected error occurred";
                  request_id = header_get "X-Request-Id" inner.request.header;
                  details = [];
                }))
          × IsPanicRecorded t value inner served
          × (served.ending ≡ returned)
  panic_answered w panics fresh =
      let inner = beneath env origins mux request (record t { entered = t.entered + 1 }) in
      let split =
        ap (apply_ops w) (panic_ops panics)
        ∙ apply_ops-append w inner.ops (panic_answer env.encode inner) in
      let (status, body) = first_error (apply_ops w inner.ops) env.encode _ fresh in
      (
        ap (λ (v : Writer). (final_response v).status) split ∙ status,
        ap (λ (v : Writer). v.body) split ∙ body,
        panic_recorded panics,
        (answered env origins mux quiet request t logged).1,
      )
