-- ===== src/Chain/Router/Promises.antt =====
-- router.go: what NewRouterWithConfig's chain promises of every request, whatever its routes do.
use internal_developer_platf.Shared.{
  ℕ, ◌+◌, String, ◌≡◌, refl, ap, not, ◌&&◌, List, [], ◌∷◌, ◌++◌, append-nil, sym, Bool-cases, inl,
  inr, str_eq, if◌then◌else◌,
}
use internal_developer_platf.Http.{
  Request, ErrorResponse, WriterOp, Ending, returned, panicked, header_get,
}
use internal_developer_platf.Chain.{
  LogLine, panic_recovered, Telemetry, Served, Handler, chain_middleware, after_ops,
}
use internal_developer_platf.Chain.Layers.{
  recovery_middleware, recover_panic, request_context_middleware, standard_headers_middleware,
  cors_middleware, cors_headers, is_allowed,
}
use internal_developer_platf.Chain.Router.{Surroundings, router_chain}
use internal_developer_platf.Chain.Router.Whole.{
  IsLogged, IsObserved, outer-IsObserved, outer_ops, outer_ending,
}

-- A mux and its handlers write no telemetry of their own.
abbrev pub IsQuiet : Handler → Type 0
IsQuiet mux = (request : Request) (t : Telemetry) → (mux request t).telemetry ≡ t

-- The layers beneath the recovery.
abbrev pub beneath : Surroundings → List String → Handler → Handler
beneath env allowed_origins mux = request_context_middleware env.start_time (
    standard_headers_middleware env.new_uuid env.response_time
      (cors_middleware allowed_origins mux))

-- What the recovery logs.
unfoldable pub panic_lines : Served → Ending → List LogLine
panic_lines served returned = []
panic_lines served (panicked value) =
    panic_recovered value served.request.method served.request.path
      (header_get "X-Request-Id" served.request.header)
    ∷ []

beneath-IsQuiet :
    (env : Surroundings) (origins : List String) (mux : Handler)
    → IsQuiet mux
    → IsQuiet (beneath env origins mux)
unfolding request_context_middleware standard_headers_middleware cors_middleware after_ops
beneath-IsQuiet env origins mux quiet request t =
    elim (Bool-cases (str_eq request.method "OPTIONS")) [
      | inl preflight ↦ rw preflight
      | inr other ↦ rw other (quiet _ t)
    ]

recover_panic-ending :
    (encode : ErrorResponse → List ℕ) (s : Served) (e : Ending)
    → e ≡ s.ending
    → (recover_panic encode s e).ending ≡ returned
unfolding recover_panic
recover_panic-ending encode s returned same = cc
recover_panic-ending encode s (panicked value) same = refl

recover_panic-telemetry :
    (encode : ErrorResponse → List ℕ) (s : Served) (e : Ending) (t : Telemetry)
    → s.telemetry ≡ t
    → (recover_panic encode s e).telemetry ≡ record t { logs = t.logs ++ panic_lines s e }
unfolding recover_panic panic_lines
recover_panic-telemetry encode s returned t quiet =
    rw quiet (ap (λ l. record t { logs = l }) (sym (append-nil t.logs)))
recover_panic-telemetry encode s (panicked value) t quiet = rw quiet refl

-- CORSMiddleware's headers for the request's origin.
unfoldable pub allowed_headers : List String → Request → List WriterOp
allowed_headers origins request =
    let origin = header_get "Origin" request.header in
    if is_allowed origins origin && not (str_eq origin "") then cors_headers origin else []

pub recover_panic-returned :
    (encode : ErrorResponse → List ℕ) (s : Served) (e : Ending)
    → e ≡ returned
    → (recover_panic encode s e).ops ≡ s.ops
unfolding recover_panic
recover_panic-returned encode s returned ends = refl
recover_panic-returned encode s (panicked v) ends = cc

module _ (env : Surroundings) (origins : List String) (mux : Handler) (quiet : IsQuiet mux)
    (request : Request) (t : Telemetry) (logged : IsLogged request) where
  -- A request that is neither a scrape nor a health probe leaves the chain without a panic, and is
  -- counted in and out once, with one duration and one access line; the recovery adds a line where
  -- the layers beneath it panic, and none otherwise.
  pub request-IsObserved :
      let inner = beneath env origins mux request (record t { entered = t.entered + 1 }) in
      IsObserved t (panic_lines inner inner.ending) (router_chain env origins mux request t)
  unfolding router_chain chain_middleware recovery_middleware
  request-IsObserved =
      let t₁ : Telemetry = record t { entered = t.entered + 1 } in
      let inner = beneath env origins mux request t₁ in
      outer-IsObserved (recovery_middleware env.encode (beneath env origins mux)) request t logged
        (recover_panic-ending env.encode inner inner.ending refl) (panic_lines inner inner.ending)
        (recover_panic-telemetry env.encode inner inner.ending t₁
          (beneath-IsQuiet env origins mux quiet request t₁))

  pub answered :
      let inner = beneath env origins mux request (record t { entered = t.entered + 1 }) in
      let served = router_chain env origins mux request t in
      (served.ops ≡ (recover_panic env.encode inner inner.ending).ops) × (served.ending ≡ returned)
  unfolding router_chain chain_middleware recovery_middleware
  answered =
      let inner = beneath env origins mux request (record t { entered = t.entered + 1 }) in
      let ends = recover_panic-ending env.encode inner inner.ending refl in
      let recovered = recovery_middleware env.encode (beneath env origins mux) in
      (outer_ops recovered request t logged ends, outer_ending recovered request t logged ends)
