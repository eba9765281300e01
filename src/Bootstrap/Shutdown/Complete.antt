-- ===== src/Bootstrap/Shutdown/Complete.antt =====
-- application.go: what New opens, Shutdown closes.
use internal_developer_platf.Shared.{
  ◌≡◌, refl, sym, ap, ◌∙◌, List, [], ◌∷◌, ◌++◌, Result, ok, err, arith,
}
use internal_developer_platf.Text.{Text}
use internal_developer_platf.Config.Settings.{Config}
use internal_developer_platf.Startup.{
  WrappedError, Part, Event, opened, closed, warned, events, result, without, still_open,
  still_open-append,
}
use internal_developer_platf.Bootstrap.{Application, Libraries, new_application}
use internal_developer_platf.Bootstrap.Shutdown.{held_parts, warn_if, close_all, shutdown}
use internal_developer_platf.Bootstrap.Shutdown.Balance.{AllTelemetry, Balanced, IsWired}
use internal_developer_platf.Bootstrap.Shutdown.Steps.{new_application-Keeps}

-- The parts that are closed, in order.
abbrev pub closings : List Event → List Part
closings [] = []
closings (opened p ∷ es) = closings es
closings (closed p ∷ es) = p ∷ closings es
closings (warned p ∷ es) = closings es

module _ {D N : Type 0} (libraries : Libraries D N) (cfg : Config D N) (swagger_path : Text) where
  kept_at :
      (r : Result WrappedError (Application D N))
      → result (new_application libraries cfg swagger_path) ≡ r
      → Balanced IsWired [] (events (new_application libraries cfg swagger_path)) r
  kept_at r e = rw e at (new_application-Keeps libraries cfg swagger_path).balanced

  -- Where New returns an error, what it leaves open, with no application to shut it down, is
  -- telemetry at most: no Redis client and no publisher.
  pub failed_start_leaves_telemetry :
      (e : WrappedError)
      → result (new_application libraries cfg swagger_path) ≡ err e
      → AllTelemetry (still_open [] (events (new_application libraries cfg swagger_path)))
  failed_start_leaves_telemetry e = kept_at (err e)

module _ (close : Part → Result WrappedError (Unit {0})) where
  closings-warn_if :
      (p : Part) (r : Result WrappedError (Unit {0})) (es : List Event)
      → closings (warn_if p r ++ es) ≡ closings es
  unfolding warn_if
  closings-warn_if p (ok u) es = refl
  closings-warn_if p (err e) es = refl

  closings-close_all : (parts : List Part) → closings (close_all close parts) ≡ parts
  unfolding close_all
  closings-close_all [] = refl
  closings-close_all (p ∷ parts) =
      ap (λ ps. p ∷ ps)
        (closings-warn_if p (close p) (close_all close parts) ∙ closings-close_all parts)

  still_open-warn_if :
      (held : List Part) (p : Part) (r : Result WrappedError (Unit {0})) (es : List Event)
      → still_open held (warn_if p r ++ es) ≡ still_open held es
  unfolding warn_if still_open
  still_open-warn_if held p (ok u) es = refl
  still_open-warn_if held p (err e) es = refl

  still_open-close_all : (parts : List Part) → still_open parts (close_all close parts) ≡ []
  unfolding close_all still_open without
  still_open-close_all [] = refl
  still_open-close_all (p ∷ parts) =
      ap (λ held. still_open held (warn_if p (close p) ++ close_all close parts)) (ground arith)
      ∙ still_open-warn_if parts p (close p) (close_all close parts)
      ∙ still_open-close_all parts

  module _ {D N : Type 0} (libraries : Libraries D N) (cfg : Config D N) (swagger_path : Text) where
    -- Where New returns an application, Shutdown, whatever the parts' own closing returns, closes
    -- exactly the parts that New has opened and not closed, the last opened first, returns no error
    -- and leaves nothing open. The application has an idempotency store exactly where it has a Redis
    -- client, its service publishes with the publisher that Shutdown closes, and its server is that
    -- of its configuration and store.
    pub shutdown_complete :
        (app : Application D N)
        → let started = new_application libraries cfg swagger_path in
          let stopped = shutdown close app in
          result started ≡ ok app
          → (closings (events stopped) ≡ still_open [] (events started))
            × (still_open [] (events started ++ events stopped) ≡ [])
            × (result stopped ≡ ok tt)
            × IsWired app
    unfolding shutdown
    shutdown_complete app e =
        let kept = kept_at libraries cfg swagger_path (ok app) e in
        let started = events (new_application libraries cfg swagger_path) in
        (
          closings-close_all (held_parts app) ∙ sym kept.0,
          still_open-append [] started (close_all close (held_parts app))
              ∙ rw kept.0 (still_open-close_all (held_parts app)),
          refl,
          kept.1,
        )
