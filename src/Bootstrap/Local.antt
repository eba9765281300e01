-- ===== src/Bootstrap/Local.antt =====
-- application.go: New in local mode.
use internal_developer_platf.Shared.{◌≡◌, refl, true, false, arith}
use internal_developer_platf.Text.{Text}
use internal_developer_platf.Config.Settings.{Config}
use internal_developer_platf.Startup.{pure, pure_bind, ◌>>=◌}
use internal_developer_platf.Telemetry.{new_metrics}
use internal_developer_platf.Bootstrap.{
  Libraries, is_local_mode, otlp_enabled, empty_application, start_logs, start_tracing,
  initialize_metrics, initialize_local, in_context, new_application,
}

module _ {D N : Type 0} (cfg : Config D N) (local : is_local_mode cfg ≡ true) where
  no_export : otlp_enabled cfg ≡ false
  unfolding otlp_enabled
  no_export = rw local (ground arith)

  module _ (libraries : Libraries D N) where
    logs_off : start_logs libraries (empty_application cfg) ≡ pure (empty_application cfg)
    unfolding start_logs empty_application
    logs_off = rw no_export refl

    tracing_off : start_tracing libraries (empty_application cfg) ≡ pure (empty_application cfg)
    unfolding start_tracing empty_application
    tracing_off = rw no_export refl

    local_start :
        (swagger_path : Text)
        → new_application libraries cfg swagger_path ≡ (
            in_context "failed to initialize metrics"
              (initialize_metrics libraries (empty_application cfg))
            >>= initialize_local swagger_path)
    unfolding new_application
    local_start swagger_path =
        rw
          (
            logs_off,
            pure_bind (empty_application cfg) _,
            tracing_off,
            pure_bind (empty_application cfg) _,
            local,
          )
          refl

  -- In local mode New depends on nothing outside but the metrics provider: two sets of libraries
  -- that agree on it give the same run, whatever AWS, the Parameter Store, Redis and the exporters
  -- of logs and traces answer.
  pub local_needs_no_cloud :
      (one other : Libraries D N) (swagger_path : Text)
      → new_metrics one.exporters cfg.app ≡ new_metrics other.exporters cfg.app
      → new_application one cfg swagger_path ≡ new_application other cfg swagger_path
  unfolding initialize_metrics empty_application
  local_needs_no_cloud one other swagger_path same =
      rw (local_start one swagger_path, local_start other swagger_path, same) refl
