-- ===== src/Server/Exits.antt =====
-- cmd/server/main.go: the exit code of the API's process, and what it leaves open.
use internal_developer_platf.Shared.{ℕ, Bool, Result, if◌then◌else◌}
use internal_developer_platf.Config.Settings.{Config}
use internal_developer_platf.Startup.{WrappedError, Part}
use internal_developer_platf.Bootstrap.{Libraries}
use internal_developer_platf.Server.{Stop}

module _ {D N : Type 0} (libraries : Libraries D N) (close : Part → Result WrappedError (Unit {0}))
    (answer : Result WrappedError (Unit {0})) (stop : Stop) where
  abbrev code_for : Bool → ℕ
  code_for good = if good then 0 else 1
