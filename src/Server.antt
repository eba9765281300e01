-- ===== src/Server.antt =====
-- services/api: internal/server/server.go and cmd/server/main.go. What they log is left out.
pub mod Races
pub mod Exits
pub mod Defaults
mod Tests
use internal_developer_platf.Shared.{
  ℕ, String, Bool, true, false, List, [], ◌∷◌, ◌++◌, Result, ok, err, if◌then◌else◌,
}
use internal_developer_platf.Text.{Text, codes}
use internal_developer_platf.Config.Settings.{Config, ServerConfig, validate}
use internal_developer_platf.Startup.{
  WrappedError, wrap_error, wrapped_error, Part, Event, Run, did, events, result,
}
use internal_developer_platf.Bootstrap.{Application, Libraries, new_application}
use internal_developer_platf.Bootstrap.Shutdown.{shutdown}

-- DefaultConfig of the server, over the duration of so many seconds.
unfoldable pub default_config : {D : Type 0} → (ℕ → D) → ServerConfig D
default_config seconds = record {
  port = codes "8080";
  read_timeout = seconds 15;
  write_timeout = seconds 15;
  idle_timeout = seconds 60;
  shutdown_timeout = seconds 30;
}

-- The http.Server that New makes.
pub record HttpServer (D : Type 0) : Type 0 where
  pub addr : Text
  pub read_timeout : D
  pub write_timeout : D
  pub idle_timeout : D

-- New of the server.
unfoldable pub new_server : {D : Type 0} → ServerConfig D → HttpServer D
new_server config = record {
  addr = codes ":" ++ config.port;
  read_timeout = config.read_timeout;
  write_timeout = config.write_timeout;
  idle_timeout = config.idle_timeout;
}

-- What the select of Start receives first: an error of ListenAndServe other than ErrServerClosed, a
-- signal, or the end of the context.
pub data Stop : Type 0 where
  server_failed : WrappedError → Stop
  signalled cancelled : Stop

-- Server.Shutdown, where `answer` is what http.Server.Shutdown returns.
unfoldable pub server_shutdown : Result WrappedError (Unit {0}) → Result WrappedError (Unit {0})
server_shutdown answer = wrap_error (codes "server shutdown error") answer

-- Server.Start, and Run of the application.
unfoldable pub server_start : Result WrappedError (Unit {0}) → Stop → Result WrappedError (Unit {0})
server_start answer (server_failed e) = err (wrapped_error (codes "server error") e)
server_start answer signalled = server_shutdown answer
server_start answer cancelled = server_shutdown answer

-- The end of a process: what it opened and closed, and its exit code.
pub record Exit : Type 0 where
  pub events : List Event
  pub code : ℕ

abbrev pub is_ok : {E A : Type 0} → Result E A → Bool
is_ok (ok a) = true
is_ok (err e) = false

-- DefaultOptions
abbrev pub default_swagger_path : Text
default_swagger_path = codes "./docs/swagger.yaml"

-- The end of main, once Run has returned: Shutdown in either case.
after_run : Result WrappedError (Unit {0}) → Run (Unit {0}) → Exit
after_run (err e) stopped = record { events = events stopped; code = 1 }
after_run (ok u) stopped = record {
  events = events stopped;
  code = if is_ok (result stopped) then 0 else 1;
}

module _ {D N : Type 0} (libraries : Libraries D N) (close : Part → Result WrappedError (Unit {0}))
    (answer : Result WrappedError (Unit {0})) (stop : Stop) where
  serve : List Event → Result WrappedError (Application D N) → Exit
  serve es (err e) = record { events = es; code = 1 }
  serve es (ok app) =
      let stopped = after_run (server_start answer stop) (shutdown close app) in
      record { events = es ++ stopped.events; code = stopped.code }

  start_valid : Config D N → Result String (Unit {0}) → Exit
  start_valid cfg (err e) = record { events = []; code = 1 }
  start_valid cfg (ok u) =
      let started = new_application libraries cfg default_swagger_path in
      serve (events started) (result started)

  -- main, where `stop` is what ends Start and `answer` what http.Server.Shutdown returns.
  pub api_main : Config D N → Exit
  api_main cfg = start_valid cfg (validate cfg)
