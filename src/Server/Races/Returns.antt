-- ===== src/Server/Races/Returns.antt =====
-- server.go: what Start returns, in any order of what happens.
use internal_developer_platf.Shared.{◌≡◌, true, Option, none, some, Result}
use internal_developer_platf.Startup.{WrappedError}
use internal_developer_platf.Server.{Stop, server_failed, signalled, cancelled, server_start}
use internal_developer_platf.Server.Races.{Listened, listen_failed, sent_error, Starting}

-- ListenAndServe has returned this error, a signal has arrived, or the context is done.
unfoldable pub Happened : Stop → Starting → Type 0
Happened (server_failed e) s = s.listened ≡ some (listen_failed e)
Happened signalled s = s.quit ≡ true
Happened cancelled s = s.ended ≡ true

-- What was sent on the channel, for what ListenAndServe has returned.
abbrev failure_of : Option Listened → Option WrappedError
failure_of none = none
failure_of (some l) = sent_error l

-- The channel has the error of the listening, and Start has returned, if at all, for something that
-- has happened.
record IsExplained (answer : Result WrappedError (Unit {0})) (s : Starting) : Type 0 where
  channel : s.server_errors ≡ failure_of s.listened
  explained :
      (r : Result WrappedError (Unit {0}))
      → s.returned ≡ some r
      → (stop : Stop) × Happened stop s × (r ≡ server_start answer stop)
