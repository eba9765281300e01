-- ===== src/Server/Races.antt =====
-- server.go: Start, whose goroutine listens while its select waits, in any order of what happens.
pub mod Returns
use internal_developer_platf.Shared.{◌≡◌, refl, Bool, true, false, Option, none, some, Result}
use internal_developer_platf.Startup.{WrappedError}
use internal_developer_platf.Server.{Stop, server_failed, signalled, cancelled, server_start}

-- What ListenAndServe returns: http.ErrServerClosed, or another error.
pub data Listened : Type 0 where
  server_closed : Listened
  listen_failed : WrappedError → Listened

-- What the goroutine sends on serverErrors.
unfoldable pub sent_error : Listened → Option WrappedError
sent_error server_closed = none
sent_error (listen_failed e) = some e

-- Start under way: what ListenAndServe has returned, what was sent on serverErrors, whether a signal
-- was delivered to quit and whether the context is done, and what Start has returned. It receives
-- from one channel, once.
pub record Starting : Type 0 where
  pub listened : Option Listened
  pub server_errors : Option WrappedError
  pub quit : Bool
  pub ended : Bool
  pub returned : Option (Result WrappedError (Unit {0}))

abbrev pub started : Starting
started = record {
  listened = none;
  server_errors = none;
  quit = false;
  ended = false;
  returned = none;
}

-- A case of the select can be taken.
unfoldable pub CanReceive : Stop → Starting → Type 0
CanReceive (server_failed e) s = s.server_errors ≡ some e
CanReceive signalled s = s.quit ≡ true
CanReceive cancelled s = s.ended ≡ true

-- The case is taken, and Start returns; `answer` is what http.Server.Shutdown returns.
unfoldable pub receive : Result WrappedError (Unit {0}) → Stop → Starting → Starting
receive answer stop s = record s { returned = some (server_start answer stop) }

unfoldable pub listen_returns : Listened → Starting → Starting
unfolding sent_error
listen_returns l s = record s { listened = some l; server_errors = sent_error l }

pub data StartStep (answer : Result WrappedError (Unit {0})) : Starting → Starting → Type 0 where
  listening_ends :
      (l : Listened) (s : Starting) → s.listened ≡ none → StartStep answer s (listen_returns l s)
  signal_arrives : (s : Starting) → StartStep answer s (record s { quit = true })
  context_ends : (s : Starting) → StartStep answer s (record s { ended = true })
  select_takes :
      (stop : Stop) (s : Starting)
      → s.returned ≡ none
      → CanReceive stop s
      → StartStep answer s (receive answer stop s)

pub data StartReach (answer : Result WrappedError (Unit {0})) : Starting → Type 0 where
  at_start : StartReach answer started
  after_step :
      {s later : Starting}
      → StartReach answer s
      → StartStep answer s later
      → StartReach answer later
