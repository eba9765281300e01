-- ===== src/Server/Tests.antt =====
-- Runs of the API's process: Redis does not close, and the server fails.
use internal_developer_platf.Shared.{true}
use internal_developer_platf.Bootstrap.Examples.{no_answer}
use internal_developer_platf.Server.Races.{listen_failed, Starting, started, listen_returns}

-- The port is taken, and a signal arrives before the select has run.
abbrev refused : Starting
refused = listen_returns (listen_failed no_answer) started

abbrev both : Starting
both = record refused { quit = true }
