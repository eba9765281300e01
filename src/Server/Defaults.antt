-- ===== src/Server/Defaults.antt =====
-- server.go and config.go: the defaults of the server, which both files name.
use internal_developer_platf.Shared.{◌≡◌, refl, []}
use internal_developer_platf.Text.{text_eq}
use internal_developer_platf.Config.{get_env_or_default, get_parsed_env}
use internal_developer_platf.Config.Settings.{Parsers, defaults, new_config}
use internal_developer_platf.Server.{default_config}

-- The server's own defaults are those of NewConfig where nothing is set in the environment.
pub default_config-new_config :
    {D N : Type 0} (parsers : Parsers D N)
    → default_config parsers.seconds ≡ (new_config parsers (λ key. []) []).server
unfolding default_config new_config defaults get_env_or_default get_parsed_env text_eq
default_config-new_config parsers = refl
