-- ===== src/Config/Tests.antt =====
-- The theorems on the configuration, at concrete texts.
use internal_developer_platf.Config.Settings.{Parsers, defaults, new_config}
use internal_developer_platf.Shared.{ℕ, String, none, str_eq, if◌then◌else◌, ◌≡◌, refl, [], ◌∷◌}
use internal_developer_platf.Text.{Text, codes, text_eq, trim, trim_left, trim_right}
use internal_developer_platf.Config.{
  get_env_or_default, split_string, split_from, starts_with, split_and_trim, get_slice_env,
  trim_space_bytes, is_blank,
}

two_origins :
    get_slice_env (codes " https://a,, https://b ") (codes "*" ∷ [])
    ≡ codes "https://a" ∷ codes "https://b" ∷ []
unfolding get_slice_env split_and_trim split_string split_from starts_with text_eq trim_space_bytes
    is_blank trim trim_left trim_right
two_origins = refl

-- An environment that sets only the port; seconds stand for themselves.
abbrev port_only : String → Text
port_only key = if str_eq key "PORT" then codes "9090" else []

abbrev parsers : Parsers ℕ ℕ
parsers = record {
  duration = λ value. none;
  int = λ value. none;
  bool = λ value. none;
  seconds = λ n. n;
  zero_int = 0;
}

port_read : (new_config parsers port_only []).server.port ≡ codes "9090"
unfolding new_config defaults get_env_or_default text_eq
port_read = refl
