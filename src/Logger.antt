-- ===== src/Logger.antt =====
-- services/api/internal/logger/logger.go, and services/provisioner/internal/logger/logger.go, which
-- has the same code: an adapter of the logger logrus.
pub mod Latest
mod Tests
use internal_developer_platf.Shared.{
  String, Bool, true, false, Option, none, some, List, [], ◌∷◌, map, str_eq, if◌then◌else◌,
}

pub record Field (V : Type 0) : Type 0 where
  pub key : String
  pub value : V

-- F
unfoldable pub f : {V : Type 0} → String → V → Field V
f key value = record { key = key; value = value }

-- A Go map from keys to values.
abbrev pub Fields : Type 0 → Type 0
Fields V = String → Option V

-- The levels of the five methods.
pub data Level : Type 0 where
  debug_level info_level warn_level error_level fatal_level : Level

pub data Formatter : Type 0 where
  -- with the format of times, and with the full timestamp
  text_formatter : String → Bool → Formatter
  json_formatter : String → Formatter

-- logrus: entries and what is done with them, loggers and their settings. `V` holds the values of
-- fields, `E` the errors, `Hook` the hooks, `W` the writers, `C` the contexts and `Output` what a
-- call of an entry's method does.
pub record Logrus (V E Hook W C Output : Type 0) : Type 1 where
  pub Entry : Type 0
  pub Settings : Type 0
  pub new : Settings
  pub set_output : W → Settings → Settings
  -- what ParseLevel makes of a text, and SetLevel of that
  pub Parsed : Type 0
  pub parse_level : String → Option Parsed
  pub info : Parsed
  pub set_level : Parsed → Settings → Settings
  pub add_hook : Hook → Settings → Settings
  pub set_formatter : Formatter → Settings → Settings
  pub new_entry : Settings → Entry
  pub with_field : String → V → Entry → Entry
  pub with_fields : Fields V → Entry → Entry
  pub with_error : E → Entry → Entry
  pub with_context : C → Entry → Entry
  pub write : Level → String → Entry → List Output

pub record Config (Hook W : Type 0) : Type 0 where
  pub level : String
  pub format : String
  pub output : Option W
  pub time_format : String
  pub hooks : List Hook

-- DefaultConfig, with os.Stdout.
unfoldable pub default_config : {Hook W : Type 0} → W → Config Hook W
default_config stdout = record {
  level = "info";
  format = "json";
  output = some stdout;
  time_format = "2006-01-02T15:04:05.000Z07:00";
  hooks = [];
}

-- The loop of withFields: the map that it fills.
unfoldable pub collect : {V : Type 0} → Fields V → List (Field V) → Fields V
collect held [] = held
collect held (field ∷ fields) =
    collect (λ k. if str_eq k field.key then some field.value else held k) fields

-- A step of building a logger from another.
pub data Derivation (V E C : Type 0) : Type 0 where
  with_field : String → V → Derivation V E C
  with_fields : Fields V → Derivation V E C
  with_error : E → Derivation V E C
  with_context : C → Derivation V E C

module _ {V E Hook W C Output : Type 0} (logrus : Logrus V E Hook W C Output) where
  -- The implementations of the interface Logger.
  pub data Logger : Type 0 where
    logrus_logger : logrus.Entry → Logger
    nop_logger : Logger

  output_to : Option W → logrus.Settings → logrus.Settings
  output_to none log = log
  output_to (some w) log = logrus.set_output w log

  level_or_info : Option logrus.Parsed → logrus.Parsed
  level_or_info none = logrus.info
  level_or_info (some level) = level

  add_hooks : List Hook → logrus.Settings → logrus.Settings
  add_hooks [] log = log
  add_hooks (h ∷ hooks) log = add_hooks hooks (logrus.add_hook h log)

  unfoldable pub formatter_of : String → String → Formatter
  formatter_of format time_format =
      if str_eq format "text" then text_formatter time_format true else json_formatter time_format

  -- New
  unfoldable pub new_logger : Config Hook W → Logger
  unfolding output_to level_or_info add_hooks formatter_of
  new_logger cfg = logrus_logger (
      logrus.new_entry (
        logrus.set_formatter (formatter_of cfg.format cfg.time_format) (
          add_hooks cfg.hooks (
            logrus.set_level (level_or_info (logrus.parse_level cfg.level))
              (output_to cfg.output logrus.new)))))

  -- NewWithLogrus
  unfoldable pub new_with_logrus : logrus.Entry → Logger
  new_with_logrus entry = logrus_logger entry

  -- withFields
  unfoldable pub entry_with : logrus.Entry → List (Field V) → logrus.Entry
  entry_with entry [] = entry
  entry_with entry (field ∷ fields) =
      logrus.with_fields (collect (λ k. none) (field ∷ fields)) entry

  -- Debug, Info, Warn, Error and Fatal.
  unfoldable pub log : Level → String → List (Field V) → Logger → List Output
  unfolding entry_with
  log level msg fields (logrus_logger entry) = logrus.write level msg (entry_with entry fields)
  log level msg fields nop_logger = []

  derive_entry : Derivation V E C → logrus.Entry → logrus.Entry
  derive_entry (with_field key value) entry = logrus.with_field key value entry
  derive_entry (with_fields fields) entry = logrus.with_fields fields entry
  derive_entry (with_error e) entry = logrus.with_error e entry
  derive_entry (with_context ctx) entry = logrus.with_context ctx entry

  -- WithField, WithFields, WithError and WithContext.
  unfoldable pub derive : Derivation V E C → Logger → Logger
  unfolding derive_entry
  derive d (logrus_logger entry) = logrus_logger (derive_entry d entry)
  derive d nop_logger = nop_logger
