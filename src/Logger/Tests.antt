-- ===== src/Logger/Tests.antt =====
-- The logger over an implementation of logrus that keeps an entry's fields and nothing else.
use internal_developer_platf.Shared.{
  ℕ, String, ◌≡◌, refl, Option, none, some, List, [], ◌∷◌, str_eq, if◌then◌else◌,
}
use internal_developer_platf.Logger.{
  Field, Fields, info_level, Logrus, logrus_logger, nop_logger, Derivation, with_field, with_error,
  with_context, log,
}
use internal_developer_platf.Logger.Latest.{
  LogrusLaws, or_else, last_value, last_put, derive_all, log_lem,
}

-- A line, by its message and the value of its field "resource".
abbrev kept : Logrus String String ℕ ℕ ℕ (String × Option String)
kept = record {
  Entry = Fields String;
  Settings = ℕ;
  new = 0;
  set_output = λ w log. log;
  Parsed = ℕ;
  parse_level = λ text. none;
  info = 4;
  set_level = λ level log. level;
  add_hook = λ h log. log;
  set_formatter = λ formatter log. log;
  new_entry = λ log key. none;
  with_field = λ key value entry name. if str_eq name key then some value else entry name;
  with_fields = λ fields entry name. or_else (fields name) (entry name);
  with_error = λ e entry name. if str_eq name "error" then some e else entry name;
  with_context = λ ctx entry. entry;
  write = λ level msg entry. (msg, entry "resource") ∷ [];
}

abbrev kept-LogrusLaws : LogrusLaws kept
kept-LogrusLaws = record {
  fields_of = λ entry. entry;
  value_of_error = λ e. e;
  field_law = λ key name value entry. refl;
  fields_law = λ fields name entry. refl;
  error_law = λ e name entry. refl;
  context_law = λ ctx name entry. refl;
}

abbrev fields : List (Field String)
fields = record { key = "resource"; value = "vm" } ∷ record { key = "resource"; value = "db" } ∷ []

abbrev steps : List (Derivation String String ℕ)
steps = with_context 1 ∷ with_field "resource" "none" ∷ with_error "broken" ∷ []

log_lem_example :
    ((line : Fields String) × (log kept info_level "started" fields
          (derive_all kept steps (logrus_logger (λ key. none)))
        ≡ ("started", line "resource") ∷ [])
      × ((name : String)
          → line name
            ≡ or_else
                (last_value name fields)
                (or_else (last_put kept kept-LogrusLaws steps name) none)))
    × (log kept info_level "started" fields (derive_all kept steps nop_logger) ≡ [])
log_lem_example = log_lem kept kept-LogrusLaws info_level "started" fields steps (λ key. none)

last_resource : last_value "resource" fields ≡ some "db"
last_resource = refl
