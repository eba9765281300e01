-- ===== src/Logger/Latest.antt =====
-- logger.go: the fields of a log line, and the settings of a new logger.
use internal_developer_platf.Shared.{
  String, ◌≡◌, refl, sym, ◌∙◌, ap, Bool, true, false, Option, none, some, List, [], ◌∷◌, str_eq,
  if◌then◌else◌,
}
use internal_developer_platf.Logger.{
  Config, new_logger, Field, Fields, Level, Logrus, Logger, logrus_logger, nop_logger, Derivation,
  with_field, with_fields, with_error, with_context, collect, entry_with, log, derive, derive_entry,
}

abbrev pub or_else : {V : Type 0} → Option V → Option V → Option V
or_else none later = later
or_else (some v) later = some v

-- The last value that a list of fields has under a key.
abbrev pub last_value : {V : Type 0} → String → List (Field V) → Option V
last_value key [] = none
last_value key (field ∷ fields) =
    or_else (last_value key fields) (if str_eq key field.key then some field.value else none)

-- What logrus documents of an entry's Data: a field, a map of fields or an error is laid over what
-- the entry has, an error under the key "error"; a context adds no field.
pub record LogrusLaws {V E Hook W C Output : Type 0} (logrus : Logrus V E Hook W C Output)
    : Type 0 where
  pub fields_of : logrus.Entry → Fields V
  pub value_of_error : E → V
  pub field_law :
      (key name : String) (value : V) (entry : logrus.Entry)
      → fields_of (logrus.with_field key value entry) name
        ≡ (if str_eq name key then some value else fields_of entry name)
  pub fields_law :
      (fields : Fields V) (name : String) (entry : logrus.Entry)
      → fields_of (logrus.with_fields fields entry) name
        ≡ or_else (fields name) (fields_of entry name)
  pub error_law :
      (e : E) (name : String) (entry : logrus.Entry)
      → fields_of (logrus.with_error e entry) name
        ≡ (if str_eq name "error" then some (value_of_error e) else fields_of entry name)
  pub context_law :
      (ctx : C) (name : String) (entry : logrus.Entry)
      → fields_of (logrus.with_context ctx entry) name ≡ fields_of entry name

or_else-none : {V : Type 0} (o : Option V) → or_else o none ≡ o
or_else-none none = refl
or_else-none (some v) = refl

or_else_assoc : {V : Type 0} (a b c : Option V) → or_else (or_else a b) c ≡ or_else a (or_else b c)
or_else_assoc none b c = refl
or_else_assoc (some v) b c = refl

or_else-if :
    {V : Type 0} (b : Bool) (v : V) (later : Option V)
    → or_else (if b then some v else none) later ≡ (if b then some v else later)
or_else-if true v later = refl
or_else-if false v later = refl

-- The map that withFields fills has the last value under each key.
collect-last_value :
    {V : Type 0} (key : String) (held : Fields V) (fields : List (Field V))
    → collect held fields key ≡ or_else (last_value key fields) (held key)
unfolding collect
collect-last_value key held [] = refl
collect-last_value key held (field ∷ fields) =
    collect-last_value key (λ k. if str_eq k field.key then some field.value else held k) fields
    ∙ ap (or_else (last_value key fields))
        (sym (or_else-if (str_eq key field.key) field.value (held key)))
    ∙ sym (or_else_assoc (last_value key fields) _ (held key))

module _ {V E Hook W C Output : Type 0} (logrus : Logrus V E Hook W C Output) where
  -- A text that is no level stands for the level info.
  pub new_logger-unknown_level :
      (cfg : Config Hook W) (named : String)
      → logrus.parse_level cfg.level ≡ none
      → logrus.parse_level named ≡ some logrus.info
      → new_logger logrus cfg ≡ new_logger logrus (record cfg { level = named })
  unfolding new_logger
  new_logger-unknown_level cfg named unknown known = rw (unknown, known) refl

  abbrev pub derive_all : List (Derivation V E C) → Logger logrus → Logger logrus
  derive_all [] l = l
  derive_all (d ∷ ds) l = derive_all ds (derive logrus d l)

module _ {V E Hook W C Output : Type 0} (logrus : Logrus V E Hook W C Output)
    (laws : LogrusLaws logrus) where
  -- What one step of building a logger puts under a key.
  abbrev pub put_by : Derivation V E C → String → Option V
  put_by (with_field key value) name = if str_eq name key then some value else none
  put_by (with_fields fields) name = fields name
  put_by (with_error e) name = if str_eq name "error" then some (laws.value_of_error e) else none
  put_by (with_context ctx) name = none

  -- What the last step that puts something under the key has put there.
  abbrev pub last_put : List (Derivation V E C) → String → Option V
  last_put [] name = none
  last_put (d ∷ ds) name = or_else (last_put ds name) (put_by d name)

  derive_entry-fields :
      (d : Derivation V E C) (entry : logrus.Entry) (name : String)
      → laws.fields_of (derive_entry logrus d entry) name
        ≡ or_else (put_by d name) (laws.fields_of entry name)
  unfolding derive_entry
  derive_entry-fields (with_field key value) entry name =
      laws.field_law key name value entry
      ∙ sym (or_else-if (str_eq name key) value (laws.fields_of entry name))
  derive_entry-fields (with_fields fields) entry name = laws.fields_law fields name entry
  derive_entry-fields (with_error e) entry name =
      laws.error_law e name entry
      ∙ sym (or_else-if (str_eq name "error") (laws.value_of_error e) (laws.fields_of entry name))
  derive_entry-fields (with_context ctx) entry name = laws.context_law ctx name entry

  entry_with-fields :
      (entry : logrus.Entry) (fields : List (Field V)) (name : String)
      → laws.fields_of (entry_with logrus entry fields) name
        ≡ or_else (last_value name fields) (laws.fields_of entry name)
  unfolding entry_with
  entry_with-fields entry [] name = refl
  entry_with-fields entry (field ∷ fields) name =
      laws.fields_law (collect (λ k. none) (field ∷ fields)) name entry
      ∙ ap (λ o. or_else o (laws.fields_of entry name))
          (collect-last_value name (λ k. none) (field ∷ fields)
            ∙ or_else-none (last_value name (field ∷ fields)))

  derive_entries : List (Derivation V E C) → logrus.Entry → logrus.Entry
  derive_entries [] entry = entry
  derive_entries (d ∷ ds) entry = derive_entries ds (derive_entry logrus d entry)

  derive_entries-fields :
      (ds : List (Derivation V E C)) (entry : logrus.Entry) (name : String)
      → laws.fields_of (derive_entries ds entry) name
        ≡ or_else (last_put ds name) (laws.fields_of entry name)
  unfolding derive_entries
  derive_entries-fields [] entry name = refl
  derive_entries-fields (d ∷ ds) entry name =
      derive_entries-fields ds (derive_entry logrus d entry) name
      ∙ ap (or_else (last_put ds name)) (derive_entry-fields d entry name)
      ∙ sym (or_else_assoc (last_put ds name) (put_by d name) (laws.fields_of entry name))

  derive_all-entry :
      (ds : List (Derivation V E C)) (entry : logrus.Entry)
      → derive_all logrus ds (logrus_logger entry) ≡ logrus_logger (derive_entries ds entry)
  unfolding derive derive_entries
  derive_all-entry [] entry = refl
  derive_all-entry (d ∷ ds) entry = derive_all-entry ds (derive_entry logrus d entry)

  derive_all-nop : (ds : List (Derivation V E C)) → derive_all logrus ds nop_logger ≡ nop_logger
  unfolding derive
  derive_all-nop [] = refl
  derive_all-nop (d ∷ ds) = derive_all-nop ds

  -- A line that is logged by a logger built from an entry has, under each key, the last value among
  -- the fields of the call; or else what the last step of building that has the key has put there; or
  -- else what the entry had. A logger built from the NopLogger writes nothing.
  pub log_lem :
      (level : Level) (msg : String) (fields : List (Field V)) (ds : List (Derivation V E C))
      (entry : logrus.Entry)
      → ((line : logrus.Entry) × (log logrus level msg fields
              (derive_all logrus ds (logrus_logger entry))
            ≡ logrus.write level msg line)
          × ((name : String)
              → laws.fields_of line name
                ≡ or_else
                    (last_value name fields)
                    (or_else (last_put ds name) (laws.fields_of entry name))))
        × (log logrus level msg fields (derive_all logrus ds nop_logger) ≡ [])
  unfolding log
  log_lem level msg fields ds entry = (
    (
      entry_with logrus (derive_entries ds entry) fields,
      ap (log logrus level msg fields) (derive_all-entry ds entry),
      λ name.
          entry_with-fields (derive_entries ds entry) fields name
          ∙ ap (or_else (last_value name fields)) (derive_entries-fields ds entry name),
    ),
    ap (log logrus level msg fields) (derive_all-nop ds),
  )
