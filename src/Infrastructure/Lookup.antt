-- ===== src/Infrastructure/Lookup.antt =====
-- aws.go: what GetParameters and GetParameter find.
use internal_developer_platf.Shared.{
  ◌≡◌, refl, sym, ◌∙◌, ap, Option, none, some, List, [], ◌∷◌, Result, ok, err, arith, if◌then◌else◌,
}
use internal_developer_platf.Text.{Text, codes, text_eq}
use internal_developer_platf.Startup.{WrappedError, wrapped_error}
use internal_developer_platf.Infrastructure.{
  Parameter, SsmClient, Params, set_param, collect_params, collected, get_parameters,
}

-- The value of a parameter, if it has a value and this name.
abbrev pub value_under : Text → Option Text → Option Text → Option Text
value_under key none value = none
value_under key (some name) none = none
value_under key (some name) (some value) = if text_eq name key then some value else none

abbrev pub or_else : {A : Type 0} → Option A → Option A → Option A
or_else none b = b
or_else (some a) b = some a

-- The last value under a name.
abbrev pub last_value : Text → List Parameter → Option Text
last_value key [] = none
last_value key (p ∷ parameters) =
    or_else (last_value key parameters) (value_under key p.name p.value)

set_param_lem :
    (name value : Option Text) (params : Params) (key : Text)
    → set_param name value params key ≡ or_else (value_under key name value) (params key)
unfolding set_param
set_param_lem none value params key = refl
set_param_lem (some name) none params key = refl
set_param_lem (some name) (some value) params key = ground arith

or_else_assoc : {A : Type 0} (a b c : Option A) → or_else (or_else a b) c ≡ or_else a (or_else b c)
or_else_assoc none b c = refl
or_else_assoc (some x) b c = refl

collect_params_lem :
    (parameters : List Parameter) (params : Params) (key : Text)
    → collect_params parameters params key ≡ or_else (last_value key parameters) (params key)
unfolding collect_params
collect_params_lem [] params key = refl
collect_params_lem (p ∷ parameters) params key =
    collect_params_lem parameters (set_param p.name p.value params) key
    ∙ ap (or_else (last_value key parameters)) (set_param_lem p.name p.value params key)
    ∙ sym (or_else_assoc (last_value key parameters) (value_under key p.name p.value) (params key))

or_else-none : {A : Type 0} (a : Option A) → or_else a none ≡ a
or_else-none none = refl
or_else-none (some a) = refl

-- What was found is what was answered: under every name the last value that the answer has for it;
-- and an error is the answer's, wrapped.
abbrev pub Finds : Result WrappedError (List Parameter) → Result WrappedError Params → Type 0
Finds (ok parameters) (ok params) = (key : Text) → params key ≡ last_value key parameters
Finds (err e) (err found) = found ≡ wrapped_error (codes "failed to get parameters") e
Finds (ok parameters) (err found) = ⊥
Finds (err e) (ok params) = ⊥

collected-Finds : (answer : Result WrappedError (List Parameter)) → Finds answer (collected answer)
unfolding collected
collected-Finds (ok parameters) =
    λ key. collect_params_lem parameters (λ k. none) key ∙ or_else-none (last_value key parameters)
collected-Finds (err e) = refl

-- Asked for at least one name, GetParameters gives under every name, also one that was not asked
-- for, the last value that the client's answer has for it, and none where the answer has a parameter
-- without a name or a value only; the client's error it wraps.
pub get_parameters_lem :
    (client : SsmClient) (name : Text) (names : List Text)
    → Finds (client.get_parameters (name ∷ names)) (get_parameters client (name ∷ names))
unfolding get_parameters
get_parameters_lem client name names = collected-Finds (client.get_parameters (name ∷ names))
