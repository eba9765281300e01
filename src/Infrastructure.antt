-- ===== src/Infrastructure.antt =====
-- services/api/internal/infrastructure: aws.go and redis.go, over the clients of the AWS SDK and of
-- Redis.
pub mod Lookup
mod Tests
use internal_developer_platf.Shared.{
  ℕ, String, Bool, true, false, Option, none, some, List, [], ◌∷◌, ◌++◌, Result, ok, err,
  if◌then◌else◌,
}
use internal_developer_platf.Text.{Text, codes, text_eq}
use internal_developer_platf.Startup.{
  WrappedError, plain_error, wrapped_error, Run, did, lift, opened, closed, redis_part,
}

-- The SDK's Parameter, whose texts are pointers.
pub record Parameter : Type 0 where
  pub name : Option Text
  pub value : Option Text

-- The client of the Parameter Store: GetParameter, with WithDecryption or without, and
-- GetParameters.
pub record SsmClient : Type 0 where
  pub get_parameter : Bool → Text → Result WrappedError (Option Parameter)
  pub get_parameters : List Text → Result WrappedError (List Parameter)

empty_parameter : {A : Type 0} → Text → Result WrappedError A
empty_parameter name =
    err (plain_error (codes "parameter " ++ (name ++ codes " not found or empty")))

parameter_value : Text → Text → Result WrappedError (Option Parameter) → Result WrappedError Text
unfolding empty_parameter
parameter_value failure name (err e) = err (wrapped_error (failure ++ name) e)
parameter_value failure name (ok none) = empty_parameter name
parameter_value failure name (ok (some parameter)) = elim parameter.value [
  | none ↦ empty_parameter name
  | some value ↦ ok value
]

-- ParameterStore.GetParameter
unfoldable pub get_parameter : SsmClient → Text → Result WrappedError Text
unfolding parameter_value
get_parameter client name =
    parameter_value (codes "failed to get parameter ") name (client.get_parameter false name)

-- ParameterStore.GetSecureParameter
unfoldable pub get_secure_parameter : SsmClient → Text → Result WrappedError Text
unfolding parameter_value
get_secure_parameter client name =
    parameter_value (codes "failed to get secure parameter ") name (client.get_parameter true name)

-- A Go map from names to values.
abbrev pub Params : Type 0
Params = Text → Option Text

set_param : Option Text → Option Text → Params → Params
set_param (some name) (some value) params key = if text_eq name key then some value else params key
set_param none value params key = params key
set_param (some name) none params key = params key

-- The loop of GetParameters.
unfoldable pub collect_params : List Parameter → Params → Params
unfolding set_param
collect_params [] params = params
collect_params (p ∷ parameters) params = collect_params parameters (set_param p.name p.value params)

collected : Result WrappedError (List Parameter) → Result WrappedError Params
collected (err e) = err (wrapped_error (codes "failed to get parameters") e)
collected (ok parameters) = ok (collect_params parameters (λ key. none))

-- ParameterStore.GetParameters
unfoldable pub get_parameters : SsmClient → List Text → Result WrappedError Params
unfolding collected
get_parameters client [] = ok (λ key. none)
get_parameters client (name ∷ names) = collected (client.get_parameters (name ∷ names))

pub record RedisConfig (D N : Type 0) : Type 0 where
  pub addr : Text
  pub password : Text
  pub db : N
  pub dial_timeout : D
  pub read_timeout : D
  pub write_timeout : D

unfoldable pub connected :
    {D N : Type 0} → RedisConfig D N → Result WrappedError (Unit {0}) → Run (RedisConfig D N)
connected config (ok u) = did (opened redis_part ∷ []) (ok config)
connected config (err e) =
    did (opened redis_part ∷ closed redis_part ∷ [])
      (err (wrapped_error (codes "redis ping failed") e))

-- NewRedisClient, where `ping` is the server's answer to a PING; a client is what it was made from.
unfoldable pub new_redis_client :
    {D N : Type 0}
    → (RedisConfig D N → Result WrappedError (Unit {0}))
    → RedisConfig D N
    → Run (RedisConfig D N)
unfolding lift connected
new_redis_client ping config =
    if text_eq config.addr []
    then lift (err (plain_error (codes "redis address is required")))
    else connected config (ping config)
