-- ===== src/Idempotency/Record.antt =====
-- services/api/internal/domain/ports/outbound/idempotency_store.go: the persisted record.
use internal_developer_platf.Shared.{
  ℕ, String, Bool, Option, none, some, List, [], ◌∷◌, str_eq, if◌then◌else◌, ◌≢◌, arith, str_eq_iff,
}

-- A Go map from texts to texts, listed in some order of iteration.
abbrev pub TextMap : Type 0
TextMap = List (String × String)

unfoldable pub lookup : String → TextMap → Option String
lookup key [] = none
lookup key ((k, v) ∷ entries) = if str_eq k key then some v else lookup key entries

abbrev pub state_in_flight : String
state_in_flight = "IN_FLIGHT"

abbrev pub state_completed : String
state_completed = "COMPLETED"

pub completed_ne_in_flight : ◌≢◌ {A = String} state_completed state_in_flight
completed_ne_in_flight = ground (arith, str_eq_iff state_completed state_in_flight)

-- Times are milliseconds since the epoch.
pub record IdempotencyRecord : Type 0 where
  pub key : String
  pub state : String
  pub request_hash : String
  pub status_code : ℕ
  pub headers : TextMap
  pub body : List ℕ
  pub created_at : ℕ
  pub expires_at : ℕ

-- What Reserve returns beside its error.
pub record Reservation : Type 0 where
  pub existing : Option IdempotencyRecord
  pub created : Bool

-- The errors of the store, each named for the text that wraps it.
pub data StoreError : Type 0 where
  marshal_reservation redis_set_nx not_found redis_get unmarshal_record : StoreError
  marshal_completion redis_complete_script redis_release_script : StoreError
