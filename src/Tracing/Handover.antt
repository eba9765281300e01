-- ===== src/Tracing/Handover.antt =====
-- What a propagator injects on the publisher's side is what it extracts on the consumer's.
use internal_developer_platf.Shared.{
  String, ◌≡◌, refl, ◌∙◌, ap, Bool, true, false, none, List, [], ◌∷◌, Bool-cases, inl, inr, str_eq,
  str_eq_iff, if◌then◌else◌, arith,
}
use internal_developer_platf.Tracing.{
  KafkaHeader, Attributes, kafka_publisher_set, kafka_publisher_keys, kafka_consumer_get,
  sqs_publisher_set, sqs_consumer_get,
}

-- The calls of Set that a propagator makes in one injection, in order.
abbrev pub kafka_inject : List (String × String) → List KafkaHeader → List KafkaHeader
kafka_inject [] headers = headers
kafka_inject ((key, value) ∷ sets) headers =
    kafka_inject sets (kafka_publisher_set headers key value)

abbrev pub sqs_inject : List (String × String) → Attributes → Attributes
sqs_inject [] attrs = attrs
sqs_inject ((key, value) ∷ sets) attrs = sqs_inject sets (sqs_publisher_set attrs key value)

-- The value that was set last under a key, or else `before`.
abbrev pub last_set : String → List (String × String) → String → String
last_set key [] before = before
last_set key ((k, value) ∷ sets) before = last_set key sets (if str_eq k key then value else before)

kafka_get-set :
    (headers : List KafkaHeader) (key value name : String)
    → kafka_consumer_get (kafka_publisher_set headers key value) name
      ≡ (if str_eq key name then value else kafka_consumer_get headers name)
unfolding kafka_consumer_get kafka_publisher_set
kafka_get-set [] key value name = refl
kafka_get-set (h ∷ headers) key value name = ground (
  arith,
  kafka_get-set headers key value name,
  str_eq_iff h.key key,
  str_eq_iff h.key name,
  str_eq_iff key name,
)

sqs_get-set :
    (attrs : Attributes) (key value name : String)
    → sqs_consumer_get (sqs_publisher_set attrs key value) name
      ≡ (if str_eq key name then value else sqs_consumer_get attrs name)
unfolding sqs_consumer_get sqs_publisher_set
sqs_get-set attrs key value name = ground (arith, str_eq_iff name key, str_eq_iff key name)

-- Whatever headers a Kafka message had, after an injection the consumer reads under every key the
-- value that was set last, and the old value of a key that was not set.
pub kafka_inject_lem :
    (sets : List (String × String)) (headers : List KafkaHeader) (key : String)
    → kafka_consumer_get (kafka_inject sets headers) key
      ≡ last_set key sets (kafka_consumer_get headers key)
kafka_inject_lem [] headers key = refl
kafka_inject_lem ((k, value) ∷ sets) headers key =
    kafka_inject_lem sets (kafka_publisher_set headers k value) key
    ∙ ap (last_set key sets) (kafka_get-set headers k value key)

sqs_inject_lem :
    (sets : List (String × String)) (attrs : Attributes) (key : String)
    → sqs_consumer_get (sqs_inject sets attrs) key ≡ last_set key sets (sqs_consumer_get attrs key)
sqs_inject_lem [] attrs key = refl
sqs_inject_lem ((k, value) ∷ sets) attrs key =
    sqs_inject_lem sets (sqs_publisher_set attrs k value) key
    ∙ ap (last_set key sets) (sqs_get-set attrs k value key)

abbrev pub no_attributes : Attributes
no_attributes name = none

-- From a new message, the consumer extracts over either transport, under every key, the value that
-- the publisher's propagator set last, and the empty text under a key that it did not set.
pub transports_agree :
    (sets : List (String × String)) (key : String)
    → (kafka_consumer_get (kafka_inject sets []) key ≡ last_set key sets "")
      × (sqs_consumer_get (sqs_inject sets no_attributes) key ≡ last_set key sets "")
unfolding kafka_consumer_get sqs_consumer_get
transports_agree sets key = (kafka_inject_lem sets [] key, sqs_inject_lem sets no_attributes key)

-- Whether a name stands in a list.
abbrev pub is_in : String → List String → Bool
is_in name [] = false
is_in name (k ∷ keys) = if str_eq k name then true else is_in name keys

abbrev pub IsUnique : List String → Type 0
IsUnique [] = Unit
IsUnique (k ∷ keys) = (is_in k keys ≡ false) × IsUnique keys

is_in-set :
    (headers : List KafkaHeader) (key value name : String)
    → is_in name (kafka_publisher_keys (kafka_publisher_set headers key value))
      ≡ (if str_eq key name then true else is_in name (kafka_publisher_keys headers))
unfolding kafka_publisher_set kafka_publisher_keys
is_in-set [] key value name = refl
is_in-set (h ∷ headers) key value name = ground (
  arith,
  is_in-set headers key value name,
  str_eq_iff h.key key,
  str_eq_iff h.key name,
  str_eq_iff key name,
)

-- Set keeps the keys of a Kafka message's headers free of repetition.
pub kafka_publisher_set-IsUnique :
    (headers : List KafkaHeader) (key value : String)
    → IsUnique (kafka_publisher_keys headers)
    → IsUnique (kafka_publisher_keys (kafka_publisher_set headers key value))
unfolding kafka_publisher_set kafka_publisher_keys
kafka_publisher_set-IsUnique [] key value unique = (refl, tt)
kafka_publisher_set-IsUnique (h ∷ headers) key value (new, unique) =
    elim (Bool-cases (str_eq h.key key)) [
      | inl same ↦ rw same (new, unique)
      | inr other ↦ rw other (
        is_in-set headers key value h.key
            ∙ ground (arith, str_eq_iff key h.key, str_eq_iff h.key key),
        kafka_publisher_set-IsUnique headers key value unique,
      )
    ]
