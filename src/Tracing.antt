-- ===== src/Tracing.antt =====
-- The carriers of the trace context: services/api/internal/adapters/outbound/kafka and sqs
-- (resource_publisher.go), and services/provisioner/internal/consumer/propagation.go.
pub mod Handover
mod Tests
use internal_developer_platf.Shared.{
  String, Option, none, some, List, [], ◌∷◌, ◌++◌, map, str_eq, if◌then◌else◌,
}

-- A Kafka message's headers; a value's bytes are those of its text.
pub record KafkaHeader : Type 0 where
  pub key : String
  pub value : String

-- kafkaHeaderCarrier.Get of the publisher.
unfoldable pub kafka_publisher_get : List KafkaHeader → String → String
kafka_publisher_get [] key = ""
kafka_publisher_get (h ∷ headers) key =
    let rest = kafka_publisher_get headers key in if str_eq h.key key then h.value else rest

-- kafkaHeaderCarrier.Set of the publisher: the first header with the key, or a new one at the end.
unfoldable pub kafka_publisher_set : List KafkaHeader → String → String → List KafkaHeader
kafka_publisher_set [] key value = record { key = key; value = value } ∷ []
kafka_publisher_set (h ∷ headers) key value =
    let rest = kafka_publisher_set headers key value in
    if str_eq h.key key then record h { value = value } ∷ headers else h ∷ rest

-- kafkaHeaderCarrier.Keys of the publisher.
unfoldable pub kafka_publisher_keys : List KafkaHeader → List String
kafka_publisher_keys headers = map (λ h. h.key) headers

-- kafkaHeaderCarrier.Get of the consumer.
unfoldable pub kafka_consumer_get : List KafkaHeader → String → String
kafka_consumer_get [] key = ""
kafka_consumer_get (h ∷ headers) key =
    let rest = kafka_consumer_get headers key in if str_eq h.key key then h.value else rest

-- A message attribute of SQS.
pub record Attribute : Type 0 where
  pub data_type : String
  pub string_value : Option String

-- A Go map from names to attributes.
abbrev pub Attributes : Type 0
Attributes = String → Option Attribute

-- sqsAttributeCarrier.Set of the publisher.
unfoldable pub sqs_publisher_set : Attributes → String → String → Attributes
sqs_publisher_set attrs key value name =
    if str_eq name key
    then some (record { data_type = "String"; string_value = some value })
    else attrs name

text_of : Option Attribute → String
text_of none = ""
text_of (some a) = elim a.string_value [ some value ↦ value | none ↦ "" ]

-- sqsAttributeCarrier.Get of the publisher.
unfoldable pub sqs_publisher_get : Attributes → String → String
unfolding text_of
sqs_publisher_get attrs key = text_of (attrs key)

-- sqsAttributeCarrier.Get of the consumer.
unfoldable pub sqs_consumer_get : Attributes → String → String
unfolding text_of
sqs_consumer_get attrs key = text_of (attrs key)

-- kafkaHeaderCarrier.Keys and Set of the consumer: Set does nothing.
unfoldable pub kafka_consumer_keys : List KafkaHeader → List String
kafka_consumer_keys headers = map (λ h. h.key) headers

unfoldable pub kafka_consumer_set : List KafkaHeader → String → String → List KafkaHeader
kafka_consumer_set headers key value = headers

unfoldable pub sqs_consumer_set : Attributes → String → String → Attributes
sqs_consumer_set attrs key value = attrs

-- The global propagator: the calls of Set by which it injects a context, and the context that it
-- extracts under a parent by calls of Get.
pub record Propagator (Ctx : Type 0) : Type 0 where
  pub inject : Ctx → List (String × String)
  pub extract : Ctx → (String → String) → Ctx

-- extractKafka
unfoldable pub extract_kafka : {Ctx : Type 0} → Propagator Ctx → Ctx → List KafkaHeader → Ctx
unfolding kafka_consumer_get
extract_kafka propagator ctx headers = propagator.extract ctx (kafka_consumer_get headers)

-- extractSQS, where a message may have no attributes.
unfoldable pub extract_sqs : {Ctx : Type 0} → Propagator Ctx → Ctx → Attributes → Ctx
unfolding sqs_consumer_get
extract_sqs propagator ctx attrs = propagator.extract ctx (sqs_consumer_get attrs)
