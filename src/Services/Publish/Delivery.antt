-- ===== src/Services/Publish/Delivery.antt =====
-- resource_publisher.go: what a published resource comes to over either transport.
use internal_developer_platf.Shared.{
  ℕ, String, ◌≡◌, refl, Option, none, some, List, [], ◌∷◌, Result, ok, err,
}
use internal_developer_platf.Text.{Text}
use internal_developer_platf.DomainErrors.Codes.{err_code_queue_error}
use internal_developer_platf.DomainErrors.{
  GoError, nil_error, sentinel, domain_error, new_domain_error, is_nil, unwrap,
}
use internal_developer_platf.DomainErrors.Chains.{code_of, Reports}
use internal_developer_platf.Handlers.Responses.{Resource}
use internal_developer_platf.Tracing.{Attributes, kafka_consumer_get, sqs_consumer_get}
use internal_developer_platf.Tracing.Handover.{last_set, no_attributes, transports_agree}
use internal_developer_platf.Services.Publish.{
  Outside, Broker, KafkaMessage, SendMessageInput, Sending, publish_kafka, publish_sqs, kafka_write,
  sqs_send, attributes, publishing_error, serializing_error,
}

-- An error stands for the broker's answer: nil for nil, and else an error of the queue that unwraps
-- to the answer.
abbrev pub IsQueueError : GoError → GoError → Type 0
IsQueueError = Reports err_code_queue_error

publishing_error-IsQueueError :
    (message : Text) (cause : GoError) → IsQueueError cause (publishing_error message cause)
unfolding publishing_error is_nil new_domain_error unwrap
publishing_error-IsQueueError message nil_error = refl
publishing_error-IsQueueError message (sentinel text) = (refl, refl)
publishing_error-IsQueueError message (domain_error code text cause details) = (refl, refl)

-- What the consumer reads of a message's attributes; a message without any is read as an empty map.
abbrev pub attributes_or_none : Option Attributes → Attributes
attributes_or_none none = no_attributes
attributes_or_none (some attrs) = attrs

attributes_lem :
    (outside : Outside) (trace : List (String × String)) (key : String)
    → sqs_consumer_get (attributes_or_none (attributes outside trace)) key ≡ last_set key trace ""
unfolding attributes
attributes_lem outside [] key = (transports_agree [] key).1
attributes_lem outside (set ∷ sets) key = (transports_agree (set ∷ sets) key).1

-- One message was sent over Kafka: it is keyed by the resource, has the resource's JSON, and the
-- consumer reads the publisher's trace in it.
pub record SentKafka (outside : Outside) (resource : Resource) (body : List ℕ)
    (message : KafkaMessage) : Type 0 where
  pub keyed : message.key ≡ resource.id
  pub has_body : message.value ≡ body
  pub traced :
      (key : String) → kafka_consumer_get message.headers key ≡ last_set key outside.trace ""

-- One message was sent over SQS: it has the resource's JSON, and the consumer reads the publisher's
-- trace in it.
pub record SentSqs (outside : Outside) (queue_url : String) (body : List ℕ)
    (input : SendMessageInput) : Type 0 where
  pub addressed : input.queue_url ≡ queue_url
  pub has_body : input.message_body ≡ body
  pub traced :
      (key : String)
      → sqs_consumer_get (attributes_or_none input.message_attributes) key
        ≡ last_set key outside.trace ""

-- What one call of a publisher comes to, by the encoder's result: exactly one message, which is as
-- it should be, with an error that stands for the broker's answer to it; or no message.
abbrev pub Publishes :
    {M : Type 0} → (List ℕ → M → Type 0) → Broker M → Result GoError (List ℕ) → Sending M → Type 0
Publishes {M} AsSent broker (ok body) sending =
    (message : M) × (sending.sent ≡ message ∷ [])
    × AsSent body message
    × IsQueueError (broker message) sending.error
Publishes AsSent broker (err e) sending =
    (sending.sent ≡ [])
    × (code_of sending.error ≡ some err_code_queue_error)
    × (unwrap sending.error ≡ e)

module _ (outside : Outside) (resource : Resource) where
  pub kafka_write-Publishes :
      (broker : Broker KafkaMessage) (body : Result GoError (List ℕ))
      → Publishes
          (SentKafka outside resource)
          broker
          body
          (kafka_write outside broker resource body)
  unfolding kafka_write serializing_error new_domain_error unwrap
  kafka_write-Publishes broker (err e) = (refl, refl, refl)
  kafka_write-Publishes broker (ok body) = (
    _,
    refl,
    record {
      keyed = refl;
      has_body = refl;
      traced = λ key. (transports_agree outside.trace key).0;
    },
    publishing_error-IsQueueError _ _,
  )

  pub sqs_send-Publishes :
      (broker : Broker SendMessageInput) (queue_url : String) (body : Result GoError (List ℕ))
      → Publishes
          (SentSqs outside queue_url)
          broker
          body
          (sqs_send outside broker queue_url resource body)
  unfolding sqs_send serializing_error new_domain_error unwrap
  sqs_send-Publishes broker queue_url (err e) = (refl, refl, refl)
  sqs_send-Publishes broker queue_url (ok body) = (
    _,
    refl,
    record { addressed = refl; has_body = refl; traced = attributes_lem outside outside.trace },
    publishing_error-IsQueueError _ _,
  )

  -- Whatever the resource, the trace and the broker: where the resource marshals, either transport
  -- sends exactly one message with the marshalled bytes (over Kafka keyed by the resource's id, over
  -- SQS to the queue's URL), in which the consumer's carrier reads, under every key, what the
  -- propagator set last; the error is nil if the broker's is, and else has the code QUEUE_ERROR and
  -- unwraps to the broker's. Where it does not marshal, nothing is sent and the error has that code
  -- and unwraps to the encoder's.
  pub publish_lem :
      (kafka : Broker KafkaMessage) (sqs : Broker SendMessageInput) (queue_url : String)
      → let body = outside.marshal resource in
        Publishes (SentKafka outside resource) kafka body (publish_kafka outside kafka resource)
        × Publishes
            (SentSqs outside queue_url)
            sqs
            body
            (publish_sqs outside sqs queue_url resource)
  unfolding publish_kafka publish_sqs
  publish_lem kafka sqs queue_url = (
    kafka_write-Publishes kafka (outside.marshal resource),
    sqs_send-Publishes sqs queue_url (outside.marshal resource),
  )
