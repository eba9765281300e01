-- ===== src/Services/Publish.antt =====
-- resource_publisher.go of the Kafka adapter and of the SQS adapter: Publish. A run gives what was
-- sent to the broker and the error, nil_error for nil.
pub mod Delivery
pub mod Traces
use internal_developer_platf.Shared.{
  ℕ, String, Bool, Option, none, some, List, [], ◌∷◌, ◌++◌, Result, ok, err, if◌then◌else◌,
}
use internal_developer_platf.Text.{Text, codes}
use internal_developer_platf.DomainErrors.{GoError, nil_error, new_domain_error, is_nil}
use internal_developer_platf.DomainErrors.Codes.{err_code_queue_error}
use internal_developer_platf.Handlers.Responses.{Resource}
use internal_developer_platf.Tracing.{KafkaHeader, Attributes}
use internal_developer_platf.Tracing.Handover.{kafka_inject, sqs_inject, no_attributes}

pub record KafkaMessage : Type 0 where
  pub key : String
  pub value : List ℕ
  pub headers : List KafkaHeader

pub record SendMessageInput : Type 0 where
  pub message_body : List ℕ
  pub queue_url : String
  pub message_attributes : Option Attributes

-- What was sent, and the error.
pub record Sending (M : Type 0) : Type 0 where
  pub sent : List M
  pub error : GoError

-- What the publishers take from outside: json.Marshal, and the calls of Set that the propagator makes
-- for the request's context.
pub record Outside : Type 0 where
  pub marshal : Resource → Result GoError (List ℕ)
  pub trace : List (String × String)

-- A broker's answer to a message: nil_error, or an error.
abbrev pub Broker : Type 0 → Type 0
Broker M = M → GoError

unfoldable publishing_error : Text → GoError → GoError
unfolding is_nil
publishing_error message cause =
    if is_nil cause then nil_error else new_domain_error err_code_queue_error message cause

unfoldable serializing_error : GoError → GoError
serializing_error cause =
    new_domain_error err_code_queue_error (codes "failed to serialize resource for publishing")
      cause

module _ (outside : Outside) where
  unfoldable kafka_write :
      Broker KafkaMessage → Resource → Result GoError (List ℕ) → Sending KafkaMessage
  unfolding publishing_error serializing_error
  kafka_write broker resource (err e) = record { sent = []; error = serializing_error e }
  kafka_write broker resource (ok body) =
      let message : KafkaMessage = record {
        key = resource.id;
        value = body;
        headers = kafka_inject outside.trace [];
      } in
      record {
        sent = message ∷ [];
        error =
            publishing_error
              (codes "failed to publish resource " ++ (codes resource.id ++ codes " to kafka"))
              (broker message);
      }

  -- Publish of the Kafka adapter.
  unfoldable pub publish_kafka : Broker KafkaMessage → Resource → Sending KafkaMessage
  unfolding kafka_write
  publish_kafka broker resource = kafka_write broker resource (outside.marshal resource)

  -- The attributes, where there is any: each call of Set makes one.
  unfoldable attributes : List (String × String) → Option Attributes
  attributes [] = none
  attributes (set ∷ sets) = some (sqs_inject (set ∷ sets) no_attributes)

  unfoldable sqs_send :
      Broker SendMessageInput
      → String
      → Resource
      → Result GoError (List ℕ)
      → Sending SendMessageInput
  unfolding publishing_error serializing_error attributes
  sqs_send broker queue_url resource (err e) = record { sent = []; error = serializing_error e }
  sqs_send broker queue_url resource (ok body) =
      let input : SendMessageInput = record {
        message_body = body;
        queue_url = queue_url;
        message_attributes = attributes outside.trace;
      } in
      record {
        sent = input ∷ [];
        error =
            publishing_error
              (codes "failed to publish resource " ++ (codes resource.id ++ codes " to queue"))
              (broker input);
      }

  -- Publish of the SQS adapter.
  unfoldable pub publish_sqs :
      Broker SendMessageInput → String → Resource → Sending SendMessageInput
  unfolding sqs_send
  publish_sqs broker queue_url resource =
      sqs_send broker queue_url resource (outside.marshal resource)
