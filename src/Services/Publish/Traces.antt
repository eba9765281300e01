-- ===== src/Services/Publish/Traces.antt =====
-- resource_publisher.go of both adapters and propagation.go of the provisioner: one trace from the
-- request to the message's processing.
use internal_developer_platf.Shared.{
  String, ◌≡◌, refl, Option, none, some, List, [], ◌∷◌, ℕ, Result, ok,
}
use internal_developer_platf.DomainErrors.{GoError}
use internal_developer_platf.Handlers.Responses.{Resource}
use internal_developer_platf.Tracing.{
  Propagator, extract_kafka, extract_sqs, kafka_consumer_get, sqs_consumer_get,
}
use internal_developer_platf.Tracing.Handover.{last_set}
use internal_developer_platf.Services.Publish.{
  Outside, Broker, KafkaMessage, SendMessageInput, publish_kafka, publish_sqs,
}
use internal_developer_platf.Services.Publish.Delivery.{
  attributes_or_none, kafka_write-Publishes, sqs_send-Publishes,
}

-- What a carrier reads back is what was set last under each key.
abbrev pub ReadsBack : (String → String) → List (String × String) → Type 0
ReadsBack get sets = (key : String) → get key ≡ last_set key sets ""

-- What the propagator documents of spans: from a carrier that reads back what was injected, it
-- extracts the injected span; where the context had none, the parent's span stays.
pub record PropagatorLaws {Ctx Span : Type 0} (propagator : Propagator Ctx)
    (span_of : Ctx → Option Span) : Type 0 where
  pub span_read :
      (ctx parent : Ctx) (span : Span) (get : String → String)
      → span_of ctx ≡ some span
      → ReadsBack get (propagator.inject ctx)
      → span_of (propagator.extract parent get) ≡ some span
  pub parent_kept :
      (ctx parent : Ctx) (get : String → String)
      → span_of ctx ≡ none
      → ReadsBack get (propagator.inject ctx)
      → span_of (propagator.extract parent get) ≡ span_of parent

-- The span of a message: the publisher's, or else that of the consumer's own context.
abbrev pub span_or : {Span : Type 0} → Option Span → Option Span → Option Span
span_or none parent = parent
span_or (some span) parent = some span

module _ {Ctx Span : Type 0} (propagator : Propagator Ctx) (span_of : Ctx → Option Span)
    (laws : PropagatorLaws propagator span_of) (marshal : Resource → Result GoError (List ℕ)) where
  extracted :
      (ctx parent : Ctx) (get : String → String) (published : Option Span)
      → span_of ctx ≡ published
      → ReadsBack get (propagator.inject ctx)
      → span_of (propagator.extract parent get) ≡ span_or published (span_of parent)
  extracted ctx parent get none is reads = laws.parent_kept ctx parent get is reads
  extracted ctx parent get (some span) is reads = laws.span_read ctx parent span get is reads

  -- The publisher's surroundings in a request's context.
  abbrev pub within : Ctx → Outside
  within ctx = record { marshal = marshal; trace = propagator.inject ctx }

  -- With a propagator that extracts the span that it injected and, where it injected none, keeps the
  -- parent's: for a resource that marshals, published in any context over either transport, one
  -- message is sent, and the provisioner processes it under the span of that context, or under that
  -- of its own context where the publisher's has no span, whatever the broker answers.
  pub trace_is_handed_over :
      (ctx parent : Ctx) (resource : Resource) (body : List ℕ) (kafka : Broker KafkaMessage)
      (sqs : Broker SendMessageInput) (queue_url : String)
      → marshal resource ≡ ok body
      → ((message : KafkaMessage) × ((publish_kafka (within ctx) kafka resource).sent
            ≡ message ∷ [])
          × (span_of (extract_kafka propagator parent message.headers)
              ≡ span_or (span_of ctx) (span_of parent)))
        × ((input : SendMessageInput) × ((publish_sqs (within ctx) sqs queue_url resource).sent
              ≡ input ∷ [])
            × (span_of (extract_sqs propagator parent (attributes_or_none input.message_attributes))
                ≡ span_or (span_of ctx) (span_of parent)))
  unfolding publish_kafka publish_sqs extract_kafka extract_sqs
  trace_is_handed_over ctx parent resource body kafka sqs queue_url marshals =
      let (message, sent, whole, _) = kafka_write-Publishes (within ctx) resource kafka (ok body) in
      let (input, handed, complete, _) =
        sqs_send-Publishes (within ctx) resource sqs queue_url (ok body) in
      rw marshals (
        (
          message,
          sent,
          extracted ctx parent (kafka_consumer_get message.headers) (span_of ctx) refl whole.traced,
        ),
        (
          input,
          handed,
          extracted ctx parent (sqs_consumer_get (attributes_or_none input.message_attributes))
              (span_of ctx) refl complete.traced,
        ),
      )
