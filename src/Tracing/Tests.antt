-- ===== src/Tracing/Tests.antt =====
-- The carriers, at a concrete trace context.
use internal_developer_platf.Shared.{String, List, ◌≡◌, refl, [], ◌∷◌}
use internal_developer_platf.Tracing.{
  kafka_publisher_set, kafka_consumer_get, sqs_publisher_set, sqs_consumer_get,
}
use internal_developer_platf.Tracing.Handover.{kafka_inject, sqs_inject, no_attributes}

abbrev sets : List (String × String)
sets = ("traceparent", "a") ∷ ("baggage", "b") ∷ ("traceparent", "c") ∷ []

kafka_overwrites : kafka_consumer_get (kafka_inject sets []) "traceparent" ≡ "c"
unfolding kafka_publisher_set kafka_consumer_get
kafka_overwrites = refl

sqs_overwrites : sqs_consumer_get (sqs_inject sets no_attributes) "traceparent" ≡ "c"
unfolding sqs_publisher_set sqs_consumer_get
sqs_overwrites = refl
