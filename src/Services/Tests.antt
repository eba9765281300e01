-- ===== src/Services/Tests.antt =====
-- Runs of the publishers.
use internal_developer_platf.Tracing.{Propagator, extract_kafka, extract_sqs}
use internal_developer_platf.Shared.{
  pos, String, Option, some, none, ◌≡◌, refl, [], ◌∷◌, ok, false, true, str_eq, if◌then◌else◌,
  Bool-cases, inl, inr,
}
use internal_developer_platf.DomainErrors.Chains.{Reports}
use internal_developer_platf.Services.{auth_sign_up, auth_sign_in, auth_confirm_sign_up}
use internal_developer_platf.Services.Cognito.{Client, cognito_provider}
use internal_developer_platf.Services.Cognito.Reports.{SignsIn, auth_service_lem}
use internal_developer_platf.DomainErrors.{nil_error, sentinel}
use internal_developer_platf.Handlers.Responses.{Resource}
use internal_developer_platf.Services.Publish.{
  Outside, Broker, KafkaMessage, SendMessageInput, publish_kafka, publish_sqs,
}
use internal_developer_platf.Services.Publish.Delivery.{
  SentKafka, SentSqs, Publishes, publish_lem, attributes_or_none,
}
use internal_developer_platf.Services.Publish.Traces.{PropagatorLaws, trace_is_handed_over}

abbrev bucket : Resource
bucket = record {
  id = "r-1";
  resource_type = "S3";
  cloud_provider = "AWS";
  specification = "{}";
  status = "PENDING";
  requested_by = "dev@example.com";
}

abbrev outside : Outside
outside = record {
  marshal = λ r. ok (1 ∷ 2 ∷ []);
  trace = ("traceparent", "00-1") ∷ ("baggage", "a") ∷ [];
}

abbrev kafka_up : Broker KafkaMessage
kafka_up message = nil_error

abbrev sqs_down : Broker SendMessageInput
sqs_down input = sentinel "throttled"

kafka_sends_one : (publish_kafka outside kafka_up bucket).error ≡ nil_error
unfolding publish_kafka
kafka_sends_one = refl

publish_lem_example :
    let body = outside.marshal bucket in
    Publishes (SentKafka outside bucket) kafka_up body (publish_kafka outside kafka_up bucket)
    × Publishes
        (SentSqs outside "https://queue")
        sqs_down
        body
        (publish_sqs outside sqs_down "https://queue" bucket)
publish_lem_example = publish_lem outside bucket kafka_up sqs_down "https://queue"

-- The user stands already, the password is right, and the code is wrong.
abbrev client : Client
client = record {
  sign_up = λ input. sentinel "exists";
  initiate_auth = λ input. ok (
      some (record {
        access_token = some "t";
        refresh_token = none;
        id_token = some "i";
        expires_in = pos 3600;
        token_type = some "Bearer";
      }));
  confirm_sign_up = λ input. sentinel "mismatch";
}

auth_service_lem_example :
    let provider = cognito_provider client "c" in
    Reports "USER_ALREADY_EXISTS"
      (sentinel "exists")
      (auth_sign_up provider (record { email = "a@b.io"; password = "p" }))
    × SignsIn
        (client.initiate_auth (record {
          auth_flow = "USER_PASSWORD_AUTH";
          client_id = "c";
          auth_parameters = ("USERNAME", "a@b.io") ∷ ("PASSWORD", "p") ∷ [];
        }))
        (auth_sign_in provider (record { email = "a@b.io"; password = "p" }))
    × Reports "INVALID_CONFIRMATION_CODE"
        (sentinel "mismatch")
        (auth_confirm_sign_up provider (record { email = "a@b.io"; confirmation_code = "1" }))
auth_service_lem_example =
    auth_service_lem client "c" (record { email = "a@b.io"; password = "p" })
      (record { email = "a@b.io"; password = "p" })
      (record { email = "a@b.io"; confirmation_code = "1" })

-- A context is the text of its span, which is empty where there is none; the propagator writes and
-- reads the one header.
abbrev w3c : Propagator String
w3c = record {
  inject = λ ctx. if str_eq ctx "" then [] else ("traceparent", ctx) ∷ [];
  extract = λ parent get. if str_eq (get "traceparent") "" then parent else get "traceparent";
}

abbrev span_in : String → Option String
span_in ctx = if str_eq ctx "" then none else some ctx

some-span : (ctx span : String) → span_in ctx ≡ some span → str_eq ctx "" ≡ false
some-span ctx span is = elim (Bool-cases (str_eq ctx "")) [ inl empty ↦ cc | inr other ↦ other ]

no-span : (ctx : String) → span_in ctx ≡ none → str_eq ctx "" ≡ true
no-span ctx is = elim (Bool-cases (str_eq ctx "")) [ inl empty ↦ empty | inr other ↦ cc ]

w3c-PropagatorLaws : PropagatorLaws w3c span_in
w3c-PropagatorLaws = record {
  span_read = λ ctx parent span get is reads.
      let given = some-span ctx span is in
      let same : get "traceparent" ≡ ctx = rw given at (reads "traceparent") in rw (same, given) is;
  parent_kept = λ ctx parent get is reads.
      let same : get "traceparent" ≡ "" = rw (no-span ctx is) at (reads "traceparent") in
      rw same refl;
}

trace_is_handed_over_example :
    ((message : KafkaMessage) × ((publish_kafka
          (record { marshal = outside.marshal; trace = w3c.inject "00-7" })
          kafka_up
          bucket).sent
        ≡ message ∷ [])
      × (span_in (extract_kafka w3c "00-1" message.headers) ≡ some "00-7"))
    × ((input : SendMessageInput) × ((publish_sqs
            (record { marshal = outside.marshal; trace = w3c.inject "00-7" })
            sqs_down
            "https://queue"
            bucket).sent
          ≡ input ∷ [])
        × (span_in (extract_sqs w3c "00-1" (attributes_or_none input.message_attributes))
            ≡ some "00-7"))
trace_is_handed_over_example =
    trace_is_handed_over w3c span_in w3c-PropagatorLaws outside.marshal "00-7" "00-1" bucket
      (1 ∷ 2 ∷ []) kafka_up sqs_down "https://queue" refl
