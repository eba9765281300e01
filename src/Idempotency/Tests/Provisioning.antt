-- ===== src/Idempotency/Tests/Provisioning.antt =====
-- POST /v1/provision twice over Redis and SQS.
use internal_developer_platf.Shared.{ℕ, ◌+◌, ◌≤◌, ◌<◌, none, ◌≡◌, refl, some, [], ◌∷◌, ok, arith}
use internal_developer_platf.Text.{CaseTables}
use internal_developer_platf.Http.{fresh_writer, returned}
use internal_developer_platf.DomainErrors.{nil_error}
use internal_developer_platf.Handlers.Responses.{Resource, Encoders}
use internal_developer_platf.Handlers.{Schema}
use internal_developer_platf.Services.Publish.{Outside, Broker, SendMessageInput}
use internal_developer_platf.Idempotency.Program.{run}
use internal_developer_platf.Idempotency.Redis.{live, year_10000}
use internal_developer_platf.Idempotency.Store.Runs.{slot}
use internal_developer_platf.Api.{provision_route, ttl_or_day}
use internal_developer_platf.Api.Provisioning.{
  redis_config, handler, messages, IsProvisionable, ProvisionedOnce, provisioned_once,
}
use internal_developer_platf.Idempotency.Tests.{
  plain, plain-CodecLaws, platform, request, steady, start, healthy_steady, request-IsKeyed,
}

abbrev encoders : Encoders
encoders = record {
  error = λ e. 1 ∷ [];
  created = λ p. 2 ∷ [];
  tokens = λ p. 3 ∷ [];
  message = λ p. 4 ∷ [];
  accepted = λ p. 5 ∷ [];
}

abbrev ascii : CaseTables
ascii = record { lower = λ c. c; upper = λ c. c }

abbrev bucket : Resource
bucket = record {
  id = "r-1";
  resource_type = "S3";
  cloud_provider = "AWS";
  specification = "{}";
  status = "";
  requested_by = "dev";
}

abbrev schema : Schema Resource
schema = record { decode = λ body. some bucket; check = λ r. [] }

abbrev outside : Outside
outside = record { marshal = λ r. ok (8 ∷ 9 ∷ []); trace = ("traceparent", "00-1") ∷ [] }

abbrev queue : Broker SendMessageInput
queue input = nil_error

bucket-IsProvisionable :
    IsProvisionable encoders ascii "t" schema outside queue "https://q" (7 ∷ []) bucket (8 ∷ 9 ∷ [])
bucket-IsProvisionable = record {
  decoded = refl;
  valid = refl;
  marshalled = refl;
  taken = λ input. refl;
}

start_free : slot steady start "k1" ≡ none
unfolding live
start_free = refl

-- A time to live of 0 stands for a day.
dates_day : (n : ℕ) → (steady n).local_time + ttl_or_day 0 < year_10000
unfolding ttl_or_day
dates_day n = omega arith

window_day : (n : ℕ) → (0 ≤ (steady n).server_time) × ((steady n).server_time < 0 + ttl_or_day 0)
unfolding ttl_or_day
window_day n = (omega arith, omega arith)

provisioned_once_example :
    let next = handler encoders ascii "t" schema outside queue "https://q" in
    let send = provision_route platform (redis_config plain [] 0) in
    let (first, w₁) = run plain steady next (send request fresh_writer) start in
    let (second, w₂) = run plain steady next (send request fresh_writer) w₁ in
    ProvisionedOnce encoders ascii "t" schema outside queue "https://q"
      (8 ∷ 9 ∷ [])
      first.0
      second.0
      (messages encoders ascii "t" schema outside queue "https://q" start.served)
      (messages encoders ascii "t" schema outside queue "https://q" w₂.served)
    × (first.1 ≡ returned)
    × (second.1 ≡ returned)
provisioned_once_example =
    provisioned_once encoders ascii "t" schema outside queue "https://q" platform plain
      plain-CodecLaws [] 0 steady healthy_steady dates_day 0 window_day request request fresh_writer
      fresh_writer "k1" (7 ∷ []) bucket (8 ∷ 9 ∷ []) start request-IsKeyed request-IsKeyed
      (refl, refl, tt) (refl, refl, tt) bucket-IsProvisionable start_free
