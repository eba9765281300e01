-- ===== src/Api/Provisioning.antt =====
-- POST /v1/provision from the router to the queue: the idempotency middleware over Redis, Provision,
-- the resource service and the SQS publisher.
use internal_developer_platf.Shared.{
  ℕ, ◌+◌, ◌≤◌, ◌<◌, String, ◌≡◌, refl, sym, ap, ◌∙◌, ◌≢◌, true, none, some, List, [], ◌∷◌, ◌++◌,
  append_assoc, ok, arith,
}
use internal_developer_platf.Text.{CaseTables}
use internal_developer_platf.Http.{
  Request, Script, Writer, returned, apply_ops, apply_op, write_header_to, write_to, final_response,
}
use internal_developer_platf.DomainErrors.{nil_error, is_nil}
use internal_developer_platf.Handlers.Validation.{decode_and_validate, validate_struct}
use internal_developer_platf.Handlers.Responses.{
  Resource, Encoders, respond_with_json, new_api_response, get_request_id,
}
use internal_developer_platf.Handlers.{Schema, Handled, provision}
use internal_developer_platf.Services.{ResourcePublisher, send_provisioning_request}
use internal_developer_platf.Services.Publish.{Outside, Broker, SendMessageInput, publish_sqs}
use internal_developer_platf.Services.Publish.Delivery.{SentSqs, Publishes, publish_lem}
use internal_developer_platf.Idempotency.Redis.{Codec, CodecLaws, healthy, year_10000}
use internal_developer_platf.Idempotency.Program.{Conditions, World, run}
use internal_developer_platf.Idempotency.Store.{redis_store}
use internal_developer_platf.Idempotency.Store.Runs.{slot}
use internal_developer_platf.Idempotency.Middleware.{Platform}
use internal_developer_platf.Idempotency.Middleware.Once.{IsKeyed}
use internal_developer_platf.Idempotency.Middleware.Retry.{
  IsFresh, IsCacheable, RepeatsAnswer, retry_is_replayed,
}
use internal_developer_platf.Api.{
  RouterConfig, ttl_or_day, provision_route, guarded, provisioning, provision_script,
}

-- The router's configuration in the cloud: with the Redis store.
abbrev pub redis_config : {Raw : Type 0} → Codec Raw → List String → ℕ → RouterConfig Raw
redis_config codec allowed_origins ttl = record {
  allowed_origins = allowed_origins;
  idempotency_store = some (redis_store codec);
  idempotency_ttl = ttl;
  has_metrics_handler = true;
}

ttl_or_day_pos : (ttl : ℕ) → ttl_or_day ttl ≢ 0
unfolding ttl_or_day
ttl_or_day_pos ttl = ground arith

module _ (json : Encoders) (tables : CaseTables) (now : String) (schema : Schema Resource)
    (outside : Outside) (broker : Broker SendMessageInput) (queue_url : String) where
  -- The publisher of the resource service, the handler over it and its script.
  abbrev pub publisher : ResourcePublisher
  publisher r = (publish_sqs outside broker queue_url r).error

  abbrev pub handled : Request → Handled Resource
  handled = provisioning json tables now schema publisher

  abbrev pub handler : Request → Script
  handler = provision_script json tables now schema publisher

  -- What the calls of the service send.
  abbrev pub sent_for : List Resource → List SendMessageInput
  sent_for [] = []
  sent_for (r ∷ resources) = (publish_sqs outside broker queue_url r).sent ++ sent_for resources

  -- What the handler sends for the requests that it serves, in order.
  abbrev pub messages : List Request → List SendMessageInput
  messages [] = []
  messages (request ∷ requests) = sent_for (handled request).calls ++ messages requests

  messages-append :
      (requests more : List Request)
      → messages (requests ++ more) ≡ messages requests ++ messages more
  messages-append [] more = refl
  messages-append (request ∷ requests) more =
      ap (λ rest. sent_for (handled request).calls ++ rest) (messages-append requests more)
      ∙ sym (append_assoc (sent_for (handled request).calls) (messages requests) (messages more))

  -- A body that decodes to a valid resource, which marshals, and a queue that takes every message.
  pub record IsProvisionable (body : List ℕ) (resource : Resource) (encoded : List ℕ) : Type 0 where
    pub decoded : schema.decode body ≡ some resource
    pub valid : schema.check resource ≡ []
    pub marshalled : outside.marshal resource ≡ ok encoded
    pub taken : (input : SendMessageInput) → broker input ≡ nil_error

  -- One message for the resource is on the queue.
  abbrev pub Delivered : List ℕ → List SendMessageInput → Type 0
  Delivered encoded sent =
      (message : SendMessageInput) × (sent ≡ message ∷ [])
      × SentSqs outside queue_url encoded message

  -- The bytes of the answer to an accepted request.
  abbrev pub accepted_bytes : Request → List ℕ
  accepted_bytes request = json.accepted (
      new_api_response now
        (record {
          message = "Request accepted for processing";
          request_id = get_request_id request.header;
          status = "ACCEPTED";
          track_url = "";
        })
        (get_request_id request.header))

  module _ (request : Request) (body : List ℕ) (resource : Resource) (encoded : List ℕ)
      (read : request.body ≡ some body) (good : IsProvisionable body resource encoded) where
    delivers :
        Publishes
          (SentSqs outside queue_url)
          broker
          (ok encoded)
          (publish_sqs outside broker queue_url resource)
    delivers =
        rw good.marshalled at (publish_lem outside resource (λ m. nil_error) broker queue_url).1

    published : publisher resource ≡ nil_error
    published = rw (good.taken delivers.0) at delivers.3

    accepted : handled request ≡ record {
      calls = resource ∷ [];
      logs = [];
      ops = respond_with_json 202 (some (accepted_bytes request));
    }
    unfolding provisioning provision send_provisioning_request decode_and_validate validate_struct
        is_nil
    accepted = rw (read, good.decoded, good.valid, published) refl

    accepted_status :
        (out : Writer)
        → out.sent ≡ none
        → (final_response (apply_ops out (handler request).ops)).status ≡ 202
    unfolding provision_script respond_with_json apply_ops apply_op write_header_to write_to
        final_response
    accepted_status out unsent = rw (accepted, unsent) refl

    accepted-IsCacheable : (out : Writer) → out.sent ≡ none → IsCacheable out (handler request)
    unfolding provision_script respond_with_json
    accepted-IsCacheable out unsent = record {
      ends = refl;
      final = rw accepted (tt, (refl, (tt, tt)));
      low = omega (arith, accepted_status out unsent);
      high = omega (arith, accepted_status out unsent);
    }

    sent_once : Delivered encoded (messages (request ∷ []))
    sent_once = rw accepted (delivers.0, rw delivers.1 refl, delivers.2)

  -- Where each of two requests ends: the first is answered with 202, the second is answered alike,
  -- and the queue has one message more, for the resource.
  pub record ProvisionedOnce (encoded : List ℕ) (first second : Writer)
      (before after : List SendMessageInput) : Type 0 where
    pub accepted_first : (final_response first).status ≡ 202
    pub repeated : RepeatsAnswer first second
    pub queue :
        (message : SendMessageInput) × (after ≡ before ++ message ∷ [])
        × SentSqs outside queue_url encoded message

  module _ (platform : Platform) {Raw : Type 0} (codec : Codec Raw) (laws : CodecLaws codec)
      (origins : List String) (ttl : ℕ) (conditions : ℕ → Conditions)
      (healthy_link : (n : ℕ) → (conditions n).link ≡ healthy)
      (dates : (n : ℕ) → (conditions n).local_time + ttl_or_day ttl < year_10000) (base : ℕ)
      (window : (n : ℕ)
        → (base ≤ (conditions n).server_time)
          × ((conditions n).server_time < base + ttl_or_day ttl)) where
    -- POST /v1/provision over Redis and SQS. A request with a free key, whose body decodes to a
    -- valid resource that marshals, is sent twice with that key and body, where the queue takes
    -- every message, every command of the two requests to Redis arrives, the server's clock stays
    -- within the time to live (a day where the configuration has 0), and the dates can be written.
    -- The first answer has the status 202 and the second repeats it, both requests return, and
    -- together they put exactly one message on the queue: the resource's bytes, to the queue's URL,
    -- with the trace that the consumer reads.
    pub provisioned_once :
        (request repeated : Request) (out again_out : Writer) (key : String) (body : List ℕ)
        (resource : Resource) (encoded : List ℕ) (w : World Raw)
        → IsKeyed platform request key body
        → IsKeyed platform repeated key body
        → IsFresh out
        → IsFresh again_out
        → IsProvisionable body resource encoded
        → slot conditions w key ≡ none
        → let send = provision_route platform (redis_config codec origins ttl) in
          let (first, w₁) = run codec conditions handler (send request out) w in
          let (second, w₂) = run codec conditions handler (send repeated again_out) w₁ in
          ProvisionedOnce encoded first.0 second.0 (messages w.served) (messages w₂.served)
          × (first.1 ≡ returned)
          × (second.1 ≡ returned)
    unfolding provision_route guarded
    provisioned_once request repeated out again_out key body resource encoded w keyed again fresh
          again_fresh good free =
        let replayed =
          retry_is_replayed platform codec laws (ttl_or_day ttl) conditions handler healthy_link
            dates base window (ttl_or_day_pos ttl) request repeated out again_out key body w keyed
            again fresh again_fresh
            (accepted-IsCacheable request body resource encoded keyed.body_read good out fresh.0)
            free in
        let sent = sent_once request body resource encoded keyed.body_read good in
        (
          record {
            accepted_first =
                ap (λ answer. (final_response answer.0).status) replayed.0
                ∙ accepted_status request body resource encoded keyed.body_read good out fresh.0;
            repeated = rw replayed.0 replayed.1;
            queue = (
              sent.0,
              ap messages replayed.3
                  ∙ messages-append w.served (request ∷ [])
                  ∙ ap (λ more. messages w.served ++ more) sent.1,
              sent.2,
            );
          },
          ap (λ answer. answer.1) replayed.0,
          replayed.2,
        )
