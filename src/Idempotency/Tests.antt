-- ===== src/Idempotency/Tests.antt =====
-- Runs of the middleware at concrete requests, over a codec that keeps the envelope as it is.
mod Examples
mod Interleaved
mod Calls
mod Provisioning
mod Recovery
mod Lost
use internal_developer_platf.Shared.{
  ℕ, String, ◌≡◌, refl, Bool, true, false, ◌||◌, Option, none, some, List, [], ◌∷◌, ◌++◌, length,
  str_eq, str_eq_refl, str_eq_iff, sym, ap, ◌+◌, ◌≤◌, ◌<◌, ◌≢◌, arith,
}
use internal_developer_platf.Http.{
  Request, Script, Writer, Sent, fresh_writer, final_response, set_header, write_header, write,
  returned, panicked, Ending, values, header_get, header_set, apply_ops, apply_op, write_to,
  write_header_to, respond_with_error, Header, ErrorResponse,
}
use internal_developer_platf.Idempotency.Record.{TextMap, lookup, state_in_flight}
use internal_developer_platf.Idempotency.Redis.{
  Envelope, Codec, CodecLaws, Server, update, year_10000, spells_in_flight, Link, healthy,
  lost_reply, exec_set_nx, exec_get, exec_complete, exec_release, transmit,
}
use internal_developer_platf.Idempotency.Program.{Conditions, World, run}
use internal_developer_platf.Idempotency.Store.{redis_store, prefixed, reserve, complete, release}
use internal_developer_platf.Idempotency.Recorder.{
  is_skipped, record_ops, record_op, new_response_recorder, captured_headers,
}
use internal_developer_platf.Idempotency.Middleware.{
  Platform, idempotency_middleware, replay_cached_response, should_cache_response,
}
use internal_developer_platf.Idempotency.Middleware.Once.{IsKeyed}

quoted_in : TextMap → Bool
quoted_in [] = false
quoted_in ((name, value) ∷ entries) =
    spells_in_flight name || spells_in_flight value || quoted_in entries

-- A codec that keeps the envelope, with the search in what encoding/json makes of its texts.
abbrev plain : Codec Envelope
plain = record {
  marshal = λ e. some e;
  unmarshal = λ e. some e;
  finds_quoted =
      λ e word. spells_in_flight e.state || spells_in_flight e.request_hash || quoted_in e.headers;
}

abbrev digest : List ℕ → String
digest [] = "empty"
digest (b ∷ bytes) = "full"

abbrev platform : Platform
platform = record { encode = λ e. 1 ∷ []; is_uuid = λ key. str_eq key "k1"; digest = digest }

abbrev request : Request
request = record {
  method = "POST";
  path = "/v1/provision";
  pattern = "";
  header = ("X-Idempotency-Key", "k1" ∷ []) ∷ ("X-Request-Id", "r1" ∷ []) ∷ [];
  body = some (7 ∷ []);
}

abbrev other_body : Request
other_body = record request { body = some [] }

abbrev accepted : Script
accepted = record {
  ops = set_header "Location" "/x" ∷ write_header 202 ∷ write (5 ∷ 6 ∷ []) ∷ [];
  ending = returned;
}

abbrev broken : Script
broken = record { ops = write_header 503 ∷ []; ending = returned }

abbrev breaks : Script
breaks = record { ops = write_header 202 ∷ []; ending = panicked "boom" }

-- Every command arrives, within one millisecond.
abbrev steady : ℕ → Conditions
steady n = record { link = healthy; server_time = 1; local_time = 1 }

abbrev lossy : ℕ → Conditions
lossy n = record { link = lost_reply; server_time = 1; local_time = 1 }

abbrev empty_server : Server Envelope
empty_server key = none

abbrev start : World Envelope
start = record { commands = 0; server = empty_server; served = [] }

abbrev send : Script → Request → World Envelope → (Writer × Ending) × World Envelope
send answer r w =
    run plain steady (λ r. answer)
      (idempotency_middleware platform (redis_store plain) 100 r fresh_writer) w

-- The entry that stands after a first request, completed or not.
abbrev standing : String → TextMap → Envelope
standing state headers = record {
  state = state;
  request_hash = "full";
  status_code = 202;
  headers = headers;
  body = [];
  created_at = 0;
  expires_at = 90;
}

abbrev holding : Envelope → World Envelope
holding e = record {
  commands = 0;
  server = update empty_server (prefixed "k1") (some (record { value = e; expires = some 90 }));
  served = [];
}

-- Two requests, one after the other, on the same world: the second answer's status and body, and
-- how many requests the handler has served.
twice : Script → Request → Request → ℕ × List ℕ × ℕ
twice answer first second =
    let (again, later) = send answer second (send answer first start).1 in
    ((final_response again.0).status, again.0.body, length later.served)

replayed : twice accepted request request ≡ (202, 5 ∷ 6 ∷ [], 1)
unfolding is_skipped twice idempotency_middleware run reserve complete release exec_set_nx exec_get
    exec_complete exec_release transmit header_get final_response apply_ops apply_op record_ops
    record_op quoted_in spells_in_flight new_response_recorder captured_headers
    replay_cached_response should_cache_response header_set respond_with_error
replayed = refl

mismatched : twice accepted request other_body ≡ (422, 1 ∷ [], 1)
unfolding is_skipped twice idempotency_middleware run reserve complete release exec_set_nx exec_get
    exec_complete exec_release transmit header_get final_response apply_ops apply_op record_ops
    record_op quoted_in spells_in_flight new_response_recorder captured_headers
    replay_cached_response should_cache_response header_set respond_with_error
mismatched = refl

repeated_after_503 : twice broken request request ≡ (503, [], 2)
unfolding is_skipped twice idempotency_middleware run reserve complete release exec_set_nx exec_get
    exec_complete exec_release transmit header_get final_response apply_ops apply_op record_ops
    record_op quoted_in spells_in_flight new_response_recorder captured_headers
    replay_cached_response should_cache_response header_set respond_with_error
repeated_after_503 = refl

spells-word : spells_in_flight state_in_flight ≡ true
unfolding spells_in_flight
spells-word = refl

quoted_in-lookup :
    (name : String) (entries : TextMap)
    → lookup name entries ≡ some state_in_flight
    → quoted_in entries ≡ true
unfolding lookup quoted_in
quoted_in-lookup name [] found = cc
quoted_in-lookup name ((k, v) ∷ entries) found =
    ground (arith, spells-word, quoted_in-lookup name entries)

plain-CodecLaws : CodecLaws plain
plain-CodecLaws = record {
  marshals = λ e created expires. (e, refl);
  round_trip = λ e raw written. (
    raw,
    refl,
    record {
      state = ground arith;
      request_hash = ground arith;
      status_code = ground arith;
      headers = λ name. ap (λ o. lookup name (kept o).headers) (sym written);
      body = ground arith;
      created_at = ground arith;
      expires_at = ground arith;
    },
  );
  quotes_state =
      λ e raw written flying. rw (← ap (λ o. (kept o).state) written, flying, spells-word) refl;
  quotes_headers = λ e raw name written found.
      ground (arith, ap (λ o. (kept o).headers) written, quoted_in-lookup name e.headers);
}
  where
    kept : Option Envelope → Envelope
    kept none = standing "" []
    kept (some e) = e

healthy_steady : (n : ℕ) → (steady n).link ≡ healthy
healthy_steady n = refl

dates_steady : (n : ℕ) → (steady n).local_time + 100 < year_10000
dates_steady n = omega arith

window_steady : (n : ℕ) → (0 ≤ (steady n).server_time) × ((steady n).server_time < 0 + 100)
window_steady n = (omega arith, omega arith)

hundred : ◌≢◌ {A = ℕ} 100 0
hundred = ground arith

request-IsKeyed : IsKeyed platform request "k1" (7 ∷ [])
unfolding header_get
request-IsKeyed = record {
  key_sent = refl;
  key_given = ground (arith, str_eq_iff "k1" "");
  key_valid = refl;
  body_read = refl;
}
