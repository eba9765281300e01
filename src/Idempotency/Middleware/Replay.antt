-- ===== src/Idempotency/Middleware/Replay.antt =====
-- idempotency_middleware.go, replayCachedResponse: what the client is sent from a stored record.
use internal_developer_platf.Shared.{
  ℕ, String, ◌≡◌, refl, sym, ◌≢◌, ◌∙◌, false, Option, none, some, List, [], ◌∷◌, arith, str_eq_iff,
  str_eq_ne, if◌then◌else◌, ◌==◌,
}
use internal_developer_platf.Http.{
  Header, Writer, WriterOp, set_header, write_header, apply_op, apply_ops, values, header_set,
  header_get, final_response, sendable, is_informational,
}
use internal_developer_platf.Idempotency.Record.{
  TextMap, lookup, IdempotencyRecord, state_in_flight,
}
use internal_developer_platf.Idempotency.Recorder.Capture.{values-header_set}
use internal_developer_platf.Idempotency.Middleware.{
  Platform, set_all, replay_stored, replay_body, replay_cached_response, idempotency_replay_header,
}

-- The header after every entry of a map is set.
abbrev pub with_map : TextMap → Header → Header
with_map [] header = header
with_map ((name, value) ∷ entries) header = header_set name value (with_map entries header)

abbrev pub stored_or : Option String → List String → List String
stored_or none old = old
stored_or (some value) old = value ∷ []

apply_ops-set_all :
    (w : Writer) (entries : TextMap) (rest : List WriterOp)
    → apply_ops w (set_all entries rest)
      ≡ apply_ops (record w { header = with_map entries w.header }) rest
unfolding set_all apply_ops apply_op
apply_ops-set_all w [] rest = refl
apply_ops-set_all w ((name, value) ∷ entries) rest =
    apply_ops-set_all w entries (set_header name value ∷ rest)

values-with_map :
    (name : String) (entries : TextMap) (header : Header)
    → values name (with_map entries header) ≡ stored_or (lookup name entries) (values name header)
unfolding lookup
values-with_map name [] header = refl
values-with_map name ((key, value) ∷ entries) header = ground (
  arith,
  values-header_set name key value (with_map entries header),
  values-with_map name entries header,
)

module _ (platform : Platform) where
  replay_ops-body :
      (v : Writer) (status : ℕ) (bytes : List ℕ)
      → v.sent ≡ none
      → v.body ≡ []
      → is_informational status ≡ false
      → apply_ops v (write_header status ∷ replay_body platform bytes) ≡ record v {
        sent = some (record { status = status; header = v.header });
        body = sendable status bytes;
      }
  unfolding apply_ops apply_op replay_body sendable
  replay_ops-body v status [] sent body final = ground arith
  replay_ops-body v status (b ∷ bytes) sent body final = ground arith

status_or_ok : (status : ℕ) → status ≢ 0 → (if status == 0 then 200 else status) ≡ status
status_or_ok status h = ground arith

-- The response to a replay of `existing`.
pub record Replays (existing : IdempotencyRecord) (w sent : Writer) : Type 0 where
  pub status : (final_response sent).status ≡ existing.status_code
  pub body : sent.body ≡ sendable existing.status_code existing.body
  pub marked : header_get idempotency_replay_header (final_response sent).header ≡ "true"
  pub header :
      (name : String)
      → name ≢ idempotency_replay_header
      → values name (final_response sent).header
        ≡ stored_or (lookup name existing.headers) (values name w.header)

abbrev replay_header : IdempotencyRecord → Writer → Header
replay_header existing w =
    header_set idempotency_replay_header "true" (with_map existing.headers w.header)

abbrev replay_result : IdempotencyRecord → Writer → Writer
replay_result existing w = record {
  header = replay_header existing w;
  sent = some (record { status = existing.status_code; header = replay_header existing w });
  body = sendable existing.status_code existing.body;
}

replay_result-Replays :
    (existing : IdempotencyRecord) (w : Writer) → Replays existing w (replay_result existing w)
unfolding final_response header_get
replay_result-Replays existing w = record {
  status = refl;
  body = refl;
  marked =
      rw
        (values-header_set idempotency_replay_header idempotency_replay_header "true"
          (with_map existing.headers w.header))
        refl;
  header = λ name other.
      values-header_set name idempotency_replay_header "true" (with_map existing.headers w.header)
      ∙ rw (str_eq_ne idempotency_replay_header name (λ e. other (sym e)))
          (values-with_map name existing.headers w.header);
}

module _ (platform : Platform) where
  replay_stored-result :
      (existing : IdempotencyRecord) (w : Writer)
      → existing.status_code ≢ 0
      → is_informational existing.status_code ≡ false
      → w.sent ≡ none
      → w.body ≡ []
      → apply_ops w (replay_stored platform existing) ≡ replay_result existing w
  unfolding replay_stored
  replay_stored-result existing w status final sent body =
      rw (status_or_ok existing.status_code status) (
        apply_ops-set_all w existing.headers (
          set_header idempotency_replay_header "true"
          ∷ write_header existing.status_code
          ∷ replay_body platform existing.body)
        ∙ (unfold apply_ops apply_op in
            replay_ops-body platform (record w { header = replay_header existing w })
              existing.status_code existing.body sent body final))

  -- A record that is not in flight and has the request's hash is replayed: its status, its body where
  -- the status allows one, its headers, and the header that marks a replay.
  pub replay_cached_response-Replays :
      (existing : IdempotencyRecord) (w : Writer) (request_hash request_id : String)
      → existing.request_hash ≡ request_hash
      → existing.state ≢ state_in_flight
      → existing.status_code ≢ 0
      → is_informational existing.status_code ≡ false
      → w.sent ≡ none
      → w.body ≡ []
      → Replays existing w
          (apply_ops w (replay_cached_response platform (some existing) request_hash request_id))
  unfolding replay_cached_response
  replay_cached_response-Replays existing w request_hash request_id same state status final sent
        body =
      rw
        (
          (str_eq_iff existing.request_hash request_hash).1 same,
          str_eq_ne existing.state state_in_flight state,
          replay_stored-result existing w status final sent body,
        )
        (replay_result-Replays existing w)
