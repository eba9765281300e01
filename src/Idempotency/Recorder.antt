-- ===== src/Idempotency/Recorder.antt =====
-- services/api/internal/adapters/inbound/http/idempotency_middleware.go: responseRecorder, which
-- writes through to the client's writer and keeps a copy.
pub mod Mirror
pub mod Capture
use internal_developer_platf.Shared.{
  ℕ, String, Bool, true, false, ◌||◌, List, [], ◌∷◌, ◌++◌, str_eq, if◌then◌else◌,
}
use internal_developer_platf.Http.{
  Header, Writer, WriterOp, set_header, write_header, write, apply_op,
}
use internal_developer_platf.Idempotency.Record.{TextMap}

pub record ResponseRecorder : Type 0 where
  pub writer : Writer
  pub status : ℕ
  pub body : List ℕ
  pub wrote_header : Bool

unfoldable pub new_response_recorder : Writer → ResponseRecorder
new_response_recorder w = record { writer = w; status = 200; body = []; wrote_header = false }

-- responseRecorder.WriteHeader
unfoldable pub recorder_write_header : ℕ → ResponseRecorder → ResponseRecorder
recorder_write_header status r = if r.wrote_header then r else (record {
  writer = apply_op r.writer (write_header status);
  status = status;
  body = r.body;
  wrote_header = true;
})

-- responseRecorder.Write
unfoldable pub recorder_write : List ℕ → ResponseRecorder → ResponseRecorder
unfolding recorder_write_header
recorder_write bytes r =
    let s = if r.wrote_header then r else recorder_write_header 200 r in
    record s { body = s.body ++ bytes; writer = apply_op s.writer (write bytes) }

-- One operation of a handler that was given the recorder: Header() is that of the writer within.
unfoldable pub record_op : ResponseRecorder → WriterOp → ResponseRecorder
unfolding recorder_write_header recorder_write
record_op r (set_header name value) = record r {
  writer = apply_op r.writer (set_header name value);
}
record_op r (write_header status) = recorder_write_header status r
record_op r (write bytes) = recorder_write bytes r

unfoldable pub record_ops : ResponseRecorder → List WriterOp → ResponseRecorder
record_ops r [] = r
record_ops r (op ∷ ops) = record_ops (record_op r op) ops

-- The header names that a replay leaves out.
unfoldable pub is_skipped : String → Bool
is_skipped name =
    str_eq name "Date"
    || str_eq name "X-Request-Id"
    || str_eq name "X-Response-Time"
    || str_eq name "Content-Length"
    || str_eq name "Transfer-Encoding"
    || str_eq name "Connection"

capture_values : String → List String → TextMap → TextMap
capture_values name [] out = out
capture_values name (v ∷ vs) out = (name, v) ∷ out

-- responseRecorder.capturedHeaders, over the header's list of names.
unfoldable pub captured : Header → TextMap
unfolding capture_values
captured [] = []
captured ((name, vs) ∷ header) =
    let out = captured header in if is_skipped name then out else capture_values name vs out

unfoldable pub captured_headers : ResponseRecorder → TextMap
unfolding captured
captured_headers r = captured r.writer.header
