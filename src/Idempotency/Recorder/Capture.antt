-- ===== src/Idempotency/Recorder/Capture.antt =====
-- idempotency_middleware.go: capturedHeaders, and the headers that a replay sets.
use internal_developer_platf.Shared.{
  String, ◌≡◌, refl, Option, none, some, List, [], ◌∷◌, arith, str_eq, str_eq_iff, Bool, false,
  ◌||◌, ◌∙◌, Bool-cases, inl, inr, if◌then◌else◌,
}
use internal_developer_platf.Http.{
  Header, Writer, WriterOp, set_header, write_header, write, apply_op, apply_ops, values,
  header_set,
}
use internal_developer_platf.Idempotency.Record.{lookup}
use internal_developer_platf.Idempotency.Recorder.{
  ResponseRecorder, captured, captured_headers, is_skipped,
}

abbrev pub has_name : String → Header → Bool
has_name name [] = false
has_name name ((key, vs) ∷ header) = str_eq key name || has_name name header

-- A header is a Go map: each name stands once.
abbrev pub IsUnique : Header → Type 0
IsUnique [] = Unit
IsUnique ((name, vs) ∷ header) = (has_name name header ≡ false) × IsUnique header

header_set-has_name :
    (name key value : String) (header : Header)
    → str_eq key name ≡ false
    → has_name name (header_set key value header) ≡ has_name name header
unfolding header_set
header_set-has_name name key value [] other = ground arith
header_set-has_name name key value ((k, vs) ∷ header) other =
    ground (arith, header_set-has_name name key value header other)

pub header_set-IsUnique :
    (name value : String) (header : Header)
    → IsUnique header
    → IsUnique (header_set name value header)
unfolding header_set
header_set-IsUnique name value [] h = (refl, tt)
header_set-IsUnique name value ((key, vs) ∷ header) (once, more) =
    elim (Bool-cases (str_eq key name)) [
      | inl same ↦ rw same (once, more)
      | inr other ↦ rw other (
        header_set-has_name key name value header
              (ground (arith, str_eq_iff key name, str_eq_iff name key))
            ∙ once,
        header_set-IsUnique name value header more,
      )
    ]

pub values-header_set :
    (name key value : String) (header : Header)
    → values name (header_set key value header)
      ≡ (if str_eq key name then value ∷ [] else values name header)
unfolding values header_set
values-header_set name key value [] = refl
values-header_set name key value ((k, vs) ∷ header) = ground (
  arith,
  str_eq_iff key name,
  str_eq_iff k name,
  str_eq_iff k key,
  values-header_set name key value header,
)

abbrev pub head? : List String → Option String
head? [] = none
head? (v ∷ vs) = some v

-- The names that belong to one response, and are not replayed.
abbrev pub per_response_names : List String
per_response_names =
    "Date" ∷ "X-Request-Id" ∷ "X-Response-Time" ∷ "Content-Length" ∷ "Transfer-Encoding"
    ∷ "Connection" ∷ []

abbrev pub is_one_of : String → List String → Bool
is_one_of name [] = false
is_one_of name (n ∷ names) = str_eq name n || is_one_of name names

is_skipped_lem : (name : String) → is_skipped name ≡ is_one_of name per_response_names
unfolding is_skipped
is_skipped_lem name = ground arith

lookup-unnamed :
    (name : String) (header : Header)
    → has_name name header ≡ false
    → lookup name (captured header) ≡ none
unfolding lookup captured
lookup-unnamed name [] unnamed = refl
lookup-unnamed name ((key, []) ∷ header) unnamed = ground (arith, lookup-unnamed name header)
lookup-unnamed name ((key, v ∷ vs) ∷ header) unnamed = ground (arith, lookup-unnamed name header)

lookup-captured :
    (name : String) (header : Header)
    → IsUnique header
    → lookup name (captured header) ≡ (if is_skipped name then none else head? (values name header))
unfolding lookup captured values
lookup-captured name [] h = ground arith
lookup-captured name ((key, []) ∷ header) (once, more) =
    ground (arith, str_eq_iff key name, lookup-captured name header, lookup-unnamed key header)
lookup-captured name ((key, v ∷ vs) ∷ header) (once, more) =
    ground (arith, str_eq_iff key name, lookup-captured name header)

-- A map that was captured holds, for each name, the first value of the header under that name, if it
-- has one, but nothing for Date, X-Request-Id, X-Response-Time, Content-Length, Transfer-Encoding and
-- Connection. A header is a Go map, in which each name stands once.
pub captured_headers_lem :
    (r : ResponseRecorder) (name : String)
    → IsUnique r.writer.header
    → lookup name (captured_headers r)
      ≡ (if is_one_of name per_response_names then none else head? (values name r.writer.header))
unfolding captured_headers
captured_headers_lem r name h = rw (← is_skipped_lem name) (lookup-captured name r.writer.header h)

apply_op-IsUnique :
    (w : Writer) (op : WriterOp) → IsUnique w.header → IsUnique (apply_op w op).header
unfolding apply_op
apply_op-IsUnique w (set_header name value) h = header_set-IsUnique name value w.header h
apply_op-IsUnique w (write_header status) h = ground arith
apply_op-IsUnique w (write bytes) h = ground arith

pub apply_ops-IsUnique :
    (w : Writer) (ops : List WriterOp) → IsUnique w.header → IsUnique (apply_ops w ops).header
unfolding apply_ops
apply_ops-IsUnique w [] h = h
apply_ops-IsUnique w (op ∷ ops) h =
    apply_ops-IsUnique (apply_op w op) ops (apply_op-IsUnique w op h)
