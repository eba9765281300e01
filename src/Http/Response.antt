-- ===== src/Http/Response.antt =====
-- net/http's response writer, as far as the handlers under services/api/internal/adapters use it:
-- a header map, the first status sent, and the body.
-- What Write and WriteHeader report is left out, since no handler looks at it, and so is a status
-- below 100 or above 999, on which WriteHeader panics.
-- Header names are written in their canonical form, which Header.Get and Header.Set bring them to.
use internal_developer_platf.Shared.{
  ℕ, String, Bool, ◌&&◌, not, Option, none, some, List, [], ◌∷◌, ◌++◌, ltb, leb, ◌==◌,
  if◌then◌else◌, str_eq,
}

abbrev pub Header : Type 0
Header = List (String × List String)

-- Header.Values: the values stored under a name.
unfoldable pub values : String → Header → List String
values name [] = []
values name ((key, vs) ∷ header) = if str_eq key name then vs else values name header

abbrev pub first_value : List String → String
first_value [] = ""
first_value (v ∷ vs) = v

-- Header.Get: the first value, or the empty text.
unfoldable pub header_get : String → Header → String
unfolding values
header_get name header = first_value (values name header)

-- Header.Set: replaces whatever is stored under the name.
unfoldable pub header_set : String → String → Header → Header
header_set name value [] = (name, value ∷ []) ∷ []
header_set name value ((key, vs) ∷ header) =
    if str_eq key name then (key, value ∷ []) ∷ header else (key, vs) ∷ header_set name value header

-- What a handler does to its http.ResponseWriter.
pub data WriterOp : Type 0 where
  set_header : String → String → WriterOp
  write_header : ℕ → WriterOp
  write : List ℕ → WriterOp

-- How a handler ends.
pub data Ending : Type 0 where
  returned : Ending
  panicked : String → Ending

pub record Script : Type 0 where
  pub ops : List WriterOp
  pub ending : Ending

-- What has been sent: the status line with the header as it stood then.
pub record Sent : Type 0 where
  pub status : ℕ
  pub header : Header

pub record Writer : Type 0 where
  pub header : Header
  pub sent : Option Sent
  pub body : List ℕ

-- A status from 100 to 199, but for 101, is an informational response: the final one is to come.
abbrev pub is_informational : ℕ → Bool
is_informational status = leb 100 status && ltb status 200 && not (status == 101)

abbrev commit : ℕ → Writer → Writer
commit status w = record w { sent = some (record { status = status; header = w.header }) }

unfoldable pub write_header_to : ℕ → Writer → Option Sent → Writer
write_header_to status w (some sent) = w
write_header_to status w none = if is_informational status then w else commit status w

-- bodyAllowedForStatus of net/http: with 204, 304 and below 200 Write sends nothing and returns an
-- error.
abbrev pub allows_body : ℕ → Bool
allows_body status = leb 200 status && not (status == 204) && not (status == 304)

-- What Write sends of some bytes under a status.
unfoldable pub sendable : ℕ → List ℕ → List ℕ
sendable status bytes = if allows_body status then bytes else []

unfoldable pub write_to : List ℕ → Writer → Option Sent → Writer
unfolding sendable
write_to bytes w (some sent) = record w { body = w.body ++ sendable sent.status bytes }
write_to bytes w none = record (commit 200 w) { body = w.body ++ bytes }

unfoldable pub apply_op : Writer → WriterOp → Writer
unfolding write_header_to write_to
apply_op w (set_header name value) = record w { header = header_set name value w.header }
apply_op w (write_header status) = write_header_to status w w.sent
apply_op w (write bytes) = write_to bytes w w.sent

unfoldable pub apply_ops : Writer → List WriterOp → Writer
apply_ops w [] = w
apply_ops w (op ∷ ops) = apply_ops (apply_op w op) ops

-- What the client has when the handler has returned: a writer that sent nothing sends 200.
abbrev finish_sent : Header → Option Sent → Sent
finish_sent header none = record { status = 200; header = header }
finish_sent header (some sent) = sent

unfoldable pub final_response : Writer → Sent
final_response w = finish_sent w.header w.sent

abbrev pub fresh_writer : Writer
fresh_writer = record { header = []; sent = none; body = [] }
