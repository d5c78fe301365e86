-- ===== src/Responses/Reading.antt =====
-- responses.c, `process_response`: what a readable event does to the answer of another server.
pub mod Message
use jawas.Base.{
  ℕ, ◌-◌, Bool, false, Option, none, some, ◌==◌, ◌++◌, if◌then◌else◌, length, List, Str, text,
  ◌>>=◌,
}
use jawas.Str.{from}
use jawas.Headers.{Headers}
use jawas.Headers.Parse.{Parsed, null, parsed, running, parse_headers}
use jawas.Sockets.{Read, read_socket}
use jawas.Transfer.{is_chunked, dechunk, inbound_content_length}
use jawas.Requests.Process.{int_ge}

-- The fields of `response_struct` that reading uses.
pub record Incoming : Type 0 where
  pub contents : Str
  pub headers : Option Headers
  pub body : ℕ
  pub done : Bool

-- `process_response` returns -1 or 0, or a loop in it does not end.
pub data Reply : Type 0 where
  failed : Incoming → Reply
  continues : Incoming → Reply
  stuck : Reply

-- `dechunk_response`.
unfoldable pub dechunk_response : ℕ → Incoming → Option Incoming
dechunk_response fuel r =
    let short = dechunk fuel (text r.contents) >>= λ con.
    some (record r { contents = some (from (text r.contents) 0 r.body ++ con) }) in
    if is_chunked r.headers then short else some r

-- The test that sets `done`, whose right side is read only if the body is known.
unfoldable pub response_done : ℕ → Incoming → Option Incoming
response_done fuel r =
    let known = inbound_content_length fuel r.contents r.headers >>= λ wanted.
    some (record r { done = int_ge (length (text r.contents) - r.body) wanted }) in
    if r.body == 0 then some (record r { done = false }) else known

abbrev pub settled : Option Incoming → Reply
settled none = stuck
settled (some r) = continues r

abbrev pub finish : ℕ → Reply → Reply
finish fuel (continues r) = settled (
    response_done fuel r >>= λ q.
    let short = dechunk_response fuel q in if q.done then short else some q)
finish fuel p = p

abbrev body_or : Option ℕ → ℕ → ℕ
body_or (some b) old = b
body_or none old = old

abbrev pub after_parse : Incoming → Parsed → Reply
after_parse r null = failed (record r { headers = none })
after_parse r (parsed h body) =
    continues (record r { headers = some h; body = body_or body r.body })
after_parse r running = stuck

abbrev pub received : ℕ → Incoming → Str → Reply
received fuel r none = failed (record r { contents = none })
received fuel r (some c) =
    let first = after_parse (record r { contents = some c }) (parse_headers (some c)) in
    finish fuel (if r.body == 0 then first else continues (record r { contents = some c }))

-- `buf` is what the socket has read before.
unfoldable pub process_response : ℕ → List Read → Str → Incoming → Reply
process_response fuel replies buf r = received fuel r (read_socket replies buf)
