-- ===== src/Requests/Sending.antt =====
-- requests.c, `send_request`, and client.c, `write_request`: a request that a page sends to another
-- server, piece by piece as its socket can be written.
pub mod Head
pub mod Body
pub mod Whole
mod Tests
use jawas.Base.{
  ℕ, zero, suc, ◌+◌, Bool, true, false, ◌&&◌, ◌||◌, [], ◌∷◌, Option, none, some, ltb, leb,
  if◌then◌else◌, length, Bytes, Str, codes, ◌>>=◌,
}
use jawas.Format.{str, new_str}
use jawas.Headers.{Headers, append_header}
use jawas.Files.{File}
use jawas.Sockets.{
  Socket, Write, write_socket, write_chunk, send_contents, send_raw_contents, send_headers,
}
use jawas.Transfer.{is_chunked, outbound_content_length}

-- The fields of `request_struct` that sending uses. `expected` is its `length`, with `none` for -1.
pub record Outgoing : Type 0 where
  pub method : Str
  pub host : Str
  pub port : ℕ
  pub path : Str
  pub headers : Headers
  pub contents : Str
  pub raw_contents : Option File
  pub expected : Option ℕ
  pub written : ℕ
  pub socket : Option Socket

abbrev pub has_contents : Outgoing → Bool
has_contents r = elim r.contents [
  | some c ↦ true
  | none ↦ elim r.raw_contents [ some f ↦ true | none ↦ false ]
]

-- `connect` is `connect_socket`, by the host, the port and whether TLS is to be used.
module _ (write : Write) (connect : Str → ℕ → Bool → Option Socket) where
  -- The request line and the fields, with the host; whether there is more to send.
  unfoldable pub send_head : Socket → Outgoing → Option (Bool × Outgoing)
  send_head sc r = new_str (codes "%s %s HTTP/1.1\r\n") (str r.method ∷ str r.path ∷ []) >>= λ cmd.
      append_header (some r.headers) (some (codes "Host")) r.host >>= λ h.
      let (_, sc₁) = write_socket write sc (some cmd) in
      let (_, sc₂) = send_headers write sc₁ (some h) in
      some (
        has_contents r,
        record r {
          headers = h;
          socket = some sc₂;
          expected = some (outbound_content_length r.contents r.raw_contents);
        },
      )

  -- The contents at once, or a piece of the file.
  unfoldable pub send_piece : Socket → Outgoing → ℕ × Socket
  send_piece sc r = elim r.contents [
    | some c ↦ send_contents write sc (some c) (is_chunked (some r.headers))
    | none ↦ elim r.raw_contents [
      | some f ↦ send_raw_contents write sc (some f.contents) r.written false
      | none ↦ (0, sc)
    ]
  ]

  -- The body, of which `l` bytes are expected.
  unfoldable pub send_body : Socket → ℕ → Outgoing → Bool × Outgoing
  unfolding send_piece
  send_body sc l r =
      let (n, sc₁) = send_piece sc r in
      let total = r.written + n in
      let sc₂ =
        if is_chunked (some r.headers) && leb l total
        then (write_chunk write sc₁ none).1
        else sc₁ in
      (ltb total l, record r { written = total; socket = some sc₂ })

  -- `send_request`: whether it is to be called again. `none` is a table with no room, or a part that is
  -- NULL, which the formatter reads through.
  unfoldable pub send_request : Outgoing → Option (Bool × Outgoing)
  unfolding send_head send_body
  send_request r = elim r.socket [
    | none ↦ elim (connect r.host r.port false) [
      | none ↦ some (false, r)
      | some sc ↦ some (false, record r { socket = some sc })
    ]
    | some sc ↦ elim r.expected [ none ↦ send_head sc r | some l ↦ some (send_body sc l r) ]
  ]

  -- `write_request` at one writable event after another, up to the event that waits for the answer.
  -- `none` is also that this has not come within the fuel.
  unfoldable pub write_requests : ℕ → Outgoing → Option Outgoing
  write_requests zero r = none
  write_requests (suc fuel) r = send_request r >>= λ (again, r').
      let rest = write_requests fuel r' in if again then rest else some r'
