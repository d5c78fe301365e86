-- ===== src/Responses.antt =====
-- responses.c: the answer to a request, from the fields that every answer has to its last chunk.
pub mod Answer
pub mod Reading
mod Tests
use jawas.Base.{
  ℕ, ◌≤◌, ◌+◌, Bool, true, false, ◌||◌, List, [], ◌∷◌, ◌++◌, Option, none, some, Bytes, Str, codes,
  ◌>>=◌,
}
use jawas.Headers.{Headers, new_headers, connection, transfer_encoding, server_name}
use jawas.Files.{File, Cache}
use jawas.Sockets.{Socket, Write, write_chunk}
use jawas.Status.Errors.{Outcome, error_handler}

-- The fields of `response_struct` that an answer uses; `none` is a missing table.
pub record Response : Type 0 where
  pub headers : Option Headers
  pub contents : Str
  pub raw_contents : Option File
  pub status : ℕ

unfoldable pub new_response : Response
unfolding new_headers
new_response = record {
  headers = some new_headers;
  contents = none;
  raw_contents = none;
  status = 200;
}

-- `SERVER_VERSION`.
abbrev pub server_version : Bytes
server_version = codes "Jawas/1.0"

-- The three fields that `begin_response` appends; `none` is a table with no room.
unfoldable pub begin_headers : Headers → Option Headers
begin_headers h = connection h (codes "close") >>= λ h₁.
    transfer_encoding h₁ (codes "chunked") >>= λ h₂. server_name h₂ server_version

abbrev is_some_str : Str → Bool
is_some_str none = false
is_some_str (some _) = true

abbrev is_some_file : Option File → Bool
is_some_file none = false
is_some_file (some _) = true

abbrev pub headers_or_new : Option Headers → Headers
headers_or_new none = new_headers
headers_or_new (some h) = h

-- `client.response->contents || client.response->raw_contents`.
abbrev pub begun : Response → Bool
begun r = is_some_str r.contents || is_some_file r.raw_contents

-- Whether there is anything to send, and the response with its fields.
unfoldable pub begin_response : Response → Option (Bool × Response)
unfolding begin_headers
begin_response r =
    begin_headers (headers_or_new r.headers) >>= λ h. some (begun r, record r { headers = some h })

-- `end_response`: the last chunk.
unfoldable pub end_response : Write → Socket → Socket
end_response write sc = (write_chunk write sc none).1
