-- ===== src/Requests/Building.antt =====
-- requests.c, the functions that build a request, and lws.c, `PostHTTPLua`: a request that a script makes to
-- another server.
pub mod Posted
mod Tests
use jawas.Base.{
  ℕ, Bool, true, false, List, [], ◌∷◌, Option, none, some, ltb, if◌then◌else◌, length, Bytes, Str,
  text, codes, ◌>>=◌,
}
use jawas.Str.{apart, append, len, icmp}
use jawas.Files.{File}
use jawas.Headers.{Headers, new_headers, append_header}
use jawas.Sockets.{Socket, Write}
use jawas.Requests.{parse_host}
use jawas.Requests.Sending.{Outgoing, send_request}

-- The fields of `request_struct` that a script sets: what is sent, whether TLS is asked for, and the script to
-- call.
pub record Made : Type 0 where
  pub outgoing : Outgoing
  pub ssl : Bool
  pub cb : Str

unfoldable pub new_request : Str → Str → Str → Made
unfolding new_headers
new_request method host path =
    let (name, port) = parse_host host in
    record {
      outgoing = record {
        method = method;
        host = name;
        port = port;
        path = path;
        headers = new_headers;
        contents = none;
        raw_contents = none;
        expected = none;
        written = 0;
        socket = none;
      };
      ssl = false;
      cb = none;
    }

abbrev pub request_port : Made → ℕ → Made
request_port req port = record req { outgoing = record req.outgoing { port = port } }

abbrev pub request_ssl : Made → Made
request_ssl req = record req { ssl = true }

abbrev pub with_outgoing : Made → Outgoing → Made
with_outgoing req o = record req { outgoing = o }

-- `none` is a table with no room.
unfoldable pub request_headers : Made → Str → Str → Option Made
request_headers req key value = append_header (some req.outgoing.headers) key value >>= λ h.
    some (with_outgoing req (record req.outgoing { headers = h }))

unfoldable pub request_data : Made → Str → Made
request_data req more =
    if ltb 0 (len more)
    then with_outgoing req
        (record req.outgoing { contents = some (append apart req.outgoing.contents (text more)) })
    else req

abbrev pub request_file : Made → Option File → Made
request_file req fc = with_outgoing req (record req.outgoing { raw_contents = fc })

abbrev pub request_callback : Made → Str → Made
request_callback req cb = record req { cb = cb }

-- The loop of `PostHTTPLua` over the fields of a Lua table, in the order in which `lua_next` gives them.
unfoldable pub request_fields : Made → List (Str × Str) → Option Made
unfolding request_headers
request_fields req [] = some req
request_fields req ((key, value) ∷ rest) =
    request_headers req key value >>= λ req'. request_fields req' rest

module _ (write : Write) (connect : Str → ℕ → Bool → Option Socket) where
  -- `PostHTTPLua`, up to the jump back to the page, whose answer gets the status 0.
  unfoldable pub post_http :
      (proto host path : Str) (fields : List (Str × Str)) (body callback : Str) → Option Made
  unfolding request_fields request_data new_request
  post_http proto host path fields body callback =
      let fresh = new_request (some (codes "POST")) host path in
      let req = if icmp (some (codes "https")) proto then request_ssl fresh else fresh in
      request_fields req fields >>= λ req₁.
      let req₂ = request_callback (request_data req₁ body) callback in
      send_request write connect req₂.outgoing >>= λ (again, o). some (with_outgoing req₂ o)
