-- ===== src/Responses/Tests.antt =====
-- Runs of responses.c, and the instance of its theorem.
use jawas.Base.{Bool, true, none, false, [], ◌∷◌, some, ◌≡◌, refl, codes, ◌>>=◌}
use jawas.Str.{cmp, icmp}
use jawas.Numbers.{str_int}
use jawas.Headers.{
  find_header, new_headers, key_at, connection, transfer_encoding, server_name, header_func,
}
use jawas.Sockets.{bytes, again, read_socket}
use jawas.Headers.Parse.{parse_headers}
use jawas.Transfer.{is_chunked, inbound_content_length}
use jawas.Responses.Reading.{Reply, continues, process_response, response_done, dechunk_response}
use jawas.Responses.{begin_headers}

begin_runs : (begin_headers new_headers >>= λ h. key_at h 1) ≡ some (codes "Transfer-Encoding")
unfolding begin_headers new_headers connection transfer_encoding server_name header_func
begin_runs = refl

abbrev is_done : Reply → Bool
is_done (continues r) = r.done
is_done _ = false

-- An answer whose body has come whole.
read_runs :
    is_done (
      process_response 9
        (bytes (codes "HTTP/1.1 200 OK\r\nContent-Length: 2\r\n\r\nab") ∷ again ∷ [])
        none
        (record { contents = none; headers = none; body = 0; done = false }))
    ≡ true
unfolding process_response read_socket parse_headers response_done dechunk_response is_chunked
    inbound_content_length find_header cmp icmp str_int
read_runs = refl
