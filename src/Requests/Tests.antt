-- ===== src/Requests/Tests.antt =====
-- Runs of requests.c on small inputs, and the instances of its theorems.
use jawas.Base.{[], ◌∷◌, false, none, some, ◌≡◌, refl, map, arith, codes}
use jawas.Str.{one_of, cmp, icmp}
use jawas.Str.Fields.{name_field, skip_fields}
use jawas.Numbers.{str_int}
use jawas.Headers.{Headers, over, append_header, find_header}
use jawas.Headers.Parse.RoundTrip.{Line, IsLine, filled}
use jawas.Sockets.{bytes, again}
use jawas.Transfer.{is_chunked}
use jawas.Requests.Process.{
  Request, continues, read_up, int_ge, stated_length, process_request, process_request-message,
}
use jawas.Headers.Print.{Field, slot_of}
use jawas.Uri.{form}
use jawas.Requests.{parse_host, parse_method, parse_path}
use jawas.Requests.Line.{parse_path-query_of}

host_runs : parse_host (some (codes "a.b:8080")) ≡ (some (codes "a.b"), 8080)
unfolding parse_host name_field skip_fields str_int
host_runs = refl

-- With no colon the host is read as its own port.
address_runs : parse_host (some (codes "10.0.0.1")) ≡ (some (codes "10.0.0.1"), 10)
unfolding parse_host name_field skip_fields str_int
address_runs = refl

-- The loop runs past the end of a request of line breaks alone.
blank_runs : parse_method (some (codes "\r\n\r\n")) ≡ none
unfolding parse_method
blank_runs = refl

-- Behind a leading space the method is taken for the path.
leading_runs : parse_path (some (codes " GET /a HTTP")) ≡ some (some (codes "GET"), none)
unfolding parse_path
leading_runs = refl

abbrev first : Field
first = record { key = codes "q"; value = codes "1" }

parse_path-query_of_example :
    (h : Headers) × (parse_path (some (codes "GET /a?q=1 HTTP"))
      ≡ some (some (codes "/a"), some (form h)))
    × (over h ≡ map slot_of (first ∷ []))
unfolding one_of
parse_path-query_of_example =
    parse_path-query_of (codes "GET") (codes "/a") (codes "HTTP") first []
      (refl, (refl, (refl, tt))) (refl, (refl, tt)) (refl, (refl, (refl, tt))) (omega arith)
      (record { key_clear = (refl, tt); value_clear = (refl, tt) }, tt)

abbrev length_line : Line
length_line = record {
  key = b'C';
  key_rest = codes "ontent-Length";
  gap = codes " ";
  value = b'2';
  value_rest = [];
}

length_line-IsLine : IsLine length_line
length_line-IsLine = record {
  key_starts = refl;
  key_plain = (
    refl,
    (
      refl,
      (
        refl,
        (refl, (refl, (refl, (refl, (refl, (refl, (refl, (refl, (refl, (refl, (refl, tt))))))))))),
      ),
    ),
  );
  gap_spaces = (refl, tt);
  value_starts = refl;
  value_plain = (refl, tt);
}

abbrev blank_request : Request
blank_request = record { contents = none; headers = none; body = 0; done = false; retries = 3 }

-- The fields of the message, with the peer's.
abbrev with_peer : Headers
unfolding append_header
with_peer =
    elim (append_header (some (filled (length_line ∷ []))) (some (codes "peer"))
      (some (codes "::1"))) [ some h ↦ h | none ↦ filled [] ]

process_request-message_example :
    process_request 9
      (codes "::1")
      (bytes (codes "POST\r\nContent-Length: 2\r\n") ∷ bytes (codes "\r\nab") ∷ again ∷ [])
      none
      blank_request
    ≡ continues (
        read_up
          (codes "POST\r\nContent-Length: 2\r\n\r\nab")
          with_peer
          27
          (int_ge 2 (stated_length with_peer))
          3)
unfolding with_peer append_header is_chunked find_header cmp icmp
process_request-message_example =
    process_request-message 9 (codes "::1") (codes "POST") (codes "ab") length_line [] blank_request
      with_peer (codes "POST\r\nContent-Length: 2\r\n" ∷ codes "\r\nab" ∷ []) [] none
      (refl, (refl, (refl, (refl, tt)))) (length_line-IsLine, tt) (omega arith) refl refl
      ((λ e. cc e), ((λ e. cc e), tt)) refl refl
