-- ===== src/Client/Replies/Tests.antt =====
-- The answer of another server: runs, and the instance of its theorem.
use jawas.Base.{true, false, [], ◌∷◌, ◌++◌, none, some, ◌≡◌, refl, arith, codes, map, ◌>>=◌}
use jawas.Str.{cmp, icmp}
use jawas.Numbers.{str_int}
use jawas.Headers.{Headers, new_headers, over, find_header}
use jawas.Headers.Print.{slot_of}
use jawas.Headers.Table.{new_headers-IsValid}
use jawas.Headers.Parse.{parse_headers}
use jawas.Headers.Parse.RoundTrip.{Line, IsLine}
use jawas.Sockets.{bytes, again, read_buffer, read_socket}
use jawas.Transfer.{is_chunked}
use jawas.Responses.Reading.{Incoming, process_response, response_done}
use jawas.Client.Replies.{Exchange, for_reply, upstream, browser, read_response, poll_response}
use jawas.Client.Replies.Handed.{handed, handed_fields, read_response-handed}

abbrev line : Line
line = record { key = b'A'; key_rest = []; gap = codes " "; value = b'b'; value_rest = [] }

line-IsLine : IsLine line
line-IsLine = record {
  key_starts = refl;
  key_plain = (refl, tt);
  gap_spaces = (refl, tt);
  value_starts = refl;
  value_plain = (refl, tt);
}

abbrev fresh : Exchange
fresh = record {
  waits = for_reply upstream;
  ended = false;
  current = browser;
  buf = none;
  incoming = record { contents = none; headers = some new_headers; body = 0; done = false };
  answer = new_headers;
}

closed_runs : poll_response true 9 [] fresh ≡ some (record fresh { ended = true })
unfolding poll_response
closed_runs = refl

-- With no text behind the first line there are no fields, the body is not known, and the socket of the browser
-- is watched.
short_runs :
    (read_response 9 (bytes (codes "HTTP/1.1 200 OK\r\nA: b\r\n") ∷ again ∷ []) fresh >>= λ x.
    some x.waits)
    ≡ some (for_reply browser)
unfolding read_response process_response read_socket parse_headers response_done new_headers
short_runs = refl

read_response-handed_example :
    (r : Incoming) × (h : Headers) × (read_response 9
        (bytes (codes "HTTP/1.1 200 OK\r\nA: b") ∷ bytes (codes "\r\n\r\nhello") ∷ again ∷ [])
        fresh
      ≡ some (
          handed fresh
            (some (
              read_buffer
                (bytes (codes "HTTP/1.1 200 OK\r\nA: b")
                  ∷ bytes (codes "\r\n\r\nhello")
                  ∷ again
                  ∷ [])
                none))
            r
            h))
    × (over h ≡ over new_headers ++ map slot_of (handed_fields (codes "hello") (codes "200")))
unfolding is_chunked find_header cmp icmp str_int new_headers
read_response-handed_example =
    read_response-handed 9 (codes "HTTP/1.1 ") (codes "200") (codes " OK") (codes "hello") line []
      fresh (codes "HTTP/1.1 200 OK\r\nA: b" ∷ codes "\r\n\r\nhello" ∷ []) [] refl refl
      (
        refl,
        (
          refl,
          (
            refl,
            (
              refl,
              (
                refl,
                (refl, (refl, (refl, (refl, (refl, (refl, (refl, (refl, (refl, (refl, tt)))))))))),
              ),
            ),
          ),
        ),
      )
      (line-IsLine, tt) (omega arith) refl refl ((λ e. cc e), ((λ e. cc e), tt)) refl refl
      new_headers-IsValid (omega arith)
