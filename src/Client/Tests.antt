-- ===== src/Client/Tests.antt =====
-- Runs of client.c, and the instance of its theorem.
use jawas.Base.{
  ℕ, inl, ◌++◌, length, Bytes, true, false, [], ◌∷◌, none, some, ◌≡◌, refl, arith, codes, replicate,
}
use jawas.Str.{crlf, cmp, ncmp}
use jawas.Str.Fields.{name_field, skip_fields}
use jawas.Numbers.{str_int}
use jawas.Headers.{Headers, find_header, new_headers}
use jawas.Headers.Table.{new_headers-IsValid}
use jawas.Headers.Print.{header_lines}
use jawas.Files.{File, load}
use jawas.Index.{regular}
use jawas.Mime.{script_handler, lookup_mimetype}
use jawas.Requests.{parse_host, parse_method}
use jawas.Responses.{new_response}
use jawas.Responses.Answer.{answer_fields}
use jawas.Sockets.{Socket}
use jawas.Sockets.Chunks.{chunks_of, last_chunk, decode_chunks}
use jawas.Lua.{Lua}
use jawas.Lua.Pages.{goes_on}
use jawas.Pages.{Site}
use jawas.Pages.Static.{page_fields}
use jawas.Methods.Get.{Asked}
use jawas.Client.Answer.{send_response, send_response-page}
use jawas.Client.Refusal.{send_response-refusal}
use jawas.Sockets.{failed}
use jawas.Requests.Process.{open_request}
use jawas.Client.{Client, to_read, poll_reads, poll_read}
use jawas.Client.Retries.{HasEnded, poll_reads-HasEnded}

abbrev fresh : Client
fresh = record {
  event = to_read;
  ended = false;
  closed = false;
  buf = none;
  request = open_request;
  path = none;
  query_vars = none;
}

closed_runs :
    poll_read 1 (codes "::1") (failed ∷ []) (record fresh { closed = true })
    ≡ some (record fresh { closed = true; ended = true })
unfolding poll_read
closed_runs = refl

poll_reads-HasEnded_example :
    HasEnded 20 true (poll_reads 1 (codes "::1") (replicate 20 (failed ∷ [])) fresh)
unfolding open_request
poll_reads-HasEnded_example =
    poll_reads-HasEnded 20 1 (codes "::1") fresh refl refl (omega arith) (omega arith)

abbrev host_field : Headers
host_field = record {
  nslots = 1;
  slots = record { key = some (codes "Host"); value = some (codes "h:8080") } ∷ [];
}

abbrev page : File
page = record { name = codes "/www/h/a.html"; contents = codes "hello" }

abbrev asked : Asked
asked = record {
  host = none;
  path = some (codes "/a.html");
  headers = host_field;
  query_vars = none;
  contents = codes "get /a.html HTTP/1.1\r\nHost: h:8080\r\n\r\n";
  body = 38;
}

abbrev no_lua : Lua
no_lua = record {
  State = ℕ;
  get_top = λ s. s;
  new_table = λ s. s;
  push_number = λ n s. s;
  push_string = λ t s. s;
  push_nil = λ s. s;
  push_pointer = λ a s. s;
  set_table = λ n s. s;
  pop = λ n s. s;
  string_at = λ i s. none;
  boolean_at = λ i s. none;
  pointer_at = λ i s. 0;
}

abbrev site : Site
site = record {
  write = λ n d. some (length d);
  stat = λ p. regular;
  cwd = codes "/www";
  cache = page ∷ [];
  now = codes "now";
  tomorrow = codes "later";
  lua = no_lua;
  scripts = record { begins = none; globals = 0; do_file = λ t p. p; eval = λ t p. goes_on p };
}

abbrev socket : Socket
socket = record { closed = false; calls = 0; sent = [] }

page_type : (lookup_mimetype page.name).handler ≡ script_handler
unfolding lookup_mimetype ncmp
page_type = refl

send_response-page_example :
    (sc' : Socket) × (coded : Bytes) × (send_response site 6
        (codes "/tmp/1")
        asked
        new_response
        socket
      ≡ some (200, sc'))
    × (sc'.sent
        ≡ codes "HTTP/1.1 200 OK\r\n"
          ++ (header_lines (answer_fields ++ page_fields site (λ n d. refl) page)
              ++ (crlf ++ coded)))
    × (decode_chunks 6 coded ≡ some (codes "hello"))
unfolding new_response new_headers load cmp find_header parse_host parse_method str_int name_field
    skip_fields
send_response-page_example =
    send_response-page site (λ n d. refl) (codes "/tmp/1") asked new_response new_headers [] page
      (codes "h") (codes "get") (codes "/a.html") 8080 socket refl refl refl refl refl refl refl
      (λ e. cc (e, page_type)) refl refl new_headers-IsValid (omega arith) refl

abbrev errors : File
errors = record { name = codes "/www/errors"; contents = codes "bad" }

abbrev error_site : Site
error_site = record site { cache = errors ∷ [] }

send_response-refusal_example :
    (sc' : Socket) × (coded : Bytes) × (send_response error_site 4
        (codes "/tmp/1")
        (record asked { headers = new_headers })
        new_response
        socket
      ≡ some (400, sc'))
    × (sc'.sent
        ≡ codes "HTTP/1.1 400 Bad Request\r\n" ++ (header_lines answer_fields ++ (crlf ++ coded)))
    × (coded ≡ chunks_of 3 (codes "bad") ++ last_chunk)
    × (decode_chunks 4 coded ≡ some (codes "bad"))
unfolding new_response new_headers load cmp find_header parse_host parse_method str_int name_field
    skip_fields
send_response-refusal_example =
    send_response-refusal error_site (λ n d. refl) (codes "/tmp/1")
      (record asked { headers = new_headers }) new_response new_headers [] errors none
      (some (codes "get")) 0 socket refl refl (inl refl) refl refl new_headers-IsValid (omega arith)
      refl refl
