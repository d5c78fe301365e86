-- ===== src/Status/Tests.antt =====
-- Runs of status.c, and the instances of its theorems.
use jawas.Base.{false, ◌++◌, [], ◌∷◌, some, ◌≡◌, refl, Bytes, codes, length}
use jawas.Str.{crlf, cmp}
use jawas.Format.{new_str}
use jawas.Headers.{Headers, empty}
use jawas.Files.{File, load}
use jawas.Sockets.{Socket}
use jawas.Sockets.Chunks.{chunks_of, last_chunk, decode_chunks}
use jawas.Status.{find_status_code, status_line}
use jawas.Status.Errors.{error_handler, error_handler-page}

ok_runs : status_line 200 ≡ some (codes "HTTP/1.1 200 OK\r\n")
unfolding status_line new_str
ok_runs = refl

abbrev page : File
page = record { name = codes "/www/errors"; contents = codes "gone" }

abbrev fresh : Socket
fresh = record { closed = false; calls = 0; sent = [] }

abbrev no_fields : Headers
no_fields = record { nslots = 0; slots = empty ∷ [] }

error_handler-page_example :
    (sc' : Socket) × (coded : Bytes) × (error_handler
        (λ n d. some (length d))
        (codes "/www")
        (page ∷ [])
        5
        404
        fresh
        (some no_fields)
      ≡ some (record { status = 404; socket = sc'; raw_contents = some page }))
    × (sc'.sent ++ last_chunk ≡ codes "HTTP/1.1 404 Not Found\r\n" ++ ([] ++ (crlf ++ coded)))
    × (decode_chunks 5 coded ≡ some (codes "gone"))
    × (sc'.closed ≡ false)
    × (coded ≡ chunks_of 4 (codes "gone") ++ last_chunk)
unfolding find_status_code status_line new_str load cmp
error_handler-page_example =
    error_handler-page (λ n d. some (length d)) (λ n d. refl) (codes "/www") (page ∷ []) fresh 404
      no_fields [] (codes "HTTP/1.1 404 Not Found\r\n") (codes "/404.html")
      (record {
        code = 404;
        reason = codes "404 Not Found\r\n";
        filename = some (codes "/404.html");
      })
      page refl refl refl refl refl refl
