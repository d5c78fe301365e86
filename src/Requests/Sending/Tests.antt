-- ===== src/Requests/Sending/Tests.antt =====
-- A request to another server: a run, and the instance of its theorem.
use jawas.Base.{false, [], none, some, ◌≡◌, refl, ◌++◌, arith, codes, length, ◌>>=◌}
use jawas.Files.{File}
use jawas.Headers.{new_headers, find_header}
use jawas.Headers.Table.{new_headers-IsValid}
use jawas.Sockets.{Socket, Write}
use jawas.Transfer.{is_chunked}
use jawas.Requests.Sending.{Outgoing, send_request, write_requests}
use jawas.Requests.Sending.Head.{outgoing, head_of, body_of}
use jawas.Requests.Sending.Body.{IsSent}
use jawas.Requests.Sending.Whole.{write_requests-IsSent}

abbrev accept : Write
accept n d = some (length d)

abbrev fresh : Socket
fresh = record { closed = false; calls = 0; sent = [] }

abbrev picture : File
picture = record { name = codes "a.png"; contents = codes "PNG" }

abbrev upload : Outgoing
upload =
    outgoing 80 (some (codes "PUT")) (some (codes "b.org")) (some (codes "/a.png")) new_headers none
      (some picture) none 0 fresh

-- A request with no socket connects, and is not asked for again.
connect_runs :
    (send_request accept (λ h port ssl. some fresh) (record upload { socket = none })
      >>= λ (again, r). some again)
    ≡ some false
unfolding send_request
connect_runs = refl

unused : is_chunked (some new_headers) ≡ false
unfolding is_chunked new_headers find_header
unused = refl

write_requests-IsSent_example :
    IsSent fresh
      (head_of (codes "PUT") (codes "b.org") (codes "/a.png") [] ++ body_of none (some picture))
      (write_requests accept (λ h port ssl. none) 5 upload)
unfolding new_headers
write_requests-IsSent_example =
    write_requests-IsSent accept (λ n d. refl) (λ h port ssl. none) 80 (codes "PUT") (codes "b.org")
      (codes "/a.png") new_headers none (some picture) fresh [] refl new_headers-IsValid
      (omega arith) refl unused
