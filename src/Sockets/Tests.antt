-- ===== src/Sockets/Tests.antt =====
-- Runs of sockets.c on small inputs, and the instances of its theorems.
use jawas.Base.{
  true, false, [], ◌∷◌, none, some, ◌≡◌, refl, codes, length, List, Bytes, ◌==◌, if◌then◌else◌,
}
use jawas.Numbers.{hex_str}
use jawas.Headers.{Headers, empty}
use jawas.Headers.Print.{Field}
use jawas.Sockets.{
  Socket, Write, write_to_socket, write_chunk, write_chunked_socket, bytes, again, read_socket,
}
use jawas.Sockets.Chunks.{decode_chunks}
use jawas.Sockets.Whole.{write_chunked_socket-decode_chunks}
use jawas.Sockets.Reads.{read_socket-pieces_before}

-- A system that accepts all, and one that accepts a byte less of each long write.
abbrev accept : Write
accept n d = some (length d)

abbrev fresh : Socket
fresh = record { closed = false; calls = 0; sent = [] }

abbrev gone : Socket
gone = record { closed = true; calls = 4; sent = codes "x" }

chunk_runs : (write_chunk accept fresh (some (codes "hello"))).1.sent ≡ codes "5\r\nhello\r\n"
unfolding write_chunk write_to_socket hex_str
chunk_runs = refl

-- A write that takes fewer bytes leaves a chunk that is shorter than it says.
short_runs :
    (write_chunk
      (λ n d. if n == 1 then some 3 else some (length d))
      fresh
      (some (codes "hello"))).1.sent
    ≡ codes "5\r\nhel\r\n"
unfolding write_chunk write_to_socket hex_str
short_runs = refl

write_chunked_socket-decode_chunks_example :
    (coded : Bytes) × ((write_chunked_socket accept fresh (codes "hello")).0 ≡ 5)
    × ((write_chunk accept (write_chunked_socket accept fresh (codes "hello")).1 none).1.sent
        ≡ coded)
    × (decode_chunks 6 coded ≡ some (codes "hello"))
write_chunked_socket-decode_chunks_example =
    write_chunked_socket-decode_chunks accept (λ n d. refl) fresh (codes "hello") refl

abbrev one_field : Headers
one_field = record {
  nslots = 1;
  slots = record { key = some (codes "a"); value = some (codes "1") } ∷ empty ∷ [];
}

abbrev one_line : List Field
one_line = record { key = codes "a"; value = codes "1" } ∷ []

read_socket-pieces_before_example :
    read_socket (bytes (codes "GE") ∷ bytes (codes "T") ∷ again ∷ []) none ≡ some (codes "GET")
read_socket-pieces_before_example =
    read_socket-pieces_before (codes "GE" ∷ codes "T" ∷ []) again [] none
      ((λ e. cc e), ((λ e. cc e), tt)) tt
