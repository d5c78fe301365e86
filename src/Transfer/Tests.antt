-- ===== src/Transfer/Tests.antt =====
-- Runs of transfer.c, and the instance of its theorem.
use jawas.Base.{Bytes, [], ◌∷◌, none, some, ◌≡◌, refl, codes}
use jawas.Str.{cmp, icmp, one_of}
use jawas.Numbers.{str_int}
use jawas.Headers.{Headers, find_header}
use jawas.Transfer.{is_chunked, inbound_content_length, inbound_content_length-chunked}

abbrev one_field : Bytes → Bytes → Headers
one_field k v = record { nslots = 1; slots = record { key = some k; value = some v } ∷ [] }

length_runs :
    inbound_content_length 1
      (some (codes "x"))
      (some (one_field (codes "Content-Length") (codes "12")))
    ≡ some 12
unfolding inbound_content_length is_chunked find_header cmp icmp str_int
length_runs = refl

inbound_content_length-chunked_example :
    inbound_content_length 50
      (some (codes "POST / HTTP/1.1"))
      (some (one_field (codes "Transfer-Encoding") (codes "Chunked")))
    ≡ none
unfolding is_chunked find_header cmp icmp one_of
inbound_content_length-chunked_example =
    inbound_content_length-chunked 49 b'P' (codes "OST / HTTP/1.1")
      (one_field (codes "Transfer-Encoding") (codes "Chunked")) refl refl
