-- ===== src/Uri/Tests.antt =====
-- Runs of uri.c on small inputs, and the instances of its theorems.
use jawas.Base.{[], ◌∷◌, ◌++◌, some, ◌≡◌, refl, map, arith, codes, Bytes, length, List}
use jawas.Headers.{Headers, new_headers, over}
use jawas.Headers.Table.{new_headers-IsValid}
use jawas.Headers.Print.{Field, slot_of}
use jawas.Str.{one_of}
use jawas.Uri.{encoded_size, uri_encode, uri_decode, form, parse_uri_encoded}
use jawas.Uri.Coding.{uri_decode-uri_encode}
use jawas.Uri.Query.{parse_uri_encoded-query_of}

uri_encode_runs : uri_encode (some (codes "a b/c")) ≡ some (codes "a%20b%2Fc")
unfolding uri_encode
uri_encode_runs = refl

uri_decode_runs : uri_decode (some (codes "a+b%2fc")) ≡ codes "a b/c"
unfolding uri_decode
uri_decode_runs = refl

uri_decode-uri_encode_example :
    (e : Bytes) × (uri_encode (some (codes "a b")) ≡ some e)
    × (length e ≡ encoded_size (codes "a b"))
    × (uri_decode (some e) ≡ codes "a b")
uri_decode-uri_encode_example =
    uri_decode-uri_encode (codes "a b") (omega arith, (omega arith, (omega arith, tt)))

abbrev first : Field
first = record { key = codes "q"; value = codes "1" }

abbrev others : List Field
others = record { key = codes "r"; value = [] } ∷ []

parse_uri_encoded-query_of_example :
    (h' : Headers) × (parse_uri_encoded (some new_headers) (some (codes "/p?q=1&r=")) 3 ≡ form h')
    × (over h' ≡ over new_headers ++ map slot_of (first ∷ others))
unfolding one_of new_headers
parse_uri_encoded-query_of_example =
    parse_uri_encoded-query_of new_headers (codes "/p?q=1&r=") 3 first others new_headers-IsValid
      (omega arith)
      (
        record { key_clear = (refl, tt); value_clear = (refl, tt) },
        (record { key_clear = (refl, tt); value_clear = tt }, tt),
      )
      refl refl
