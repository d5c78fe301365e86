-- ===== src/Headers/Tests.antt =====
-- Runs of headers.c on small inputs, and the instances of its theorems.
use jawas.Base.{
  ℕ, [], ◌∷◌, none, some, ◌≡◌, refl, arith, codes, Bytes, List, drop, Str, All, set, replicate,
}
use mathlib.Core.List.{Perm}
use jawas.Str.{lesser}
use jawas.Headers.{Headers, over, new_headers, key_at, value_at, sort_headers}
use jawas.Headers.Table.{IsValid, new_headers-IsValid}
use jawas.Headers.Refinement.{
  Operation, append, find, performed, promised, answers_of, answers_of-performed,
}
use jawas.Headers.Sort.{IsSorted, Named, sort_headers-perm, sort_headers-IsSorted}
use jawas.Headers.Print.{Field}
use jawas.Headers.Parse.{Parsed, parsed, parse_headers}
use jawas.Headers.Parse.Total.{Ends, parse_headers-Ends}
use jawas.Headers.Parse.RoundTrip.{Line, field_of, IsLine, filled, message, parse_headers-message}

abbrev text_of : Str → Bytes
text_of none = []
text_of (some s) = s

-- What `parse_headers` stores: the first key and value, and the position of the body.
abbrev first_field : Parsed → (Bytes × Bytes) × ℕ
first_field (parsed h (some b)) = ((text_of (key_at h 0), text_of (value_at h 0)), b)
first_field _ = (([], []), 0)

parse_runs :
    first_field (parse_headers (some (codes "GET / HTTP/1.1\r\nHost: a.b\r\nX:  y\r\n\r\nbody")))
    ≡ ((codes "Host", codes "a.b"), 36)
unfolding parse_headers
parse_runs = refl

-- Two fields out of order.
abbrev two : Headers
unfolding new_headers
two = record new_headers {
  nslots = 2;
  slots =
      set (set new_headers.slots 0 (record { key = some (codes "b"); value = some (codes "1") })) 1
        (record { key = some (codes "a"); value = some (codes "2") });
}

sort_runs : key_at (sort_headers two) 0 ≡ some (codes "a")
unfolding sort_headers two lesser
sort_runs = refl

two-IsValid : IsValid two
unfolding two new_headers
two-IsValid = record { table = refl; used = omega arith }

two-Named : All Named (over two)
unfolding two new_headers
two-Named = ((λ e. cc e), ((λ e. cc e), tt))

sort_headers-perm_example : Perm (over (sort_headers two)) (over two)
sort_headers-perm_example = sort_headers-perm two two-IsValid

sort_headers-IsSorted_example : IsSorted (over (sort_headers two))
sort_headers-IsSorted_example = sort_headers-IsSorted two two-IsValid two-Named

abbrev full : Headers
full = record { nslots = 250; slots = replicate 250 (record { key = none; value = none }) }

abbrev fields : List Field
fields =
    record { key = codes "b"; value = codes "1" }
    ∷ record { key = codes "a"; value = codes "2" }
    ∷ []

parse_headers-Ends_example : Ends 7 (parse_headers (some (codes "GET\r\nab")))
parse_headers-Ends_example = parse_headers-Ends (some (codes "GET\r\nab"))

-- The line `Host: a.b`.
abbrev host_line : Line
host_line = record {
  key = b'H';
  key_rest = codes "ost";
  gap = codes " ";
  value = b'a';
  value_rest = codes ".b";
}

host_line-IsLine : IsLine host_line
host_line-IsLine = record {
  key_starts = refl;
  key_plain = (refl, (refl, (refl, (refl, tt))));
  gap_spaces = (refl, tt);
  value_starts = refl;
  value_plain = (refl, (refl, (refl, tt)));
}

parse_headers-message_example :
    (parse_headers (some (message (codes "GET") (codes "body") host_line []))
      ≡ parsed (filled (host_line ∷ [])) (some 18))
    × (over (filled (host_line ∷ [])) ≡ field_of host_line ∷ [])
    × (drop 18 (message (codes "GET") (codes "body") host_line []) ≡ codes "body")
parse_headers-message_example =
    parse_headers-message (codes "GET") (codes "body") host_line [] (refl, (refl, (refl, tt)))
      (host_line-IsLine, tt) (omega arith)

abbrev asked : List Operation
asked =
    append (codes "a") (codes "1")
    ∷ append (codes "a") (codes "2")
    ∷ find (codes "a")
    ∷ find (codes "b")
    ∷ []

-- The first of two fields counts, and a name that is not there has no value.
promised_runs : answers_of promised asked [] ≡ some (none ∷ none ∷ some (codes "1") ∷ none ∷ [])
promised_runs = refl

answers_of-performed_example : answers_of performed asked new_headers ≡ answers_of promised asked []
unfolding new_headers
answers_of-performed_example =
    answers_of-performed asked new_headers []
      (record { valid = new_headers-IsValid; fields = refl })
