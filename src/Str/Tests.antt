-- ===== src/Str/Tests.antt =====
-- Runs of str.c on small inputs.
use jawas.Base.{true, false, ◌++◌, some, ◌≡◌, refl, Bytes, codes}
use jawas.Str.{cmp, icmp, lesser, crlf, read_line}

abbrev host : Bytes
host = codes "Host"

cmp_runs : cmp (some host) (some (codes "host")) ≡ false
unfolding cmp
cmp_runs = refl

icmp_runs : icmp (some host) (some (codes "HOST")) ≡ true
unfolding icmp
icmp_runs = refl

read_line_runs : read_line (codes "ab" ++ crlf ++ codes "c") 0 ≡ codes "ab"
unfolding read_line
read_line_runs = refl

not_lesser : lesser (some (codes "ab")) (some (codes "ab")) ≡ false
unfolding lesser
not_lesser = refl
