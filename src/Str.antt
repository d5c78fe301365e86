-- ===== src/Str.antt =====
-- str.c: the counted strings that every other part of Jawas is built on. A `str` is the list of its
-- bytes; a `str` that may be NULL is a `Str`. `ref` and `from` share the bytes that they name, and
-- nothing in the modelled code writes through such a view, so a view is the bytes it shows.
pub mod Buffers
pub mod Compare
pub mod Order
pub mod Search
pub mod Fields
mod Tests
use jawas.Base.{
  ℕ, zero, suc, ◌+◌, ◌-◌, ◌<◌, Bool, true, false, ◌&&◌, ◌||◌, List, [], ◌∷◌, ◌++◌, Option, none,
  some, ltb, leb, ◌==◌, if◌then◌else◌, length, get_or, take, drop, replicate, Bytes, Str, is_space,
  signed_rank, not, min,
}

-- `between`, on the bytes of a `char` that the bounds keep in ASCII.
abbrev pub between : ℕ → ℕ → ℕ → Bool
between a x b = leb a x && leb x b

-- A position at or past the end, and NULL, read as the byte 0.
abbrev pub at : Str → ℕ → ℕ
at none pos = 0
at (some s) pos = get_or s pos 0

abbrev pub len : Str → ℕ
len none = 0
len (some s) = length s

-- `from` and `ref` inside the bytes of `s`.
abbrev pub from : Bytes → ℕ → ℕ → Bytes
from s start l = take l (drop start s)

abbrev pub blank : ℕ → Bytes
blank l = replicate l 0

-- Where `v` stands for `append(s, v)`: apart from `s`, or with its struct just behind the bytes of `s`, where `held`
-- bytes of the region are reserved, and `memory` is what the region then holds behind those.
pub data Placed : Type 0 where
  apart : Placed
  adjacent : (held : ℕ) (memory : ℕ → ℕ) → Placed

abbrev pub bytes_at : (ℕ → ℕ) → ℕ → ℕ → Bytes
bytes_at memory i zero = []
bytes_at memory i (suc k) = memory i ∷ bytes_at memory (suc i) k

-- `append(s, v)`, as it is read once more memory has been reserved: where `v` stands just behind, its bytes are moved
-- to the end of `s` and no memory is reserved for them.
unfoldable pub append : Placed → Str → Bytes → Bytes
append placed none v = v
append apart (some s) v = s ++ v
append (adjacent held memory) (some s) v = s ++ (take held v ++ bytes_at memory 0 (length v - held))

-- The loop of `fncmp`: `k` rounds are left, and `i` is the index.
fncmp_from : (ℕ → ℕ → Bool) → Str → Str → ℕ → ℕ → Bool
fncmp_from func a b zero i = true
fncmp_from func a b (suc k) i =
    let rest = fncmp_from func a b k (suc i) in if func (at a i) (at b i) then false else rest

unfoldable pub fncmp : Str → Str → ℕ → (ℕ → ℕ → Bool) → Bool
unfolding fncmp_from
fncmp a b n func = fncmp_from func a b n 0

abbrev pub not_equal : ℕ → ℕ → Bool
not_equal x y = not (x == y)

-- The upper case of an ASCII letter, as `inot_equal` writes it.
abbrev pub upper : ℕ → ℕ
upper x = if between b'a' x b'z' then x - b'a' + b'A' else x

abbrev pub inot_equal : ℕ → ℕ → Bool
inot_equal x y = not (upper x == upper y)

unfoldable pub ncmp : Str → Str → ℕ → Bool
unfolding fncmp
ncmp a b n = fncmp a b n not_equal

unfoldable pub cmp : Str → Str → Bool
unfolding fncmp
cmp a b = if not (len a == len b) then false else fncmp a b (len a) not_equal

unfoldable pub icmp : Str → Str → Bool
unfolding fncmp
icmp a b = if not (len a == len b) then false else fncmp a b (len a) inot_equal

-- The loop of `lesser`: `char` is signed, so the difference of two bytes has the sign of the
-- difference of their ranks.
lesser_from : Str → Str → ℕ → ℕ → Bool
lesser_from a b zero i = ltb (len a) (len b)
lesser_from a b (suc k) i =
    let rest = lesser_from a b k (suc i) in
    if ltb (signed_rank (at a i)) (signed_rank (at b i))
    then true
    else if ltb (signed_rank (at b i)) (signed_rank (at a i))
    then false
    else rest

unfoldable pub lesser : Str → Str → Bool
unfolding lesser_from
lesser a b = lesser_from a b (min (len a) (len b)) 0

-- The inner loop of `find`: is `c` one of the delimiters?
unfoldable pub one_of : Bytes → ℕ → Bool
one_of [] c = false
one_of (d ∷ ds) c = c == d || one_of ds c

-- The outer loop of `find`, over the bytes from `pos` on.
pub find_from : Bytes → Bytes → ℕ → ℕ
unfolding one_of
find_from delim [] i = i
find_from delim (c ∷ rest) i =
    let next = find_from delim rest (suc i) in if one_of delim c then i else next

-- `find(src, pos, delim, dl)`: `delim` is the C string, of which the first `dl` bytes count, or all
-- of them if `dl` is 0.
unfoldable pub find : Bytes → ℕ → Bytes → ℕ → ℕ
unfolding find_from
find src pos delim dl = find_from (if dl == 0 then delim else take dl delim) (drop pos src) pos

unfoldable pub search : Bytes → ℕ → Bytes → ℕ
unfolding find
search src pos key = find src pos key (length key)

abbrev pub crlf : Bytes
crlf = 13 ∷ 10 ∷ []

unfoldable pub read_line : Bytes → ℕ → Bytes
unfolding find
read_line src pos = let eol = find src pos crlf 2 in from src pos (eol - pos)

-- The loop of `skip_headers`, which moves `p` and never `pos`. `none` is a loop that has not ended
-- within the fuel.
skip_headers_from : ℕ → Bytes → ℕ → ℕ → Option ℕ
unfolding read_line
skip_headers_from zero src pos p = none
skip_headers_from (suc fuel) src pos p =
    let ll = length (read_line src pos) in
    let again = skip_headers_from fuel src pos (p + ll + 2) in
    if not (ll == 0) && ltb pos (length src) then again else some pos

unfoldable pub skip_headers : ℕ → Bytes → ℕ → Option ℕ
unfolding skip_headers_from
skip_headers fuel src pos = skip_headers_from fuel src pos pos
