-- ===== src/Uri.antt =====
-- uri.c: percent coding and the fields of a query string.
pub mod Coding
pub mod Query
mod Tests
use jawas.Base.{
  ℕ, zero, suc, ◌+◌, ◌-◌, ◌*◌, ◌/◌, ◌%◌, Bool, true, false, ◌||◌, [], ◌∷◌, ◌++◌, Option, none, some,
  ltb, leb, ◌==◌, if◌then◌else◌, length, get_or, take, drop, Bytes, Str, text, is_space, codes,
  ◌>>=◌,
}
use jawas.Str.{between, from, one_of, find}
use jawas.Str.Fields.{skip_while}
use jawas.Headers.{Headers, new_headers, append_header}

abbrev mark_chars : Bytes
mark_chars = codes "-_.!~*'()"

abbrev hex_chars : Bytes
hex_chars = codes "0123456789ABCDEF"

pub is_mark_char : ℕ → Bool
unfolding one_of
is_mark_char c = one_of mark_chars c

pub is_clean_char : ℕ → Bool
unfolding is_mark_char
is_clean_char c =
    between b'A' c b'Z' || (between b'a' c b'z' || (between b'0' c b'9' || is_mark_char c))

-- The first loop of `uri_encode`: the size of the result.
pub encoded_size : Bytes → ℕ
encoded_size [] = 0
encoded_size (c ∷ s) = (if is_clean_char c then 1 else 3) + encoded_size s

-- What the second loop writes for one byte. `char` is signed: from 128 on `c / 16` or `c % 16` is
-- negative, and the table is read before its start, which is `none`.
encode_char : ℕ → Option Bytes
encode_char c =
    if is_clean_char c
    then some (c ∷ [])
    else if ltb c 128
    then some (b'%' ∷ get_or hex_chars (c / 16) 0 ∷ get_or hex_chars (c % 16) 0 ∷ [])
    else none

encode_from : Bytes → Option Bytes
encode_from [] = some []
encode_from (c ∷ s) =
    let rest = encode_from s in encode_char c >>= λ e. rest >>= λ es. some (e ++ es)

unfoldable pub uri_encode : Str → Option Bytes
unfolding encode_from encode_char is_clean_char
uri_encode s = encode_from (text s)

-- A byte that is no hexadecimal digit adds nothing.
pub from_hex : ℕ → ℕ → ℕ
from_hex a b =
    (if between b'0' a b'9' then (a - b'0') * 16 else 0)
    + (if between b'A' a b'F' then (a - b'A' + 10) * 16 else 0)
    + (if between b'a' a b'f' then (a - b'a' + 10) * 16 else 0)
    + (if between b'0' b b'9' then b - b'0' else 0)
    + (if between b'A' b b'F' then b - b'A' + 10 else 0)
    + (if between b'a' b b'f' then b - b'a' + 10 else 0)

-- The byte that the loop of `uri_decode` writes at a byte `c` with `rest` behind it.
decode_char : ℕ → Bytes → ℕ
decode_char c rest =
    if c == b'+' then 32 else if c == b'%' then from_hex (get_or rest 0 0) (get_or rest 1 0) else c

-- The loop; the first argument counts the bytes that `i += 2` still passes over.
decode_from : ℕ → Bytes → Bytes
decode_from skip [] = []
decode_from (suc skip) (c ∷ rest) = decode_from skip rest
decode_from zero (c ∷ rest) = decode_char c rest ∷ decode_from (if c == b'%' then 2 else 0) rest

unfoldable pub uri_decode : Str → Bytes
unfolding decode_from decode_char from_hex
uri_decode s = decode_from 0 (text s)

-- How a scan of a form ends: with the table, in `halt` at a full table, or not within the fuel.
pub data Form : Type 0 where
  null : Form
  form : Headers → Form
  halted : Form
  running : Form

keep_on : (Headers → Form) → Option Headers → Form
keep_on again none = halted
keep_on again (some h) = again h

-- The loop of `parse_uri_encoded`. Of the delimiters "&\r\n" only the first counts, since the call
-- says that there is one.
pairs_from : ℕ → Bytes → ℕ → Headers → Form
unfolding keep_on
pairs_from zero buf i h = running
pairs_from (suc fuel) buf i h =
    let o = find buf i (b'=' ∷ []) 1 in
    let end = find buf (o + 1) (b'&' ∷ 13 ∷ 10 ∷ []) 1 in
    let key = from buf i (o - i) in
    let value =
      if ltb (length buf) end
      then from buf (o + 1) (length buf - (o + 1))
      else from buf (o + 1) (end - (o + 1)) in
    let next =
      keep_on (pairs_from fuel buf (end + 1)) (append_header (some h) (some key) (some value)) in
    if leb (length buf) i then form h else if leb (length buf) o then form h else next

-- Each round moves on by two positions at least, so a round more than there are bytes is enough fuel.
unfoldable pub parse_uri_encoded : Option Headers → Str → ℕ → Form
unfolding pairs_from new_headers skip_while
parse_uri_encoded head none pos = null
parse_uri_encoded head (some buf) pos =
    pairs_from (suc (length buf)) buf (skip_while is_space (drop pos buf) pos)
      (elim head [ none ↦ new_headers | some h ↦ h ])
