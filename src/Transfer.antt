-- ===== src/Transfer.antt =====
-- transfer.c: how long the body of a message is.
mod Tests
use jawas.Base.{
  ℕ, zero, suc, ◌+◌, ◌-◌, ◌%◌, ◌<◌, Bool, true, false, ◌&&◌, not, List, [], ◌∷◌, ◌++◌, Option, none,
  some, ◌≡◌, refl, ap, ◌∙◌, ◌==◌, if◌then◌else◌, length, Bytes, Str, text, codes, arith, ◌>>=◌, ltb,
  get_or,
}
use jawas.Str.{from, len, icmp, read_line, skip_headers, crlf, one_of}
use jawas.Str.Search.{more_on_line, skip_headers_lem}
use jawas.Numbers.{int_mod, str_int, str_hex}
use jawas.Files.{File}
use jawas.Headers.{Headers, find_header}

abbrev has_chunked : Str → Bool
has_chunked none = false
has_chunked (some enc) = icmp (some enc) (some (codes "chunked"))

unfoldable pub is_chunked : Option Headers → Bool
is_chunked headers = has_chunked (find_header headers (some (codes "Transfer-Encoding")))

-- Two tables with the same coding.
pub is_chunked-find_header :
    (h h' : Option Headers)
    → find_header h (some (codes "Transfer-Encoding"))
      ≡ find_header h' (some (codes "Transfer-Encoding"))
    → is_chunked h ≡ is_chunked h'
unfolding is_chunked
is_chunked-find_header h h' e = ap has_chunked e

-- The loop of `chunked_length`; `none` is a loop that has not ended within the fuel.
chunk_lengths : ℕ → Bytes → ℕ → ℕ → Option ℕ
chunk_lengths zero src pos total = none
chunk_lengths (suc fuel) src pos total =
    let line = read_line src pos in
    let size = str_hex (some line) in
    let rest = chunk_lengths fuel src (pos + (length line + 2) + size) ((total + size) % int_mod) in
    if length line == 0 then some ((total + size) % int_mod) else rest

unfoldable pub chunked_length : ℕ → Bytes → Option ℕ
unfolding chunk_lengths
chunked_length fuel src = skip_headers fuel src 0 >>= λ pos. chunk_lengths fuel src pos 0

-- The length that the header fields give; `none` is a loop of `chunked_length` that has not ended.
unfoldable pub inbound_content_length : ℕ → Str → Option Headers → Option ℕ
inbound_content_length fuel none headers = some 0
inbound_content_length fuel (some src) none = some 0
inbound_content_length fuel (some src) (some headers) =
    if is_chunked (some headers)
    then chunked_length fuel src
    else some (str_int (find_header (some headers) (some (codes "Content-Length"))))

-- str.c, `dechunk`: the first chunk of a message. The view that it returns may reach behind the bytes of
-- the text, which are left out here.
unfoldable pub dechunk : ℕ → Bytes → Option Bytes
dechunk fuel src = skip_headers fuel src 0 >>= λ pos.
    let line = read_line src pos in some (from src (pos + length line + 2) (str_hex (some line)))

unfoldable pub outbound_content_length : Str → Option File → ℕ
outbound_content_length (some src) fc = length src
outbound_content_length none (some fc) = length fc.contents
outbound_content_length none none = 0

-- For a chunked message whose first byte is no line break the length is never found, whatever the fuel.
pub inbound_content_length-chunked :
    (fuel : ℕ) (c : ℕ) (rest : Bytes) (headers : Headers)
    → is_chunked (some headers) ≡ true
    → one_of crlf c ≡ false
    → inbound_content_length (suc fuel) (some (c ∷ rest)) (some headers) ≡ none
unfolding inbound_content_length chunked_length
inbound_content_length-chunked fuel c rest headers h hc =
    let more : more_on_line (c ∷ rest) 0 ≡ true = ground arith in
    ap
      (λ b.
        if b
        then chunked_length (suc fuel) (c ∷ rest)
        else some (str_int (find_header (some headers) (some (codes "Content-Length")))))
      h
    ∙ ap (λ p. p >>= λ pos. chunk_lengths (suc fuel) (c ∷ rest) pos 0)
        (skip_headers_lem fuel (c ∷ rest) 0 ∙ ap (λ b. if b then none else some 0) more)
