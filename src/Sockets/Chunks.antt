-- ===== src/Sockets/Chunks.antt =====
-- sockets.c: the chunked coding that `write_chunk` and `write_chunked_socket` produce, and a decoder for
-- it that is written from the coding's grammar and not from the source.
use jawas.Base.{
  ℕ, zero, suc, ◌+◌, ◌-◌, ◌%◌, ◌≤◌, ◌<◌, false, [], ◌∷◌, ◌++◌, Option, none, some, ◌≡◌, refl, ap,
  ◌∙◌, arith, ◌==◌, if◌then◌else◌, length, length-take, length-drop, take, take-append, drop,
  drop-append_past, take-append-drop, min, All, Bytes, append_assoc, ◌>>=◌,
}
use native.Mathlib.Nat.{zero-add}
use jawas.Str.{crlf, one_of, find, find_from, read_line}
use jawas.Str.Search.{Clear, find_from-Clear, find_from_hit}
use jawas.Numbers.{int_mod, hex_digit, hex_str, str_hex}
use jawas.Numbers.Print.{hex_str-All}
use jawas.Numbers.Read.{str_hex-hex_str}
use jawas.Sockets.{max_write_size}

abbrev pub chunk_of : Bytes → Bytes
chunk_of d = hex_str (length d) ++ (crlf ++ (d ++ crlf))

-- The empty chunk that ends a message.
abbrev pub last_chunk : Bytes
last_chunk = hex_str 0 ++ (crlf ++ crlf)

-- The chunks of a text, each as long as `write_chunked_socket` makes it.
unfoldable pub chunks_of : ℕ → Bytes → Bytes
chunks_of zero rest = []
chunks_of (suc fuel) [] = []
chunks_of (suc fuel) (c ∷ rest) =
    chunk_of (take max_write_size (c ∷ rest)) ++ chunks_of fuel (drop max_write_size (c ∷ rest))

-- Reads a size in hexadecimal up to the end of the line, then that many bytes and a line break, until a
-- size is 0. `none` is a message that does not end within the fuel.
unfoldable pub decode_chunks : ℕ → Bytes → Option Bytes
decode_chunks zero src = none
decode_chunks (suc fuel) src =
    let line = read_line src 0 in
    let size = str_hex (some line) in
    let behind = drop (length line + 2) src in
    let rest = decode_chunks fuel (drop (size + 2) behind) in
    if size == 0 then some [] else rest >>= λ b. some (take size behind ++ b)

hex_digit-Clear : (n : ℕ) → Clear crlf (hex_digit (n % 16))
unfolding one_of
hex_digit-Clear n = ground arith

hex_str-Clear : (i : ℕ) → All (Clear crlf) (hex_str i)
hex_str-Clear i = hex_str-All i (Clear crlf) hex_digit-Clear

-- The first line of a text that begins with a size.
read_line-hex_str : (i : ℕ) (rest : Bytes) → read_line (hex_str i ++ (crlf ++ rest)) 0 ≡ hex_str i
unfolding read_line find one_of
read_line-hex_str i rest =
    rw stop (take-append (hex_str i) (crlf ++ rest) (length (hex_str i) - 0) (omega arith))
  where
    stop : find_from crlf (hex_str i ++ (crlf ++ rest)) 0 ≡ length (hex_str i)
    stop =
        find_from-Clear crlf (hex_str i) (crlf ++ rest) 0 (hex_str-Clear i)
        ∙ find_from_hit crlf (10 ∷ rest) 13 _ refl
        ∙ zero-add _

chunk_line :
    (d tail : Bytes) → chunk_of d ++ tail ≡ hex_str (length d) ++ (crlf ++ (d ++ (crlf ++ tail)))
chunk_line d tail = simp append_assoc

decode_next : ℕ → Bytes → Bytes → Option Bytes
decode_next fuel line src =
    let size = str_hex (some line) in
    let behind = drop (length line + 2) src in
    let rest = decode_chunks fuel (drop (size + 2) behind) in
    if size == 0 then some [] else rest >>= λ b. some (take size behind ++ b)

decode_chunks-next :
    (fuel : ℕ) (src line : Bytes)
    → read_line src 0 ≡ line
    → decode_chunks (suc fuel) src ≡ decode_next fuel line src
unfolding decode_chunks decode_next
decode_chunks-next fuel src line e = ap (λ l. decode_next fuel l src) e

-- One chunk that is not empty, before the bytes `tail`.
pub decode_chunk :
    (fuel : ℕ) (d tail : Bytes)
    → 0 < length d
    → length d < int_mod
    → decode_chunks (suc fuel) (chunk_of d ++ tail)
      ≡ (decode_chunks fuel tail >>= λ b. some (d ++ b))
unfolding decode_next
decode_chunk fuel d tail pos small =
    ap (decode_chunks (suc fuel)) (chunk_line d tail)
    ∙ decode_chunks-next fuel _ line (read_line-hex_str (length d) (d ++ (crlf ++ tail)))
    ∙ rw
        (
          size,
          behind,
          nonzero,
          take-append d (crlf ++ tail) (length d) refl,
          drop-append_past d (crlf ++ tail) 2 (length d + 2) refl,
        )
        refl
  where
    line : Bytes
    line = hex_str (length d)

    size : str_hex (some line) ≡ length d
    size = omega (arith, str_hex-hex_str (length d))

    behind : drop (length line + 2) (line ++ (crlf ++ (d ++ (crlf ++ tail)))) ≡ d ++ (crlf ++ tail)
    behind = drop-append_past line (crlf ++ (d ++ (crlf ++ tail))) 2 (length line + 2) refl

    nonzero : (length d == 0) ≡ false
    nonzero = ground arith

pub decode_last : (fuel : ℕ) → decode_chunks (suc fuel) last_chunk ≡ some []
unfolding decode_next
decode_last fuel =
    decode_chunks-next fuel last_chunk (hex_str 0) (read_line-hex_str 0 crlf)
    ∙ rw (str_hex-hex_str 0 (omega arith)) refl

-- Whatever stands behind the last chunk is not read.
pub decode_last_before :
    (fuel : ℕ) (tail : Bytes) → decode_chunks (suc fuel) (last_chunk ++ tail) ≡ some []
unfolding decode_next
decode_last_before fuel tail =
    ap (decode_chunks (suc fuel)) (append_assoc (hex_str 0) (crlf ++ crlf) tail)
    ∙ decode_chunks-next fuel _ (hex_str 0) (read_line-hex_str 0 (crlf ++ tail))
    ∙ rw (str_hex-hex_str 0 (omega arith)) refl

-- The chunks of a text with the last chunk behind them are decoded to the text, with a round more than
-- the text has bytes.
pub decode_chunks-chunks_of :
    (fuel : ℕ) (rest : Bytes)
    → length rest ≤ fuel
    → decode_chunks (suc fuel) (chunks_of fuel rest ++ last_chunk) ≡ some rest
unfolding chunks_of
decode_chunks-chunks_of zero [] h = decode_last zero
decode_chunks-chunks_of zero (c ∷ rest) h = absurd (omega arith)
decode_chunks-chunks_of (suc fuel) [] h = decode_last (suc fuel)
decode_chunks-chunks_of (suc fuel) (c ∷ rest) h =
    ap (decode_chunks (suc (suc fuel)))
      (append_assoc (chunk_of piece) (chunks_of fuel others) last_chunk)
    ∙ decode_chunk (suc fuel) piece (chunks_of fuel others ++ last_chunk) (omega (arith, len))
        (omega (arith, len))
    ∙ ap (λ r. r >>= λ b. some (piece ++ b))
        (decode_chunks-chunks_of fuel others (omega (arith, length-drop max_write_size (c ∷ rest))))
    ∙ ap some (take-append-drop max_write_size (c ∷ rest))
  where
    piece : Bytes
    piece = take max_write_size (c ∷ rest)

    others : Bytes
    others = drop max_write_size (c ∷ rest)

    len : length piece ≡ min max_write_size (length (c ∷ rest))
    len = length-take max_write_size (c ∷ rest)
