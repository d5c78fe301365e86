-- ===== src/Uri/Coding.antt =====
-- uri.c, `uri_encode` and `uri_decode`: decoding undoes encoding on ASCII, and encoding reads outside its
-- table at any other byte.
use jawas.Base.{
  ◌+◌, ℕ, zero, suc, ◌/◌, ◌%◌, ◌≤◌, ◌<◌, Bool, true, false, ◌&&◌, [], ◌∷◌, ◌++◌, none, some, ◌≡◌,
  refl, ap, ◌∙◌, arith, ltb, lt→ltb, ◌==◌, ==_iff, if◌then◌else◌, Bool-cases, inl, inr, length,
  length-append, get_or, All, Bytes, Str, text,
}
use native.Mathlib.Decide.{dec_lt}
use jawas.Str.{one_of}
use jawas.Uri.{
  hex_chars, is_mark_char, is_clean_char, encoded_size, encode_char, encode_from, uri_encode,
  from_hex, decode_char, decode_from, uri_decode,
}

abbrev pub Ascii : ℕ → Type 0
Ascii c = c < 128

-- The test passes for each of the `count` values from `start` on.
passes_from : (test : ℕ → Bool) (count start : ℕ) → Bool
passes_from test zero start = true
passes_from test (suc count) start = test start && passes_from test count (start + 1)

passes_from_lem :
    (test : ℕ → Bool) (count start c : ℕ)
    → passes_from test count start ≡ true
    → start ≤ c
    → c < start + count
    → test c ≡ true
unfolding passes_from
passes_from_lem test zero start c h low high = absurd (omega arith)
passes_from_lem test (suc count) start c h low high = elim (dec_lt start c) [
  | yes further ↦
      passes_from_lem test count (start + 1) c (ground arith) (omega arith) (omega arith)
  | no here ↦ let e : c ≡ start = omega arith in rw e (ground arith)
]

abbrev hex_pair : ℕ → ℕ
hex_pair c = from_hex (get_or hex_chars (c / 16) 0) (get_or hex_chars (c % 16) 0)

hex_table : passes_from (λ c. hex_pair c == c) 128 0 ≡ true
unfolding passes_from from_hex
hex_table = refl

-- Reading the two digits of a byte gives the byte.
hex_pair_lem : (c : ℕ) → c < 128 → hex_pair c ≡ c
hex_pair_lem c h = (==_iff _ c).0 (passes_from_lem _ 128 0 c hex_table (omega arith) (omega arith))

clean_plain : (c : ℕ) → is_clean_char c ≡ true → ((c == b'+') ≡ false) × ((c == b'%') ≡ false)
unfolding is_clean_char is_mark_char one_of
clean_plain c h = ground arith

encode_clean : (c : ℕ) → is_clean_char c ≡ true → encode_char c ≡ some (c ∷ [])
unfolding encode_char
encode_clean c h = rw h

abbrev hex_digits : ℕ → Bytes
hex_digits c = b'%' ∷ get_or hex_chars (c / 16) 0 ∷ get_or hex_chars (c % 16) 0 ∷ []

encode_hex : (c : ℕ) → is_clean_char c ≡ false → c < 128 → encode_char c ≡ some (hex_digits c)
unfolding encode_char
encode_hex c h lt = rw (h, lt→ltb c 128 lt)

clean_high : (c : ℕ) → 128 ≤ c → is_clean_char c ≡ false
unfolding is_clean_char is_mark_char one_of
clean_high c h = ground arith

encode_high : (c : ℕ) → 128 ≤ c → encode_char c ≡ none
unfolding encode_char
encode_high c h = let e : ltb c 128 ≡ false = ground arith in rw (clean_high c h, e)

decode_clean :
    (c : ℕ) (rest : Bytes)
    → is_clean_char c ≡ true
    → decode_from 0 (c ∷ rest) ≡ c ∷ decode_from 0 rest
unfolding decode_from decode_char
decode_clean c rest h = let (p, q) = clean_plain c h in rw (p, q)

decode_hex :
    (c : ℕ) (rest : Bytes) → c < 128 → decode_from 0 (hex_digits c ++ rest) ≡ c ∷ decode_from 0 rest
unfolding decode_from decode_char
decode_hex c rest h = ap (λ x. x ∷ decode_from 0 rest) (hex_pair_lem c h)

-- Every ASCII byte has an encoding, of the size that is counted, which is decoded to the byte whatever
-- follows.
encode_char_lem :
    (c : ℕ)
    → Ascii c
    → (e : Bytes) × (encode_char c ≡ some e)
      × (length e ≡ (if is_clean_char c then 1 else 3))
      × ((rest : Bytes) → decode_from 0 (e ++ rest) ≡ c ∷ decode_from 0 rest)
encode_char_lem c h = elim (Bool-cases (is_clean_char c)) [
  | inl clean ↦ (c ∷ [], encode_clean c clean, rw clean, λ rest. decode_clean c rest clean)
  | inr other ↦ (hex_digits c, encode_hex c other h, rw other, λ rest. decode_hex c rest h)
]

encode_from_lem :
    (s : Bytes)
    → All Ascii s
    → (e : Bytes) × (encode_from s ≡ some e) × (length e ≡ encoded_size s) × (decode_from 0 e ≡ s)
unfolding encode_from encoded_size
encode_from_lem [] h = ([], refl, refl, unfold decode_from in refl)
encode_from_lem (c ∷ s) (hc, h) =
    let (e, p, q, r) = encode_char_lem c hc in
    let (es, p', q', r') = encode_from_lem s h in
    (e ++ es, rw (p, p'), omega (arith, length-append e es, q, q'), r es ∙ ap (λ t. c ∷ t) r')

-- Encoding ASCII text succeeds, fills exactly the bytes that were counted for it, and is undone by
-- decoding.
pub uri_decode-uri_encode :
    (s : Bytes)
    → All Ascii s
    → (e : Bytes) × (uri_encode (some s) ≡ some e)
      × (length e ≡ encoded_size s)
      × (uri_decode (some e) ≡ s)
unfolding uri_encode uri_decode
uri_decode-uri_encode s h = encode_from_lem s h

-- A text with a byte from 128 on, anywhere in it, makes `uri_encode` read outside its table.
pub uri_encode_outside : (p s : Bytes) (c : ℕ) → 128 ≤ c → uri_encode (some (p ++ c ∷ s)) ≡ none
unfolding uri_encode encode_from
uri_encode_outside [] s c h = rw (encode_high c h)
uri_encode_outside (d ∷ p) s c h = rw (uri_encode_outside p s c h) (ground arith)

length-decode_from : (skip : ℕ) (s : Bytes) → length (decode_from skip s) ≤ length s
unfolding decode_from
length-decode_from zero [] = omega arith
length-decode_from (suc skip) [] = omega arith
length-decode_from (suc skip) (c ∷ s) = omega (arith, length-decode_from skip s)
length-decode_from zero (c ∷ s) = omega (arith, length-decode_from (if c == b'%' then 2 else 0) s)

-- Decoding any text writes no more bytes than it has, which is the size of the buffer.
pub length-uri_decode : (s : Str) → length (uri_decode s) ≤ length (text s)
unfolding uri_decode
length-uri_decode s = length-decode_from 0 (text s)
