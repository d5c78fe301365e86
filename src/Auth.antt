-- ===== src/Auth.antt =====
-- auth.c, `hex`: the bytes of a digest in hexadecimal. The digests themselves are OpenSSL's.
mod Tests
use jawas.Base.{
  ℕ, ◌+◌, ◌-◌, ◌*◌, ◌/◌, ◌%◌, ◌≤◌, ◌<◌, List, [], ◌∷◌, ◌++◌, Option, none, some, ◌≡◌, refl, ap, ◌∙◌,
  arith, leb, if◌then◌else◌, All, Bytes, Str, IsByte, codes, text, ◌>>=◌, append_assoc, append-nil,
  sym,
}
use jawas.Numbers.{hex_digit, hex_str, hex_str_digit}
use jawas.Format.{str, number, new_str}
use jawas.Format.Pieces.{new_str-pieces, string, hexadecimal}

-- `(0x0f0 & c) >> 4` and `0x0f & c`.
abbrev pub high : ℕ → ℕ
high c = c / 16 % 16

abbrev pub low : ℕ → ℕ
low c = c % 16

-- One round: the text so far, if there is one, and the two digits of a byte.
abbrev hex_round : Str → ℕ → Option Bytes
hex_round none c = new_str (codes "%h%h") (number (high c) ∷ number (low c) ∷ [])
hex_round (some retval) c =
    new_str (codes "%s%h%h") (str (some retval) ∷ number (high c) ∷ number (low c) ∷ [])

pub hex_from : Str → Bytes → Option Str
hex_from retval [] = some retval
hex_from retval (c ∷ rest) = hex_round retval c >>= λ t. hex_from (some t) rest

-- NULL for no bytes.
unfoldable pub hex : Bytes → Option Str
unfolding hex_from
hex d = hex_from none d

hex_round_digits :
    (retval : Str) (c : ℕ)
    → hex_round retval c ≡ some (text retval ++ hex_digit (high c) ∷ hex_digit (low c) ∷ [])
hex_round_digits none c =
    new_str-pieces (hexadecimal (high c) ∷ hexadecimal (low c) ∷ []) (tt, (tt, tt))
    ∙ ap some (rw (hex_str_digit (high c) (omega arith), hex_str_digit (low c) (omega arith)) refl)
hex_round_digits (some t) c =
    new_str-pieces (string t ∷ hexadecimal (high c) ∷ hexadecimal (low c) ∷ []) (tt, (tt, (tt, tt)))
    ∙ ap some (rw (hex_str_digit (high c) (omega arith), hex_str_digit (low c) (omega arith)) refl)

-- The value of a hexadecimal digit, and the bytes that pairs of digits stand for.
abbrev pub digit_value : ℕ → ℕ
digit_value d = if leb d b'9' then d - b'0' else d + 10 - b'a'

abbrev pub unhex : Bytes → Bytes
unhex [] = []
unhex (a ∷ []) = []
unhex (a ∷ b ∷ rest) = (16 * digit_value a + digit_value b) ∷ unhex rest

digit_value-hex_digit : (n : ℕ) → n < 16 → digit_value (hex_digit n) ≡ n
digit_value-hex_digit n h = ground arith

pairs : Bytes → Bytes
pairs [] = []
pairs (c ∷ rest) = hex_digit (high c) ∷ hex_digit (low c) ∷ pairs rest

hex_from-pairs : (t : Bytes) (d : Bytes) → hex_from (some t) d ≡ some (some (t ++ pairs d))
unfolding hex_from pairs
hex_from-pairs t [] = ap (λ x. some (some x)) (sym (append-nil t))
hex_from-pairs t (c ∷ d) =
    ap (λ o. o >>= λ x. hex_from (some x) d) (hex_round_digits (some t) c)
    ∙ hex_from-pairs (t ++ hex_digit (high c) ∷ hex_digit (low c) ∷ []) d
    ∙ ap (λ x. some (some x)) (append_assoc t _ (pairs d))

unhex-pairs : (d : Bytes) → All IsByte d → unhex (pairs d) ≡ d
unfolding pairs
unhex-pairs [] h = refl
unhex-pairs (c ∷ d) (hc, h) =
    ap (λ x. x ∷ unhex (pairs d))
      (ap (λ x. 16 * x + digit_value (hex_digit (low c)))
          (digit_value-hex_digit (high c) (omega arith))
        ∙ ap (λ x. 16 * high c + x) (digit_value-hex_digit (low c) (omega arith))
        ∙ omega arith)
    ∙ ap (λ t. c ∷ t) (unhex-pairs d h)

-- Some bytes are written as two hexadecimal digits each, from which they are read back.
pub unhex-hex :
    (c : ℕ) (d : Bytes)
    → IsByte c
    → All IsByte d
    → (t : Bytes) × (hex (c ∷ d) ≡ some (some t)) × (unhex t ≡ c ∷ d)
unfolding hex pairs
unhex-hex c d hc h = (
  pairs (c ∷ d),
  ap (λ o. o >>= λ x. hex_from (some x) d) (hex_round_digits none c)
      ∙ hex_from-pairs (hex_digit (high c) ∷ hex_digit (low c) ∷ []) d,
  unhex-pairs (c ∷ d) (hc, h),
)
