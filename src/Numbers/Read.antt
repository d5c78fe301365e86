-- ===== src/Numbers/Read.antt =====
-- str.c, reading numbers back: what `str_int` and `str_hex` make of a printed number, with a sign
-- before it and with other bytes behind it.
use jawas.Base.{
  ℕ, zero, suc, ◌+◌, ◌*◌, ◌/◌, ◌%◌, ◌^◌, ◌≤◌, ◌<◌, false, ◌≡◌, refl, ap, ◌∙◌, arith, Bytes, [], ◌∷◌,
  ◌++◌, some, ◌==◌, append-nil,
}
use native.Mathlib.Nat.{pow-zero, pow-suc}
use jawas.Str.{between, at}
use jawas.Numbers.{
  int_mod, reg_mod, magnitude, negate, int_len, hex_len, print_digits, dec_digit, hex_digit,
  int_print, hex_print, int_str, hex_str, scan_int, str_int, scan_hex, str_hex,
}
use jawas.Numbers.Print.{int_len_pos, int_len_fits, hex_len_fits}

-- A reader that takes in one digit of the base at a time.
module _ {R : Type 0} (base : ℕ) (digit : ℕ → ℕ) (read : Bytes → ℕ → R)
    (below : (t m : ℕ) → t < m * base → t / base < m) (last : (t : ℕ) → t % base < base)
    (joins : (t : ℕ) → (t / base % int_mod * base + t % base) % int_mod ≡ t % int_mod)
    (takes : (d r : ℕ) (out : Bytes)
      → d < base
      → read (digit d ∷ out) r ≡ read out ((r * base + d) % int_mod)) where
  read-print_digits :
      (l t : ℕ) (out : Bytes)
      → t < base ^ l
      → read (print_digits base digit l t out) 0 ≡ read out (t % int_mod)
  unfolding print_digits
  read-print_digits zero t out h = let z : t % int_mod ≡ 0 = omega (arith, rw pow-zero at h) in rw z
  read-print_digits (suc l) t out h =
      read-print_digits l (t / base) (digit (t % base) ∷ out) (below t (base ^ l) (rw pow-suc at h))
      ∙ takes (t % base) (t / base % int_mod) out (last t)
      ∙ ap (read out) (joins t)

scan_int_takes :
    (d r : ℕ) (out : Bytes)
    → d < 10
    → scan_int (dec_digit d ∷ out) r ≡ scan_int out ((r * 10 + d) % int_mod)
unfolding scan_int
scan_int_takes d r out h = ground arith

scan_hex_takes :
    (d r : ℕ) (out : Bytes)
    → d < 16
    → scan_hex (hex_digit d ∷ out) r ≡ scan_hex out ((r * 16 + d) % int_mod)
unfolding scan_hex
scan_hex_takes d r out h = ground arith

magnitude-le : (i : ℕ) → magnitude (i % int_mod) ≤ i
magnitude-le i = ground arith

print_digits-append :
    (base : ℕ) (digit : ℕ → ℕ) (l t : ℕ) (out rest : Bytes)
    → print_digits base digit l t out ++ rest ≡ print_digits base digit l t (out ++ rest)
unfolding print_digits
print_digits-append base digit zero t out rest = refl
print_digits-append base digit (suc l) t out rest =
    print_digits-append base digit l (t / base) _ rest

scan_int-int_str :
    (i : ℕ) (rest : Bytes)
    → i < reg_mod
    → scan_int (int_str i ++ rest) 0 ≡ scan_int rest (magnitude (i % int_mod))
unfolding int_str int_print
scan_int-int_str i rest h = rw print_digits-append (
    read-print_digits 10 dec_digit scan_int (λ t m p. omega arith) (λ t. omega arith)
      (λ t. omega arith) scan_int_takes (int_len i) (magnitude (i % int_mod)) rest
      (omega (arith, magnitude-le i, int_len_fits i h))
    ∙ ap (scan_int rest) (ground arith))

-- Where the digits of a number end: at the end of the text, or before a byte that is no digit.
abbrev pub NoDigit : Bytes → Type 0
NoDigit [] = Unit
NoDigit (c ∷ rest) = between b'0' c b'9' ≡ false

scan_int-NoDigit : (rest : Bytes) (r : ℕ) → NoDigit rest → (scan_int rest r).0 ≡ r
unfolding scan_int
scan_int-NoDigit [] r h = refl
scan_int-NoDigit (c ∷ rest) r h = rw h

-- The text of a number begins with a digit.
first_digit :
    (l t d : ℕ) (out rest : Bytes)
    → d < 10
    → (at (some (print_digits 10 dec_digit l t (dec_digit d ∷ out) ++ rest)) 0 == b'-') ≡ false
unfolding print_digits
first_digit zero t d out rest h = ground arith
first_digit (suc l) t d out rest h =
    first_digit l (t / 10) (t % 10) (dec_digit d ∷ out) rest (omega arith)

int_str_unsigned :
    (i : ℕ) (rest : Bytes) → i < reg_mod → (at (some (int_str i ++ rest)) 0 == b'-') ≡ false
unfolding int_str int_print print_digits
int_str_unsigned i rest h =
    let (l, e) = int_len_pos i h in
    let t = magnitude (i % int_mod) in rw e (first_digit l (t / 10) (t % 10) [] rest (omega arith))

-- A printed `reg` reads back, up to the first byte that is no digit, as the magnitude of its lower
-- half taken as an `int`: as itself below 2^31, and as another number from there on.
pub str_int-int_str :
    (i : ℕ) (rest : Bytes)
    → i < reg_mod
    → NoDigit rest
    → str_int (some (int_str i ++ rest)) ≡ magnitude (i % int_mod)
unfolding str_int
str_int-int_str i rest h stop = rw (int_str_unsigned i rest h) (
    ground (arith, scan_int-int_str i rest h, scan_int-NoDigit rest (magnitude (i % int_mod)) stop))

-- A minus sign before a number negates it if the text ends with the number; if any byte that is no
-- digit follows, the sign is lost.
pub str_int_minus :
    (i c : ℕ) (rest : Bytes)
    → i < reg_mod
    → between b'0' c b'9' ≡ false
    → (str_int (some (b'-' ∷ int_str i)) ≡ negate (magnitude (i % int_mod)))
      × (str_int (some (b'-' ∷ (int_str i ++ c ∷ rest))) ≡ magnitude (i % int_mod))
unfolding str_int scan_int
str_int_minus i c rest h nd = (
  ground (arith, scan_int-int_str i [] h, append-nil (int_str i)),
  rw (scan_int-int_str i (c ∷ rest) h, nd),
)

-- A printed 64-bit number reads back in base 16 as its lower 32 bits.
pub str_hex-hex_str : (i : ℕ) → i < reg_mod → str_hex (some (hex_str i)) ≡ i % int_mod
unfolding str_hex hex_str hex_print scan_hex
str_hex-hex_str i h =
    read-print_digits 16 hex_digit scan_hex (λ t m p. omega arith) (λ t. omega arith)
      (λ t. omega arith) scan_hex_takes (hex_len i) i [] (hex_len_fits i h)
