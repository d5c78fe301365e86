-- ===== src/Numbers.antt =====
-- str.c, numbers as text: `int_str`, `hex_str`, `str_int` and `str_hex`. `reg` is `uint64_t`, the
-- BITS64 build that the Makefile selects on every platform, and `int` has 32 bits: an `int` is its bit
-- pattern, and sums that leave the range wrap round, as the compiled code does.
pub mod Read
pub mod Print
mod Tests
use jawas.Base.{
  ◌<◌, ◌≡◌, refl, arith, ℕ, zero, suc, ◌+◌, ◌-◌, ◌*◌, ◌/◌, ◌%◌, ◌^◌, Bool, true, false, ◌&&◌, [],
  ◌∷◌, ltb, leb, ◌==◌, if◌then◌else◌, drop, Bytes, Str, text,
}
use jawas.Str.{between, at}

abbrev pub int_mod : ℕ
int_mod = 2 ^ 32

abbrev pub reg_mod : ℕ
reg_mod = 2 ^ 64

abbrev pub int_max : ℕ
int_max = 2 ^ 31 - 1

-- `-i` of an `int`.
abbrev pub negate : ℕ → ℕ
negate i = (int_mod - i) % int_mod

-- `i < 0 ? -i : i` of an `int`.
abbrev pub magnitude : ℕ → ℕ
magnitude i = if leb i int_max then i else int_mod - i

-- `for (; t; t = t / base) ++l;` over a 64-bit `t`: 64 rounds are enough for any base from 2 on.
count_rounds : ℕ → ℕ → ℕ → ℕ → ℕ
count_rounds zero base t l = l
count_rounds (suc fuel) base t l =
    let next = count_rounds fuel base (t / base) (l + 1) in if t == 0 then l else next

abbrev rounds : ℕ
rounds = 64

-- `reg` is unsigned, so `i < 0` never holds and the length starts at 1.
pub int_len : ℕ → ℕ
unfolding count_rounds
int_len i = count_rounds rounds 10 (i / 10) 1

pub hex_len : ℕ → ℕ
unfolding count_rounds
hex_len i = count_rounds rounds 16 (i / 16) 1

-- The loops `for (t = …; l; t = t / base) data[--l] = digit(t % base)`: the `l` bytes written, before
-- the bytes `out` that stand behind them.
pub print_digits : ℕ → (ℕ → ℕ) → ℕ → ℕ → Bytes → Bytes
print_digits base digit zero t out = out
print_digits base digit (suc l) t out =
    print_digits base digit l (t / base) (digit (t % base) ∷ out)

abbrev pub dec_digit : ℕ → ℕ
dec_digit d = d + b'0'

abbrev pub hex_digit : ℕ → ℕ
hex_digit d = if between 10 d 15 then d + b'a' - 10 else d + b'0'

-- `int_print(data, i, l)`: the parameter `i` is an `int`, so a `reg` loses its upper half.
unfoldable pub int_print : ℕ → ℕ → Bytes
unfolding print_digits
int_print i l = print_digits 10 dec_digit l (magnitude (i % int_mod)) []

unfoldable pub hex_print : ℕ → ℕ → Bytes
unfolding print_digits
hex_print i l = print_digits 16 hex_digit l i []

unfoldable pub int_str : ℕ → Bytes
unfolding int_print int_len
int_str i = int_print i (int_len i)

unfoldable pub hex_str : ℕ → Bytes
unfolding hex_print hex_len
hex_str i = hex_print i (hex_len i)

-- A number below 16 is one digit.
pub hex_str_digit : (n : ℕ) → n < 16 → hex_str n ≡ hex_digit n ∷ []
unfolding hex_str hex_print hex_len print_digits count_rounds
hex_str_digit n h =
    let one : n / 16 ≡ 0 = omega arith in let same : n % 16 ≡ n = omega arith in rw (one, same) refl

-- The loop of `str_int`: the value read, and whether the end of the text was reached.
pub scan_int : Bytes → ℕ → ℕ × Bool
scan_int [] retval = (retval, true)
scan_int (c ∷ rest) retval =
    if between b'0' c b'9'
    then scan_int rest ((retval * 10 + (c - b'0')) % int_mod)
    else (retval, false)

-- A byte that is no digit returns the value read so far, before the sign is looked at again.
unfoldable pub str_int : Str → ℕ
unfolding scan_int
str_int a =
    let minus = at a 0 == b'-' in
    let (retval, ended) = scan_int (drop (if minus then 1 else 0) (text a)) 0 in
    if ended && minus then negate retval else retval

-- One round of `str_hex`: other bytes are passed over.
abbrev hex_round : ℕ → ℕ → ℕ
hex_round retval c =
    if between b'0' c b'9'
    then (retval * 16 + (c - b'0')) % int_mod
    else if between b'a' c b'f'
    then (retval * 16 + (c - b'a' + 10)) % int_mod
    else if between b'A' c b'F'
    then (retval * 16 + (c - b'A' + 10)) % int_mod
    else retval

pub scan_hex : Bytes → ℕ → ℕ
scan_hex [] retval = retval
scan_hex (c ∷ rest) retval = scan_hex rest (hex_round retval c)

unfoldable pub str_hex : Str → ℕ
unfolding scan_hex
str_hex a = scan_hex (text a) 0
