-- ===== src/Numbers/Print.antt =====
-- str.c, `int_len` and `hex_len`: the length is enough for the number, and it is not too long.
use jawas.Base.{
  ℕ, zero, suc, ◌+◌, ◌*◌, ◌/◌, ◌%◌, ◌^◌, ◌≤◌, ◌<◌, ◌≡◌, arith, length, Bytes, All, [], ◌∷◌,
  Bool-cases, ◌==◌, inl, inr,
}
use native.Mathlib.Nat.{pow-zero, pow-suc}
use jawas.Numbers.{
  reg_mod, count_rounds, int_len, hex_len, print_digits, hex_digit, hex_print, hex_str,
}

-- Facts about division by the base, which `omega` proves at each base.
module _ (base : ℕ) (halves : (t : ℕ) → t / base ≤ t / 2)
    (grows : (t m : ℕ) → t / base < m → t < m * base) where
  count_rounds_lem :
      (fuel t l : ℕ)
      → t < 2 ^ fuel
      → (r : ℕ) × (count_rounds fuel base t l ≡ l + r) × (t < base ^ r)
  unfolding count_rounds
  count_rounds_lem zero t l h = (0, omega arith, rw pow-zero h)
  count_rounds_lem (suc fuel) t l h = elim (Bool-cases (t == 0)) [
    | inl z ↦ (0, ground arith, rw pow-zero (ground arith))
    | inr nz ↦
        let (r, e, p) =
          count_rounds_lem fuel (t / base) (l + 1) (omega (arith, halves t, pow-suc 2 fuel, h)) in
        (suc r, rw nz (omega (arith, e)), rw pow-suc (grows t (base ^ r) p))
  ]

  -- The length that is counted has room for every digit.
  fits : (i : ℕ) → i < 2 ^ 64 → i < base ^ count_rounds 64 base (i / base) 1
  fits i h =
      let (r, e, p) = count_rounds_lem 64 (i / base) 1 (omega (arith, halves i)) in
      let e' : 1 + r ≡ suc r = omega arith in rw (e, e', pow-suc) (grows i (base ^ r) p)

pub int_len_fits : (i : ℕ) → i < reg_mod → i < 10 ^ int_len i
unfolding int_len
int_len_fits i h = fits 10 (λ t. omega arith) (λ t m p. omega arith) i h

pub hex_len_fits : (i : ℕ) → i < reg_mod → i < 16 ^ hex_len i
unfolding hex_len
hex_len_fits i h = fits 16 (λ t. omega arith) (λ t m p. omega arith) i h

pub length-print_digits :
    (base : ℕ) (digit : ℕ → ℕ) (l t : ℕ) (out : Bytes)
    → length (print_digits base digit l t out) ≡ l + length out
unfolding print_digits
length-print_digits base digit zero t out = omega arith
length-print_digits base digit (suc l) t out =
    omega (arith, length-print_digits base digit l (t / base) (digit (t % base) ∷ out))

-- A printed number has at least one digit.
pub int_len_pos : (i : ℕ) → i < reg_mod → (l : ℕ) × (int_len i ≡ suc l)
unfolding int_len
int_len_pos i h =
    let (r, e, p) =
      count_rounds_lem 10 (λ t. omega arith) (λ t m q. omega arith) 64 (i / 10) 1 (omega arith) in
    (r, omega (arith, e))

-- A property of every digit is one of every byte printed.
print_digits-All :
    (base : ℕ) (digit : ℕ → ℕ) (P : ℕ → Type 0) (l t : ℕ) (out : Bytes)
    → ((n : ℕ) → P (digit (n % base)))
    → All P out
    → All P (print_digits base digit l t out)
unfolding print_digits
print_digits-All base digit P zero t out h ok = ok
print_digits-All base digit P (suc l) t out h ok =
    print_digits-All base digit P l (t / base) _ h (h t, ok)

pub hex_str-All : (i : ℕ) (P : ℕ → Type 0) → ((n : ℕ) → P (hex_digit (n % 16))) → All P (hex_str i)
unfolding hex_str hex_print
hex_str-All i P h = print_digits-All 16 hex_digit P (hex_len i) i [] h tt
