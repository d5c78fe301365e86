-- ===== src/Str/Order.antt =====
-- str.c, `lesser`: the lexicographic order of strings of signed `char`, and its laws.
use jawas.Base.{
  ℕ, suc, ◌+◌, Bool, true, false, [], ◌∷◌, ◌≡◌, refl, arith, ltb, if◌then◌else◌, length, get_or,
  All, Bytes, Str, text, signed_rank, IsByte, min,
}
use native.Mathlib.Nat.{zero-add, add-zero, add-suc, suc-add}
use jawas.Str.{at, len, lesser_from, lesser}
use jawas.Str.Compare.{at-text, len-text}

-- The order of a dictionary whose letters are ordered as signed `char`s.
abbrev pub lex_lt : Bytes → Bytes → Bool
lex_lt [] [] = false
lex_lt [] (y ∷ ys) = true
lex_lt (x ∷ xs) [] = false
lex_lt (x ∷ xs) (y ∷ ys) =
    if ltb (signed_rank x) (signed_rank y)
    then true
    else if ltb (signed_rank y) (signed_rank x)
    then false
    else lex_lt xs ys

min-suc : (n m : ℕ) → min (suc n) (suc m) ≡ suc (min n m)
min-suc n m = omega arith

min-zero : (n : ℕ) → min n 0 ≡ 0
min-zero n = omega arith

zero-min : (n : ℕ) → min 0 n ≡ 0
zero-min n = omega arith

-- From index `i` on the loop compares what stands there.
lesser_from-lex_lt :
    (a b : Str) (xs ys : Bytes) (i : ℕ)
    → ((j : ℕ) → at a (i + j) ≡ get_or xs j 0)
    → ((j : ℕ) → at b (i + j) ≡ get_or ys j 0)
    → len a ≡ i + length xs
    → len b ≡ i + length ys
    → lesser_from a b (min (length xs) (length ys)) i ≡ lex_lt xs ys
unfolding lesser_from
lesser_from-lex_lt a b [] [] i p q la lb = ground arith
lesser_from-lex_lt a b [] (y ∷ ys) i p q la lb = rw (zero-min _) (ground arith)
lesser_from-lex_lt a b (x ∷ xs) [] i p q la lb = rw (min-zero _) (ground arith)
lesser_from-lex_lt a b (x ∷ xs) (y ∷ ys) i p q la lb =
    let hx : at a i ≡ x = rw add-zero at (p 0) in
    let hy : at b i ≡ y = rw add-zero at (q 0) in
    let ih =
      lesser_from-lex_lt a b xs ys (suc i) (λ j. rw (suc-add, ← add-suc) (p (suc j)))
        (λ j. rw (suc-add, ← add-suc) (q (suc j))) (omega arith) (omega arith) in
    rw (min-suc, hx, hy, ih)

-- `lesser` is the lexicographic order.
pub lesser-lex_lt : (a b : Str) → lesser a b ≡ lex_lt (text a) (text b)
unfolding lesser
lesser-lex_lt a b =
    rw (len-text a, len-text b)
      (lesser_from-lex_lt a b (text a) (text b) 0 (λ j. rw zero-add (at-text a j))
        (λ j. rw zero-add (at-text b j)) (omega (arith, len-text a)) (omega (arith, len-text b)))

lex_lt_trans :
    (xs ys zs : Bytes) → lex_lt xs ys ≡ false → lex_lt ys zs ≡ false → lex_lt xs zs ≡ false
lex_lt_trans [] [] zs h k = k
lex_lt_trans [] (y ∷ ys) zs h k = cc
lex_lt_trans (x ∷ xs) ys [] h k = refl
lex_lt_trans (x ∷ xs) [] (z ∷ zs) h k = cc
lex_lt_trans (x ∷ xs) (y ∷ ys) (z ∷ zs) h k = ground (arith, lex_lt_trans xs ys zs)

lex_lt_asymm : (xs ys : Bytes) → lex_lt xs ys ≡ true → lex_lt ys xs ≡ false
lex_lt_asymm [] [] h = cc
lex_lt_asymm [] (y ∷ ys) h = refl
lex_lt_asymm (x ∷ xs) [] h = cc
lex_lt_asymm (x ∷ xs) (y ∷ ys) h = ground (arith, lex_lt_asymm xs ys)

signed_rank-injective : (x y : ℕ) → IsByte x → IsByte y → signed_rank x ≡ signed_rank y → x ≡ y
signed_rank-injective x y hx hy e = omega arith

lex_lt_total :
    (xs ys : Bytes)
    → All IsByte xs
    → All IsByte ys
    → lex_lt xs ys ≡ false
    → lex_lt ys xs ≡ false
    → xs ≡ ys
lex_lt_total [] [] p q h k = refl
lex_lt_total [] (y ∷ ys) p q h k = cc
lex_lt_total (x ∷ xs) [] p q h k = cc
lex_lt_total (x ∷ xs) (y ∷ ys) p q h k =
    ground (arith, lex_lt_total xs ys, signed_rank-injective x y)

pub lesser_asymm : (a b : Str) → lesser a b ≡ true → lesser b a ≡ false
lesser_asymm a b h =
    rw (lesser-lex_lt b a) (lex_lt_asymm (text a) (text b) (rw (lesser-lex_lt a b) at h))

-- `not lesser` is transitive, so it is a preorder that compares every two strings.
pub lesser_trans : (a b c : Str) → lesser a b ≡ false → lesser b c ≡ false → lesser a c ≡ false
lesser_trans a b c h k = rw (lesser-lex_lt a c) (
    lex_lt_trans (text a) (text b) (text c) (rw (lesser-lex_lt a b) at h)
      (rw (lesser-lex_lt b c) at k))

-- Two strings of bytes of which neither is lesser than the other are equal.
pub lesser_total :
    (a b : Str)
    → All IsByte (text a)
    → All IsByte (text b)
    → lesser a b ≡ false
    → lesser b a ≡ false
    → text a ≡ text b
lesser_total a b p q h k =
    lex_lt_total (text a) (text b) p q (rw (lesser-lex_lt a b) at h) (rw (lesser-lex_lt b a) at k)
