-- ===== src/Str/Compare.antt =====
-- str.c, the comparisons: `cmp`, `icmp` and `ncmp` against equality of bytes.
use jawas.Base.{
  ℕ, zero, suc, ◌+◌, ◌<◌, Bool, true, false, not, [], ◌∷◌, map, none, some, ◌≡◌, refl, ap, ◌↔◌,
  arith, ◌==◌, if◌then◌else◌, length, get_or, take, length-take, get_or-take, ◌≤◌, Bytes, Str, text,
}
use native.Mathlib.Nat.{zero-add, add-zero, add-suc, suc-add}
use jawas.Str.{at, len, fncmp_from, fncmp, upper, not_equal, cmp, icmp, ncmp}

-- The comparison succeeds exactly if the test finds no difference at any of the indices.
fncmp_from_sound :
    (func : ℕ → ℕ → Bool) (a b : Str) (k i : ℕ)
    → fncmp_from func a b k i ≡ true
    → (j : ℕ) → j < k
    → func (at a (i + j)) (at b (i + j)) ≡ false
unfolding fncmp_from
fncmp_from_sound func a b zero i h j lt = absurd (omega arith)
fncmp_from_sound func a b (suc k) i h zero lt = rw add-zero (ground arith)
fncmp_from_sound func a b (suc k) i h (suc j) lt =
    rw (add-suc, ← suc-add) (fncmp_from_sound func a b k (suc i) (ground arith) j (omega arith))

fncmp_from_complete :
    (func : ℕ → ℕ → Bool) (a b : Str) (k i : ℕ)
    → ((j : ℕ) → j < k → func (at a (i + j)) (at b (i + j)) ≡ false)
    → fncmp_from func a b k i ≡ true
unfolding fncmp_from
fncmp_from_complete func a b zero i h = refl
fncmp_from_complete func a b (suc k) i h =
    let now : func (at a i) (at b i) ≡ false = rw add-zero at (h 0 (omega arith)) in
    rw now (fncmp_from_complete func a b k (suc i) later)
  where
    later : (j : ℕ) → j < k → func (at a (suc i + j)) (at b (suc i + j)) ≡ false
    later j lt = rw (suc-add, ← add-suc) (h (suc j) (omega arith))

pub at-text : (a : Str) (i : ℕ) → at a i ≡ get_or (text a) i 0
at-text none i = refl
at-text (some s) i = refl

pub len-text : (a : Str) → len a ≡ length (text a)
len-text none = refl
len-text (some s) = refl

-- Lists of one length that agree under `f` at each index.
map_ext :
    (f : ℕ → ℕ) (xs ys : Bytes)
    → length xs ≡ length ys
    → ((j : ℕ) → j < length xs → f (get_or xs j 0) ≡ f (get_or ys j 0))
    → map f xs ≡ map f ys
map_ext f [] [] h p = refl
map_ext f [] (y ∷ ys) h p = absurd (omega arith)
map_ext f (x ∷ xs) [] h p = absurd (omega arith)
map_ext f (x ∷ xs) (y ∷ ys) h p =
    cc (p 0 (omega arith), map_ext f xs ys (omega arith) (λ j lt. p (suc j) (omega arith)))

map_agree :
    (f : ℕ → ℕ) (xs ys : Bytes) (j : ℕ)
    → map f xs ≡ map f ys
    → f (get_or xs j 0) ≡ f (get_or ys j 0)
map_agree f [] [] j h = refl
map_agree f [] (y ∷ ys) j h = cc
map_agree f (x ∷ xs) [] j h = cc
map_agree f (x ∷ xs) (y ∷ ys) zero h = cc
map_agree f (x ∷ xs) (y ∷ ys) (suc j) h = map_agree f xs ys j (cc)

length-map : (f : ℕ → ℕ) (xs : Bytes) → length (map f xs) ≡ length xs
length-map f [] = refl
length-map f (x ∷ xs) = ap suc (length-map f xs)

-- A comparison of two whole strings, by a test that compares images under `f`.
module _ (f : ℕ → ℕ) where
  abbrev differs : ℕ → ℕ → Bool
  differs x y = not (f x == f y)

  abbrev whole : Str → Str → Bool
  whole a b = if not (len a == len b) then false else fncmp a b (len a) differs

  differs-eq : (x y : ℕ) → differs x y ≡ false → f x ≡ f y
  differs-eq x y h = ground arith

  eq-differs : (x y : ℕ) → f x ≡ f y → differs x y ≡ false
  eq-differs x y h = ground arith

  whole_sound : (a b : Str) → whole a b ≡ true → map f (text a) ≡ map f (text b)
  unfolding fncmp
  whole_sound a b h = map_ext f (text a) (text b) (ground (arith, len-text a, len-text b)) λ j lt.
      rw (← at-text a, ← at-text b)
        (differs-eq _ _ (
          rw zero-add at
            (fncmp_from_sound differs a b (len a) 0 (ground arith) j (omega (arith, len-text a)))))

  whole_complete : (a b : Str) → map f (text a) ≡ map f (text b) → whole a b ≡ true
  unfolding fncmp
  whole_complete a b h =
      let same : len a ≡ len b = omega (
        arith,
        len-text a,
        len-text b,
        length-map f (text a),
        length-map f (text b),
        ap length h,
      ) in
      rw same (
        ground (
          arith,
          fncmp_from_complete differs a b (len b) 0 (λ j lt.
              eq-differs _ _ (rw (at-text a, at-text b) (map_agree f (text a) (text b) (0 + j) h))),
        ))

map-id : (xs : Bytes) → map (λ x. x) xs ≡ xs
map-id [] = refl
map-id (x ∷ xs) = ap (λ t. x ∷ t) (map-id xs)

-- `cmp` decides equality of the bytes, NULL counting as the empty string.
pub cmp_iff : (a b : Str) → (cmp a b ≡ true) ↔ (text a ≡ text b)
unfolding cmp
cmp_iff a b = (
  λ h. rw (map-id, map-id) at (whole_sound (λ x. x) a b h),
  λ h. whole_complete (λ x. x) a b (ap (map (λ x. x)) h),
)

-- `icmp` decides equality of the upper-cased bytes: equality up to the case of ASCII letters.
pub icmp_iff : (a b : Str) → (icmp a b ≡ true) ↔ (map upper (text a) ≡ map upper (text b))
unfolding icmp
icmp_iff a b = (whole_sound upper a b, whole_complete upper a b)

at-take : (n j : ℕ) (a : Bytes) → j < n → get_or (take n a) j 0 ≡ at (some a) j
at-take n j a h = get_or-take n j a 0 h

-- `ncmp` at a length that both strings have compares the prefixes of that length.
pub ncmp_iff :
    (a b : Bytes) (n : ℕ)
    → n ≤ length a
    → n ≤ length b
    → (ncmp (some a) (some b) n ≡ true) ↔ (take n a ≡ take n b)
unfolding ncmp fncmp
ncmp_iff a b n ha hb = (there, back)
  where
    la : length (take n a) ≡ n
    la = omega (arith, length-take n a)

    lb : length (take n b) ≡ n
    lb = omega (arith, length-take n b)

    there : fncmp (some a) (some b) n not_equal ≡ true → take n a ≡ take n b
    there h =
        rw (map-id, map-id) at
          (map_ext (λ x. x) (take n a) (take n b) (omega (arith, la, lb))
            λ j lt.
              rw (at-take n j a (omega (arith, la)), at-take n j b (omega (arith, la)))
                (differs-eq (λ x. x) _ _
                  (rw zero-add at
                    (fncmp_from_sound not_equal (some a) (some b) n 0 h j (omega (arith, la))))))

    back : take n a ≡ take n b → fncmp (some a) (some b) n not_equal ≡ true
    back h = fncmp_from_complete not_equal (some a) (some b) n 0 λ j lt.
        eq-differs (λ x. x) _ _
          (rw (zero-add, ← at-take n j a lt, ← at-take n j b lt) (ap (λ t. get_or t j 0) h))
