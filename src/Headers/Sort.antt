-- ===== src/Headers/Sort.antt =====
-- headers.c, `sort_headers`: an exchange sort on the slots in use. Its result holds the same fields, in
-- the order of `lesser` on their names.
use mathlib.Core.List.{Perm}
use mathlib.Core.List.Perm
use jawas.Base.{
  ℕ, zero, suc, ◌≤◌, true, false, List, [], ◌∷◌, none, some, ◌≡◌, ◌≢◌, refl, ap, ◌∙◌, arith,
  Bool-cases, Option-cases, Bytes, inl, inr, if◌then◌else◌, length, length-take, take-append, All,
  min, Str,
}
use jawas.Str.{lesser}
use jawas.Str.Order.{lesser_asymm, lesser_trans}
use jawas.Headers.{Slot, Headers, max_headers, over, pass, exchange, sort_headers}
use jawas.Headers.Table.{IsValid}

-- The key of `y` is not lesser than the key `k`.
abbrev pub NotBelow : Str → Slot → Type 0
NotBelow k y = lesser y.key k ≡ false

-- Each field's name is no greater than the names behind it.
abbrev pub IsSorted : List Slot → Type 0
IsSorted [] = Unit
IsSorted (x ∷ xs) = All (NotBelow x.key) xs × IsSorted xs

abbrev pub Named : Slot → Type 0
Named s = s.key ≢ none

pass-perm : (x : Slot) (ys : List Slot) → Perm ((pass x ys).0 ∷ (pass x ys).1) (x ∷ ys)
unfolding pass
pass-perm x [] = Perm.refl (x ∷ [])
pass-perm x (y ∷ ys) = elim (Bool-cases (lesser y.key x.key)) [
  | inl swap ↦ rw swap (Perm.trans (Perm.swap x _ _) (Perm.cons x (pass-perm y ys)))
  | inr keep ↦
      rw keep (
        Perm.trans (Perm.swap y _ _) (Perm.trans (Perm.cons y (pass-perm x ys)) (Perm.swap x y ys)))
]

lesser_irrefl : (a : Str) → lesser a a ≡ false
lesser_irrefl a = elim (Bool-cases (lesser a a)) [ inl h ↦ lesser_asymm a a h | inr h ↦ h ]

length-pass : (x : Slot) (ys : List Slot) → length (pass x ys).1 ≡ length ys
unfolding pass
length-pass x [] = refl
length-pass x (y ∷ ys) = ap suc (length-pass (if lesser y.key x.key then y else x) ys)

pass_swap :
    (x y : Slot) (ys : List Slot)
    → lesser y.key x.key ≡ true
    → pass x (y ∷ ys) ≡ ((pass y ys).0, x ∷ (pass y ys).1)
unfolding pass
pass_swap x y ys h = rw h

pass_keep :
    (x y : Slot) (ys : List Slot)
    → lesser y.key x.key ≡ false
    → pass x (y ∷ ys) ≡ ((pass x ys).0, y ∷ (pass x ys).1)
unfolding pass
pass_keep x y ys h = rw h

pass-nil : (x : Slot) → pass x [] ≡ (x, [])
unfolding pass
pass-nil x = refl

-- The item that is kept is no greater than any other, and than the one that it replaced.
pass_least :
    (x : Slot) (ys : List Slot)
    → NotBelow (pass x ys).0.key x × All (NotBelow (pass x ys).0.key) (pass x ys).1
pass_least x [] = rw pass-nil (lesser_irrefl x.key, tt)
pass_least x (y ∷ ys) = elim (Bool-cases (lesser y.key x.key)) [
  | inl swap ↦
      let (below, rest) = pass_least y ys in
      let first = lesser_trans x.key y.key _ (lesser_asymm y.key x.key swap) below in
      rw (pass_swap x y ys swap) (first, (first, rest))
  | inr keep ↦
      let (below, rest) = pass_least x ys in
      rw (pass_keep x y ys keep) (below, (lesser_trans y.key x.key _ keep below, rest))
]

module _ (P : Slot → Type 0) where
  All-pass : (x : Slot) (ys : List Slot) → P x → All P ys → P (pass x ys).0 × All P (pass x ys).1
  unfolding pass
  All-pass x [] p h = (p, tt)
  All-pass x (y ∷ ys) p (q, h) = elim (Bool-cases (lesser y.key x.key)) [
    | inl swap ↦ let (least, rest) = All-pass y ys q h in rw swap (least, (p, rest))
    | inr keep ↦ let (least, rest) = All-pass x ys p h in rw keep (least, (q, rest))
  ]

exchange_unnamed :
    (n : ℕ) (x : Slot) (xs : List Slot)
    → x.key ≡ none
    → exchange (suc n) (x ∷ xs) ≡ x ∷ exchange n xs
unfolding exchange
exchange_unnamed n x xs e = ground arith

exchange_named :
    (n : ℕ) (x : Slot) (xs : List Slot) (k : Bytes)
    → x.key ≡ some k
    → exchange (suc n) (x ∷ xs) ≡ (pass x xs).0 ∷ exchange n (pass x xs).1
unfolding exchange
exchange_named n x xs k e = ground arith

exchange-perm : (n : ℕ) (xs : List Slot) → Perm (exchange n xs) xs
unfolding exchange
exchange-perm zero xs = Perm.refl xs
exchange-perm (suc n) [] = Perm.refl []
exchange-perm (suc n) (x ∷ xs) = elim (Option-cases x.key) [
  | inl e ↦ rw (exchange_unnamed n x xs e) (Perm.cons x (exchange-perm n xs))
  | inr (k, e) ↦
      rw (exchange_named n x xs k e)
        (Perm.trans (Perm.cons _ (exchange-perm n (pass x xs).1)) (pass-perm x xs))
]

length-exchange : (n : ℕ) (xs : List Slot) → length (exchange n xs) ≡ length xs
unfolding exchange
length-exchange zero xs = refl
length-exchange (suc n) [] = refl
length-exchange (suc n) (x ∷ xs) = elim (Option-cases x.key) [
  | inl e ↦ rw (exchange_unnamed n x xs e) (ap suc (length-exchange n xs))
  | inr (k, e) ↦
      rw (exchange_named n x xs k e) (ap suc (length-exchange n (pass x xs).1 ∙ length-pass x xs))
]

All-exchange : (P : Slot → Type 0) (n : ℕ) (xs : List Slot) → All P xs → All P (exchange n xs)
unfolding exchange
All-exchange P zero xs h = h
All-exchange P (suc n) [] h = h
All-exchange P (suc n) (x ∷ xs) (p, h) = elim (Option-cases x.key) [
  | inl e ↦ rw (exchange_unnamed n x xs e) (p, All-exchange P n xs h)
  | inr (k, e) ↦
      let (least, rest) = All-pass P x xs p h in
      rw (exchange_named n x xs k e) (least, All-exchange P n (pass x xs).1 rest)
]

exchange-IsSorted :
    (n : ℕ) (xs : List Slot) → length xs ≤ n → All Named xs → IsSorted (exchange n xs)
unfolding exchange
exchange-IsSorted zero [] h p = tt
exchange-IsSorted zero (x ∷ xs) h p = absurd (omega arith)
exchange-IsSorted (suc n) [] h p = tt
exchange-IsSorted (suc n) (x ∷ xs) h (px, pxs) = elim (Option-cases x.key) [
  | inl e ↦ absurd (px e)
  | inr (k, e) ↦
      let r = (pass x xs).1 in
      rw (exchange_named n x xs k e) (
        All-exchange (NotBelow (pass x xs).0.key) n r (pass_least x xs).1,
        exchange-IsSorted n r (omega (arith, length-pass x xs)) (All-pass Named x xs px pxs).1,
      )
]

over-sort_headers :
    (kv : Headers) → IsValid kv → over (sort_headers kv) ≡ exchange (length (over kv)) (over kv)
unfolding sort_headers
over-sort_headers kv v = take-append (exchange (length (over kv)) (over kv)) _ _ (
    length-exchange (length (over kv)) (over kv)
    ∙ omega (arith, length-take (min kv.nslots max_headers) kv.slots, v.table))

-- `sort_headers` loses, adds and changes no field: the fields that the loops visit are rearranged.
pub sort_headers-perm : (kv : Headers) → IsValid kv → Perm (over (sort_headers kv)) (over kv)
sort_headers-perm kv v = rw (over-sort_headers kv v) (exchange-perm (length (over kv)) (over kv))

-- If every field has a name, the names come out in the order of `lesser`.
pub sort_headers-IsSorted :
    (kv : Headers) → IsValid kv → All Named (over kv) → IsSorted (over (sort_headers kv))
sort_headers-IsSorted kv v p =
    rw (over-sort_headers kv v) (exchange-IsSorted (length (over kv)) (over kv) (omega arith) p)
