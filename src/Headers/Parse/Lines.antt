-- ===== src/Headers/Parse/Lines.antt =====
-- headers.c, `parse_headers`, one line of a message: the rounds that read its key, its value and its
-- line feed.
use jawas.Base.{
  ℕ, zero, suc, ◌+◌, ◌-◌, ◌<◌, Bool, true, false, List, [], ◌∷◌, ◌++◌, none, some, ◌≡◌, refl, sym,
  ap, ◌∙◌, arith, ltb, lt→ltb, ◌==◌, All, length, get_or, get_or-append, get_or-drop, set,
  take-append, drop, drop-append, drop-append_past, replicate, Bytes, is_space,
}
use native.Mathlib.Nat.{zero-add, add-zero, suc-add}
use jawas.Str.Fields.{skip_while, other_than, Passes, NoColon, skip_while-append, skip_while_stop}
use jawas.Headers.{Slot, empty, Headers, max_headers, key_at}
use jawas.Headers.Parse.{
  is_break, Scan, done, more, scan_key, value_end, scan_value, onward, is_null, wants_key,
  wants_value, keyed, valued, step_at, scan_step,
}

abbrev pub scan : Bytes → ℕ → ℕ → Bool → ℕ → Headers → Scan
scan rest o i reset count h = record {
  rest = rest;
  o = o;
  i = i;
  reset = reset;
  count = count;
  headers = h;
}

-- The table whose slots in use are `fields`, with `n` slots left.
abbrev pub table : List Slot → ℕ → Headers
table fields n = record { nslots = length fields; slots = fields ++ replicate n empty }

set-append {ℓ} :
    {A : Type ℓ} (xs ys : List A) (y v : A) → set (xs ++ y ∷ ys) (length xs) v ≡ xs ++ v ∷ ys
set-append [] ys y v = refl
set-append (x ∷ xs) ys y v = ap (λ t. x ∷ t) (set-append xs ys y v)

drop-nil {ℓ} : {A : Type ℓ} (n : ℕ) → drop {A = A} n [] ≡ []
drop-nil zero = refl
drop-nil (suc n) = refl

drop-drop {ℓ} : {A : Type ℓ} (m n : ℕ) (xs : List A) → drop n (drop m xs) ≡ drop (m + n) xs
drop-drop zero n xs = rw zero-add
drop-drop (suc m) n [] = drop-nil n ∙ sym (drop-nil (suc m + n))
drop-drop (suc m) n (x ∷ xs) = rw suc-add (drop-drop m n xs)

-- The last byte of a key is no colon.
last_plain :
    (c : ℕ) (ks t : Bytes)
    → NoColon (c ∷ ks)
    → (get_or (c ∷ (ks ++ t)) (length ks) 0 == b':') ≡ false
last_plain c [] t (h, _) = ground arith
last_plain c (k ∷ ks) t (_, h) = last_plain k ks t h

value_end_stop : (t : Bytes) (l : ℕ) → value_end 13 t l ≡ l
unfolding value_end
value_end_stop [] l = refl
value_end_stop (d ∷ ds) l = refl

value_end-append :
    (v : ℕ) (vs t : Bytes) (l : ℕ)
    → All (λ x. is_break x ≡ false) (v ∷ vs)
    → value_end v (vs ++ 13 ∷ t) l ≡ l + suc (length vs)
unfolding value_end
value_end-append v [] t l (h, _) = rw h (value_end_stop t (suc l) ∙ omega arith)
value_end-append v (w ∷ vs) t l (h, hs) = rw h (value_end-append w vs t (suc l) hs ∙ omega arith)

-- The rest of the round once the scan stands on a key.
scan_key_lem :
    (c : ℕ) (ks t : Bytes) (o count n : ℕ) (fields : List Slot)
    → NoColon ks
    → scan_key c
        (ks ++ b':' ∷ t)
        (scan (c ∷ (ks ++ b':' ∷ t)) o (length fields) true count (table fields (suc n)))
      ≡ scan
          (drop (length ks) (c ∷ (ks ++ b':' ∷ t)))
          (o + length ks)
          (length fields)
          true
          0
          (record {
            nslots = length fields + 1;
            slots = fields ++ record { key = some (c ∷ ks); value = none } ∷ replicate n empty;
          })
unfolding scan_key
scan_key_lem c ks t o count n fields h = rw (
  l,
  o_end,
  drop_end,
  set-append,
  get_or-append fields _ 0 (length fields) empty (add-zero _),
  take-append ks (b':' ∷ t) (length ks) refl,
)
  where
    l : skip_while (other_than b':') (ks ++ b':' ∷ t) 1 ≡ suc (length ks)
    l =
        skip_while-append (other_than b':') ks (b':' ∷ t) 1 h
        ∙ skip_while_stop (other_than b':') b':' t _ refl
        ∙ omega arith

    o_end : o + suc (length ks) - 1 ≡ o + length ks
    o_end = omega arith

    drop_end : suc (length ks) - 1 ≡ length ks
    drop_end = omega arith

-- The branches of a round, one lemma for each.
step_plain :
    (c : ℕ) (cs : Bytes) (s : Scan)
    → s.i < max_headers
    → is_break c ≡ false
    → step_at (c ∷ cs) s ≡ more (onward (valued (keyed c cs s)))
unfolding step_at
step_plain c cs s lt h = rw (lt→ltb _ _ lt, h)

pub step_break :
    (c : ℕ) (cs : Bytes) (s : Scan)
    → s.i < max_headers
    → is_break c ≡ true
    → s.count < 2
    → step_at (c ∷ cs) s ≡ more (onward (record s { reset = true; count = s.count + 1 }))
unfolding step_at
step_break c cs s lt h few =
    let e : ltb 2 (s.count + 1) ≡ false = ground arith in rw (lt→ltb _ _ lt, h, e)

pub step_body :
    (c : ℕ) (cs : Bytes) (s : Scan)
    → s.i < max_headers
    → is_break c ≡ true
    → s.count ≡ 2
    → step_at (c ∷ cs) s ≡ done s.headers (some (s.o + 1))
unfolding step_at
step_body c cs s lt h two =
    let e : ltb 2 (s.count + 1) ≡ true = ground arith in rw (lt→ltb _ _ lt, h, e)

keyed_new : (c : ℕ) (cs : Bytes) (s : Scan) → wants_key s ≡ true → keyed c cs s ≡ scan_key c cs s
unfolding keyed
keyed_new c cs s h = rw h

keyed_old :
    (c : ℕ) (cs : Bytes) (s : Scan) → wants_key s ≡ false → keyed c cs s ≡ record s { count = 0 }
unfolding keyed
keyed_old c cs s h = rw h

valued_new : (s : Scan) → wants_value s ≡ true → valued s ≡ scan_value s
unfolding valued
valued_new s h = rw h

valued_old : (s : Scan) → wants_value s ≡ false → valued s ≡ s
unfolding valued
valued_old s h = rw h

-- The table while a field has its key and no value yet.
abbrev pub half : List Slot → Bytes → ℕ → Headers
half fields key n = record {
  nslots = length fields + 1;
  slots = fields ++ record { key = some key; value = none } ∷ replicate n empty;
}

-- A round that reads a key stops on its colon.
pub key_step :
    (c : ℕ) (ks t : Bytes) (o count n : ℕ) (fields : List Slot)
    → is_break c ≡ false
    → NoColon (c ∷ ks)
    → length fields < max_headers
    → scan_step (scan (c ∷ (ks ++ b':' ∷ t)) o (length fields) true count (table fields (suc n)))
      ≡ more (scan (b':' ∷ t) (o + length ks + 1) (length fields) true 0 (half fields (c ∷ ks) n))
unfolding scan_step
key_step c ks t o count n fields hb (hc, hk) lt =
    step_plain c cs s lt hb
    ∙ ap (λ k. more (onward (valued k)))
        (keyed_new c cs s wants ∙ scan_key_lem c ks t o count n fields hk)
    ∙ ap (λ k. more (onward k)) (valued_old k no_value)
    ∙ ap (λ r. more (scan r (o + length ks + 1) (length fields) true 0 (half fields (c ∷ ks) n)))
        colon
  where
    cs : Bytes
    cs = ks ++ b':' ∷ t

    s : Scan
    s = scan (c ∷ cs) o (length fields) true count (table fields (suc n))

    k : Scan
    k =
        scan (drop (length ks) (c ∷ cs)) (o + length ks) (length fields) true 0
          (half fields (c ∷ ks) n)

    wants : wants_key s ≡ true
    wants = ground arith

    no_value : wants_value k ≡ false
    no_value =
        rw (get_or-drop (length ks) 0 (c ∷ cs) 0, add-zero) (last_plain c ks (b':' ∷ t) (hc, hk))

    colon : drop 1 (drop (length ks) (c ∷ cs)) ≡ b':' ∷ t
    colon =
        drop-drop (length ks) 1 (c ∷ cs) ∙ drop-append_past (c ∷ ks) (b':' ∷ t) 0 _ (omega arith)

-- The scan of a value, behind a gap of spaces of any kind, stops on the line break.
scan_value_lem :
    (gap vs t key : Bytes) (v o n : ℕ) (fields : List Slot)
    → All (Passes is_space) gap
    → is_space v ≡ false
    → All (λ x. is_break x ≡ false) (v ∷ vs)
    → scan_value
        (scan (b':' ∷ (gap ++ v ∷ (vs ++ 13 ∷ t))) o (length fields) true 0 (half fields key n))
      ≡ scan (13 ∷ t) (o + 1 + length gap + length (v ∷ vs)) (length fields + 1) false 0 (record {
        nslots = length fields + 1;
        slots = fields ++ record { key = some key; value = some (v ∷ vs) } ∷ replicate n empty;
      })
unfolding scan_value
scan_value_lem gap vs t key v o n fields hg hv hb = rw (
  gap_end,
  behind,
  l_end,
  o_end,
  drop_end,
  set-append,
  get_or-append fields _ 0 (length fields) empty (add-zero _),
  take-append vs (13 ∷ t) (length vs) refl,
  drop-append vs (13 ∷ t) (length vs) refl,
)
  where
    r : Bytes
    r = v ∷ (vs ++ 13 ∷ t)

    gap_end : skip_while is_space (gap ++ r) 0 ≡ length gap
    gap_end =
        skip_while-append is_space gap r 0 hg
        ∙ skip_while_stop is_space v (vs ++ 13 ∷ t) _ hv
        ∙ zero-add _

    behind : drop (length gap) (gap ++ r) ≡ r
    behind = drop-append gap r (length gap) refl

    l_end : value_end v (vs ++ 13 ∷ t) 1 ≡ 1 + suc (length vs)
    l_end = value_end-append v vs t 1 hb

    o_end : o + 1 + length gap + (1 + suc (length vs)) - 1 ≡ o + 1 + length gap + suc (length vs)
    o_end = omega arith

    drop_end : 1 + suc (length vs) - 1 ≡ suc (length vs)
    drop_end = omega arith

key_at-half :
    (fields : List Slot) (key : Bytes) (n : ℕ)
    → key_at (half fields key n) (length fields) ≡ some key
key_at-half fields key n =
    let e : ltb (length fields) (length fields + 1) ≡ true = ground arith in
    rw (e, get_or-append fields _ 0 (length fields) empty (add-zero _))

-- A round that reads a value stops behind the carriage return.
pub value_step :
    (gap vs t key : Bytes) (v o n : ℕ) (fields : List Slot)
    → All (Passes is_space) gap
    → is_space v ≡ false
    → All (λ x. is_break x ≡ false) (v ∷ vs)
    → length fields < max_headers
    → scan_step
        (scan (b':' ∷ (gap ++ v ∷ (vs ++ 13 ∷ t))) o (length fields) true 0 (half fields key n))
      ≡ more (
          scan t (o + 1 + length gap + length (v ∷ vs) + 1) (length fields + 1) false 0 (record {
            nslots = length fields + 1;
            slots = fields ++ record { key = some key; value = some (v ∷ vs) } ∷ replicate n empty;
          }))
unfolding scan_step
value_step gap vs t key v o n fields hg hv hb lt =
    step_plain b':' (gap ++ v ∷ (vs ++ 13 ∷ t)) s lt refl
    ∙ ap (λ k. more (onward (valued k))) (keyed_old b':' (gap ++ v ∷ (vs ++ 13 ∷ t)) s known)
    ∙ ap (λ k. more (onward k))
        (valued_new s (unfold wants_value in refl)
          ∙ scan_value_lem gap vs t key v o n fields hg hv hb)
    ∙ unfold onward in refl
  where
    s : Scan
    s = scan (b':' ∷ (gap ++ v ∷ (vs ++ 13 ∷ t))) o (length fields) true 0 (half fields key n)

    known : wants_key s ≡ false
    known = unfold wants_key in ap is_null (key_at-half fields key n)
