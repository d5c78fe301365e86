-- ===== src/Headers/Parse/Total.antt =====
-- headers.c, `parse_headers`: its loop ends, the table that it fills stays valid, and the position of
-- the body lies in the message.
use jawas.Base.{
  ℕ, zero, suc, ◌+◌, ◌-◌, ◌≤◌, ◌<◌, Bool, true, false, not, [], ◌∷◌, none, some, ◌≡◌, refl, ap,
  arith, ltb, ltb→lt, ◌⊎◌, inl, inr, Bool-cases, length, length-drop, get_or, drop, Bytes, Str,
  text, is_space,
}
use jawas.Str.Fields.{skip_while, other_than, le-skip_while}
use jawas.Headers.{empty, max_headers}
use jawas.Headers.Parse.{
  is_break, Scan, Parsed, null, parsed, running, Next, done, more, scan_key, value_end, scan_value,
  onward, is_null, keyed, resume, started, wants_key, wants_value, valued, step_at, scan_step,
  scan_from, parse_headers,
}

skip_while-le : (test : ℕ → Bool) (rest : Bytes) (i : ℕ) → skip_while test rest i ≤ i + length rest
unfolding skip_while
skip_while-le test [] i = omega arith
skip_while-le test (c ∷ rest) i = ground (arith, skip_while-le test rest (suc i))

value_end-le : (c : ℕ) (ds : Bytes) (l : ℕ) → value_end c ds l ≤ l + length ds
unfolding value_end
value_end-le c [] l = omega arith
value_end-le c (d ∷ ds) l = ground (arith, value_end-le d ds (suc l))

le-value_end : (c : ℕ) (ds : Bytes) (l : ℕ) → l ≤ value_end c ds l
unfolding value_end
le-value_end c [] l = omega arith
le-value_end c (d ∷ ds) l = ground (arith, le-value_end d ds (suc l))

-- What holds between two rounds over a message of `lb` bytes.
record IsScan (lb : ℕ) (s : Scan) : Type 0 where
  at_o : (s.rest ≡ []) ⊎ (s.o + length s.rest ≡ lb)
  table : length s.headers.slots ≡ max_headers
  used :
      (s.headers.nslots ≡ s.i)
      ⊎ ((s.headers.nslots ≡ s.i + 1) × (is_null (get_or s.headers.slots s.i empty).key ≡ false))

scan_key-rest :
    (c : ℕ) (cs : Bytes) (s : Scan)
    → (1 ≤ length (scan_key c cs s).rest)
      × ((scan_key c cs s).o + length (scan_key c cs s).rest ≡ s.o + length (c ∷ cs))
      × (length (scan_key c cs s).rest ≤ length (c ∷ cs))
unfolding scan_key
scan_key-rest c cs s =
    let l = skip_while (other_than b':') cs 1 in
    let up = skip_while-le (other_than b':') cs 1 in
    let low = le-skip_while (other_than b':') cs 1 in
    let len = length-drop (l - 1) (c ∷ cs) in
    (omega (arith, up, low, len), omega (arith, up, low, len), omega (arith, len))

scan_value-rest :
    (s : Scan)
    → 1 ≤ length s.rest
    → ((scan_value s).o + length (scan_value s).rest ≡ s.o + length s.rest)
      × (length (scan_value s).rest ≤ length s.rest)
unfolding scan_value
scan_value-rest s h =
    let gap = skip_while is_space (drop 1 s.rest) 0 in
    let r = drop gap (drop 1 s.rest) in
    let l = value_end (get_or r 0 0) (drop 1 r) 1 in
    let low = le-value_end (get_or r 0 0) (drop 1 r) 1 in
    let up = value_end-le (get_or r 0 0) (drop 1 r) 1 in
    let len_gap = skip_while-le is_space (drop 1 s.rest) 0 in
    let len1 = length-drop 1 s.rest in
    let len2 = length-drop gap (drop 1 s.rest) in
    let len3 = length-drop 1 r in
    let len4 = length-drop (l - 1) r in
    (omega (arith, low, up, len_gap, len1, len2, len3, len4), omega (arith, len1, len2, len4))

valued-rest :
    (s : Scan)
    → 1 ≤ length s.rest
    → ((valued s).o + length (valued s).rest ≡ s.o + length s.rest)
      × (length (valued s).rest ≤ length s.rest)
unfolding valued
valued-rest s h = elim (Bool-cases (wants_value s)) [
  | inl e ↦ rw e (scan_value-rest s h)
  | inr e ↦ rw e (refl, omega arith)
]

-- The bytes at `o` are those of the message, until all are passed over.
abbrev AtO : ℕ → Scan → Type 0
AtO lb s = (s.rest ≡ []) ⊎ (s.o + length s.rest ≡ lb)

onward-AtO : (lb : ℕ) (s : Scan) → s.o + length s.rest ≡ lb → AtO lb (onward s)
unfolding onward
onward-AtO lb s h = elim (empty_or s.rest) [
  | inl e ↦ inl (ap (drop 1) e)
  | inr pos ↦ inr (omega (arith, length-drop 1 s.rest))
]
  where
    empty_or : (xs : Bytes) → (xs ≡ []) ⊎ (1 ≤ length xs)
    empty_or [] = inl refl
    empty_or (x ∷ xs) = inr (omega arith)

-- What a round does to the bytes that are left.
abbrev Goes : ℕ → ℕ → Next → Type 0
Goes lb n (done h none) = Unit
Goes lb n (done h (some b)) = b ≤ lb
Goes lb n (more s) = AtO lb s × (length s.rest < n)

keyed-rest :
    (c : ℕ) (cs : Bytes) (s : Scan)
    → s.rest ≡ c ∷ cs
    → (1 ≤ length (keyed c cs s).rest)
      × ((keyed c cs s).o + length (keyed c cs s).rest ≡ s.o + length (c ∷ cs))
      × (length (keyed c cs s).rest ≤ length (c ∷ cs))
unfolding keyed
keyed-rest c cs s e = elim (Bool-cases (wants_key s)) [
  | inl w ↦ rw w (scan_key-rest c cs s)
  | inr w ↦
      let len = ap length e in rw w (omega (arith, len), omega (arith, len), omega (arith, len))
]

length-onward : (s : Scan) → length (onward s).rest ≡ length s.rest - 1
unfolding onward
length-onward s = length-drop 1 s.rest

step_at-Goes :
    (lb : ℕ) (bs : Bytes) (s : Scan)
    → s.rest ≡ bs
    → s.o + length bs ≡ lb
    → Goes lb (length bs) (step_at bs s)
unfolding step_at
step_at-Goes lb [] s e h = tt
step_at-Goes lb (c ∷ cs) s e h = elim (Bool-cases (ltb s.i max_headers)) [
  | inr full ↦ rw full tt
  | inl room ↦ elim (Bool-cases (is_break c)) [
    | inl brk ↦ elim (Bool-cases (ltb 2 (s.count + 1))) [
      | inl third ↦ rw (room, brk, third) (omega arith)
      | inr early ↦
          let s' = record s { reset = true; count = s.count + 1 } in
          rw (room, brk, early)
            (
              onward-AtO lb s' (omega (arith, ap length e)),
              omega (arith, length-onward s', ap length e),
            )
    ]
    | inr plain ↦
        let k = keyed c cs s in
        let (pos, same, le) = keyed-rest c cs s e in
        let (same', le') = valued-rest k pos in
        rw (room, plain)
          (
            onward-AtO lb (valued k) (omega (arith, same, same')),
            omega (arith, length-onward (valued k), le, le'),
          )
  ]
]

scan_step-Goes : (lb : ℕ) (s : Scan) → AtO lb s → Goes lb (length s.rest) (scan_step s)
unfolding scan_step
scan_step-Goes lb s (inl e) = rw e tt
scan_step-Goes lb s (inr h) = step_at-Goes lb s.rest s refl h

-- What a finished call may hand back for a message of `lb` bytes.
abbrev pub Ends : ℕ → Parsed → Type 0
Ends lb null = Unit
Ends lb (parsed h none) = Unit
Ends lb (parsed h (some b)) = b ≤ lb
Ends lb running = ⊥

resume-Ends :
    (lb n : ℕ) (again : Scan → Parsed) (next : Next)
    → ((s : Scan) → AtO lb s → length s.rest < n → Ends lb (again s))
    → Goes lb n next
    → Ends lb (resume again next)
unfolding resume
resume-Ends lb n again (done h none) ih g = tt
resume-Ends lb n again (done h (some b)) ih g = g
resume-Ends lb n again (more s) ih (a, lt) = ih s a lt

scan_from-Ends :
    (fuel lb : ℕ) (s : Scan) → AtO lb s → length s.rest < fuel → Ends lb (scan_from fuel s)
unfolding scan_from
scan_from-Ends zero lb s a h = absurd (omega arith)
scan_from-Ends (suc fuel) lb s a h =
    resume-Ends lb (length s.rest) (scan_from fuel) (scan_step s)
      (λ s' a' lt. scan_from-Ends fuel lb s' a' (omega arith)) (scan_step-Goes lb s a)

-- The scan of any text ends, and if it stores a position for the body, that lies in the text or at its
-- end.
pub parse_headers-Ends : (buf : Str) → Ends (length (text buf)) (parse_headers buf)
unfolding parse_headers
parse_headers-Ends buf = elim (Bool-cases (ltb o (length t))) [
  | inl lt ↦ rw lt (
      scan_from-Ends (suc (length t)) (length t) (started t o)
        (inr (omega (arith, ltb→lt o (length t) lt, length-drop o t)))
        (omega (arith, length-drop o t)))
  | inr ge ↦ rw ge tt
]
  where
    t : Bytes
    t = text buf

    o : ℕ
    o = skip_while (λ c. not (is_break c)) t 0
