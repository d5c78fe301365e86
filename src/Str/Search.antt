-- ===== src/Str/Search.antt =====
-- str.c, the searches: what `find` returns, that `search` looks for any one byte of its key, and that
-- `skip_headers` ends only where it has nothing to skip.
use jawas.Base.{
  ℕ, zero, suc, ◌+◌, ◌-◌, ◌≤◌, Bool, true, false, ◌&&◌, not, [], ◌∷◌, ◌++◌, none, some, ◌≡◌, refl,
  ap, ◌⊎◌, inl, inr, arith, ltb, ◌==◌, if◌then◌else◌, Bool-cases, length, length-take, length-drop,
  get_or, get_or-drop, take, take-length, drop, All, Bytes, ◌∙◌,
}
use native.Mathlib.Nat.{zero-add, add-zero}
use jawas.Str.{one_of, find_from, find, search, crlf, read_line, skip_headers_from, skip_headers}

-- A byte that is none of the delimiters.
abbrev pub Clear : Bytes → ℕ → Type 0
Clear delim c = one_of delim c ≡ false

-- The scan passes over a prefix with no delimiter.
pub find_from-Clear :
    (delim p rest : Bytes) (i : ℕ)
    → All (Clear delim) p
    → find_from delim (p ++ rest) i ≡ find_from delim rest (i + length p)
unfolding find_from
find_from-Clear delim [] rest i h = rw add-zero
find_from-Clear delim (c ∷ p) rest i (hc, hp) =
    rw hc (find_from-Clear delim p rest (suc i) hp ∙ ap (find_from delim rest) (omega arith))

pub find_from-nil : (delim : Bytes) (i : ℕ) → find_from delim [] i ≡ i
unfolding find_from
find_from-nil delim i = refl

pub find_from_hit :
    (delim rest : Bytes) (c i : ℕ) → one_of delim c ≡ true → find_from delim (c ∷ rest) i ≡ i
unfolding find_from
find_from_hit delim rest c i h = rw h

-- The distance that the scan goes.
reach : Bytes → Bytes → ℕ
reach delim [] = 0
reach delim (c ∷ rest) = if one_of delim c then 0 else suc (reach delim rest)

find_from-reach : (delim rest : Bytes) (i : ℕ) → find_from delim rest i ≡ i + reach delim rest
unfolding find_from reach
find_from-reach delim [] i = omega arith
find_from-reach delim (c ∷ rest) i = ground (arith, find_from-reach delim rest (suc i))

reach_lem :
    (delim rest : Bytes)
    → (reach delim rest ≤ length rest)
      × All (Clear delim) (take (reach delim rest) rest)
      × ((reach delim rest ≡ length rest)
          ⊎ (one_of delim (get_or rest (reach delim rest) 0) ≡ true))
unfolding reach
reach_lem delim [] = (omega arith, tt, inl refl)
reach_lem delim (c ∷ rest) = elim (Bool-cases (one_of delim c)) [
  | inl hit ↦ rw hit (omega arith, tt, inr hit)
  | inr miss ↦
      let (le, clear, stop) = reach_lem delim rest in
      rw miss (omega arith, (miss, clear), elim stop [ inl e ↦ inl (ap suc e) | inr h ↦ inr h ])
]

-- The delimiters that a call of `find` looks for.
abbrev pub delimiters : Bytes → ℕ → Bytes
delimiters delim dl = if dl == 0 then delim else take dl delim

-- `find` returns the first position from `pos` on that holds a delimiter, or the length of the text
-- if there is none.
pub find_first :
    (src : Bytes) (pos : ℕ) (delim : Bytes) (dl : ℕ)
    → pos ≤ length src
    → (k : ℕ) × (find src pos delim dl ≡ pos + k)
      × (pos + k ≤ length src)
      × All (Clear (delimiters delim dl)) (take k (drop pos src))
      × ((pos + k ≡ length src) ⊎ (one_of (delimiters delim dl) (get_or src (pos + k) 0) ≡ true))
unfolding find
find_first src pos delim dl h =
    let d = delimiters delim dl in
    let k = reach d (drop pos src) in
    let (le, clear, stop) = reach_lem d (drop pos src) in
    let len = length-drop pos src in
    (
      k,
      find_from-reach d (drop pos src) pos,
      omega (arith, le, len),
      clear,
      elim stop [
        | inl e ↦ inl (omega (arith, e, len))
        | inr hit ↦ inr (rw (← get_or-drop pos k src 0) hit)
      ],
    )

le-find_from : (delim rest : Bytes) (i : ℕ) → i ≤ find_from delim rest i
le-find_from delim rest i = omega (arith, find_from-reach delim rest i)

-- A search does not go back.
pub le-search : (src : Bytes) (pos : ℕ) (key : Bytes) → pos ≤ search src pos key
unfolding search find
le-search src pos key = le-find_from _ (drop pos src) pos

-- `search` stops at the first byte that occurs anywhere in the key, whether or not the key follows.
pub search_any_byte :
    (p rest key : Bytes) (c : ℕ)
    → All (Clear key) p
    → one_of key c ≡ true
    → search (p ++ c ∷ rest) 0 key ≡ length p
unfolding search find
search_any_byte p rest key c hp hc =
    rw delims (find_from-Clear key p (c ∷ rest) 0 hp ∙ find_from_hit key rest c _ hc ∙ zero-add _)
  where
    delims : (if length key == 0 then key else take (length key) key) ≡ key
    delims = ground (arith, take-length key)

-- Is there a line with something on it at `pos`?
abbrev pub more_on_line : Bytes → ℕ → Bool
more_on_line src pos = ltb pos (length src) && not (one_of crlf (get_or src pos 0))

reach-zero :
    (delim rest : Bytes)
    → (reach delim rest == 0) ≡ not (ltb 0 (length rest) && not (one_of delim (get_or rest 0 0)))
unfolding reach
reach-zero delim [] = refl
reach-zero delim (c ∷ rest) = ground arith

length-read_line-reach :
    (src : Bytes) (pos : ℕ) → length (read_line src pos) ≡ reach crlf (drop pos src)
unfolding read_line find
length-read_line-reach src pos = omega (
  arith,
  find_from-reach crlf (drop pos src) pos,
  (reach_lem crlf (drop pos src)).0,
  length-take (find_from crlf (drop pos src) pos - pos) (drop pos src),
)

length-read_line :
    (src : Bytes) (pos : ℕ) → (length (read_line src pos) == 0) ≡ not (more_on_line src pos)
length-read_line src pos =
    rw
      (
        length-read_line-reach src pos,
        reach-zero crlf (drop pos src),
        get_or-drop pos 0 src 0,
        add-zero,
      )
      (ground (arith, length-drop pos src))

skip_headers_from-none :
    (fuel : ℕ) (src : Bytes) (pos p : ℕ)
    → more_on_line src pos ≡ true
    → skip_headers_from fuel src pos p ≡ none
unfolding skip_headers_from
skip_headers_from-none zero src pos p h = refl
skip_headers_from-none (suc fuel) src pos p h = ground (
  arith,
  length-read_line src pos,
  skip_headers_from-none fuel src pos (p + length (read_line src pos) + 2) h,
)

-- `skip_headers` returns at once, with the position that it was given, where the text has ended or a
-- line break stands; at any other position its loop never ends, whatever the fuel.
pub skip_headers_lem :
    (fuel : ℕ) (src : Bytes) (pos : ℕ)
    → skip_headers (suc fuel) src pos ≡ (if more_on_line src pos then none else some pos)
unfolding skip_headers
skip_headers_lem fuel src pos = elim (Bool-cases (more_on_line src pos)) [
  | inl h ↦ rw h (skip_headers_from-none (suc fuel) src pos pos h)
  | inr h ↦ ground (arith, length-read_line src pos)
]
