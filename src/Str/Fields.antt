-- ===== src/Str/Fields.antt =====
-- str.c, the fields of a header line: `name_field`, `skip_fields` and `dequote`.
use jawas.Base.{
  ℕ, zero, suc, ◌+◌, ◌-◌, ◌≤◌, Bool, true, false, not, [], ◌∷◌, ◌++◌, none, some, ◌≡◌, refl, ap,
  ◌∙◌, arith, ltb, ◌==◌, if◌then◌else◌, length, length-append, take, drop, All, Bytes, Str,
  is_space, take-append, drop-append_past, take-length,
}
use native.Mathlib.Nat.{zero-add, add-zero}
use jawas.Str.{from}

-- `for (; i < l && test(at(line, i)); ++i);` over the bytes from `i` on.
unfoldable pub skip_while : (ℕ → Bool) → Bytes → ℕ → ℕ
skip_while test [] i = i
skip_while test (c ∷ rest) i = let next = skip_while test rest (suc i) in if test c then next else i

-- Not the byte `c`.
abbrev pub other_than : ℕ → ℕ → Bool
other_than c x = not (x == c)

unfoldable pub name_field : Str → Str
unfolding skip_while
name_field none = none
name_field (some line) =
    let i = skip_while (other_than b':') line 0 in
    if ltb i (length line) then some (take i line) else some line

-- `for (i = 0; i < l && n; ++i) if (at(line, i) == ',') --n;`
skip_commas : Bytes → ℕ → ℕ → ℕ
skip_commas [] i n = i
skip_commas (c ∷ rest) i zero = i
skip_commas (c ∷ rest) i (suc n) = skip_commas rest (suc i) (if c == b',' then n else suc n)

-- With `n` 0, what follows the colon and the spaces behind it; else what follows `n` commas.
unfoldable pub skip_fields : Str → ℕ → Str
unfolding skip_while skip_commas
skip_fields none n = none
skip_fields (some line) zero =
    let colon = skip_while (other_than b':') line 0 in
    let i = skip_while is_space (drop (colon + 1) line) (colon + 1) in
    if ltb i (length line) then some (from line i (length line - i)) else some line
skip_fields (some line) (suc n) =
    let i = skip_commas line 0 (suc n) in some (from line i (length line - i))

unfoldable pub dequote : Bytes → Bytes
unfolding skip_while
dequote line =
    let i = skip_while (other_than b'"') line 0 in
    let j = skip_while (other_than b'"') (drop (i + 1) line) (i + 1) in
    from line (i + 1) (j - i - 1)

abbrev pub Passes : (ℕ → Bool) → ℕ → Type 0
Passes test c = test c ≡ true

-- The scan passes over bytes that pass the test, and stops at one that fails it.
pub skip_while-append :
    (test : ℕ → Bool) (p rest : Bytes) (i : ℕ)
    → All (Passes test) p
    → skip_while test (p ++ rest) i ≡ skip_while test rest (i + length p)
unfolding skip_while
skip_while-append test [] rest i h = rw add-zero
skip_while-append test (c ∷ p) rest i (hc, hp) =
    rw hc (skip_while-append test p rest (suc i) hp ∙ ap (skip_while test rest) (omega arith))

pub skip_while_stop :
    (test : ℕ → Bool) (c : ℕ) (rest : Bytes) (i : ℕ)
    → test c ≡ false
    → skip_while test (c ∷ rest) i ≡ i
unfolding skip_while
skip_while_stop test c rest i h = rw h

pub skip_while_end :
    (test : ℕ → Bool) (p : Bytes) (i : ℕ) → All (Passes test) p → skip_while test p i ≡ i + length p
unfolding skip_while
skip_while_end test [] i h = omega arith
skip_while_end test (c ∷ p) i (hc, hp) = rw hc (omega (arith, skip_while_end test p (suc i) hp))

pub le-skip_while : (test : ℕ → Bool) (rest : Bytes) (i : ℕ) → i ≤ skip_while test rest i
unfolding skip_while
le-skip_while test [] i = omega arith
le-skip_while test (c ∷ rest) i = ground (arith, le-skip_while test rest (suc i))

-- A field name with no colon in it.
abbrev pub NoColon : Bytes → Type 0
NoColon = All (Passes (other_than b':'))

-- A line `name: value` is split into its name and its value: any number of spaces behind the colon is
-- passed over, and the value is not empty and begins with no space.
pub fields_of_line :
    (name spaces rest : Bytes) (v : ℕ)
    → NoColon name
    → All (Passes is_space) spaces
    → is_space v ≡ false
    → let line = name ++ b':' ∷ (spaces ++ v ∷ rest) in
      (name_field (some line) ≡ some name) × (skip_fields (some line) 0 ≡ some (v ∷ rest))
unfolding name_field skip_fields
fields_of_line name spaces rest v hn hs hv = (
  rw colon
      (ground (arith, size, take-append name (b':' ∷ (spaces ++ v ∷ rest)) (length name) refl)),
  rw (colon, behind, value) (ground (arith, size, tail, take-length (v ∷ rest))),
)
  where
    line : Bytes
    line = name ++ b':' ∷ (spaces ++ v ∷ rest)

    size : length line ≡ length name + (length spaces + suc (length rest) + 1)
    size =
        omega
          (arith, length-append name (b':' ∷ (spaces ++ v ∷ rest)), length-append spaces (v ∷ rest))

    colon : skip_while (other_than b':') line 0 ≡ length name
    colon =
        skip_while-append (other_than b':') name (b':' ∷ (spaces ++ v ∷ rest)) 0 hn
        ∙ skip_while_stop (other_than b':') b':' (spaces ++ v ∷ rest) _ refl
        ∙ zero-add (length name)

    behind : drop (length name + 1) line ≡ spaces ++ v ∷ rest
    behind = drop-append_past name (b':' ∷ (spaces ++ v ∷ rest)) 1 _ refl

    value :
        skip_while is_space (spaces ++ v ∷ rest) (length name + 1) ≡ length name + 1 + length spaces
    value =
        skip_while-append is_space spaces (v ∷ rest) (length name + 1) hs
        ∙ skip_while_stop is_space v rest _ hv

    tail : drop (length name + 1 + length spaces) line ≡ v ∷ rest
    tail =
        drop-append_past name (b':' ∷ (spaces ++ v ∷ rest)) (suc (length spaces)) _ (omega arith)
        ∙ drop-append_past spaces (v ∷ rest) 0 (length spaces) (omega arith)

-- A line with no colon is its own name, and is its own value too.
pub fields_of_plain :
    (line : Bytes)
    → NoColon line
    → (name_field (some line) ≡ some line) × (skip_fields (some line) 0 ≡ some line)
unfolding name_field skip_fields
fields_of_plain line h = (rw colon (ground arith), rw colon (ground (arith, beyond)))
  where
    colon : skip_while (other_than b':') line 0 ≡ length line
    colon = skip_while_end (other_than b':') line 0 h ∙ zero-add (length line)

    beyond : length line + 1 ≤ skip_while is_space (drop (length line + 1) line) (length line + 1)
    beyond = le-skip_while is_space (drop (length line + 1) line) (length line + 1)

-- What stands between the first two quotes, whatever stands before and behind them.
pub dequote_lem :
    (before inside rest : Bytes)
    → All (Passes (other_than b'"')) before
    → All (Passes (other_than b'"')) inside
    → dequote (before ++ b'"' ∷ (inside ++ b'"' ∷ rest)) ≡ inside
unfolding dequote
dequote_lem before inside rest hb hi =
    rw (opening, behind, closing) (take-append inside (b'"' ∷ rest) _ (omega arith))
  where
    line : Bytes
    line = before ++ b'"' ∷ (inside ++ b'"' ∷ rest)

    opening : skip_while (other_than b'"') line 0 ≡ length before
    opening =
        skip_while-append (other_than b'"') before (b'"' ∷ (inside ++ b'"' ∷ rest)) 0 hb
        ∙ skip_while_stop (other_than b'"') b'"' (inside ++ b'"' ∷ rest) _ refl
        ∙ zero-add (length before)

    behind : drop (length before + 1) line ≡ inside ++ b'"' ∷ rest
    behind = drop-append_past before (b'"' ∷ (inside ++ b'"' ∷ rest)) 1 _ refl

    closing :
        skip_while (other_than b'"') (inside ++ b'"' ∷ rest) (length before + 1)
        ≡ length before + 1 + length inside
    closing =
        skip_while-append (other_than b'"') inside (b'"' ∷ rest) (length before + 1) hi
        ∙ skip_while_stop (other_than b'"') b'"' rest _ refl
