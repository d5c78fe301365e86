-- ===== src/Mime/Lookup.antt =====
-- mime.c: a name with an ending gets the type of the first row with that ending.
use jawas.Base.{
  ℕ, zero, suc, ◌-◌, ◌<◌, Bool, true, false, ◌&&◌, List, [], ◌∷◌, ◌++◌, some, ◌≡◌, ◌≢◌, refl, sym,
  ap, ◌∙◌, arith, ◌==◌, ==_iff, length, length-append, get_or, get_or-append, take, take-length,
  drop-append_past, All, Bytes, Bool-cases, ◌⊎◌, inl, inr,
}
use native.Mathlib.Decide.{dec_lt}
use jawas.Str.{ncmp}
use jawas.Str.Compare.{ncmp_iff}
use jawas.Mime.{MimeType, mime_types, any_type, ending_start, find_type, lookup_mimetype}

-- No byte of the ending is a dot.
abbrev pub NoDot : Bytes → Type 0
NoDot = All (λ c. (c == b'.') ≡ false)

get_or-NoDot : (ext : Bytes) (i : ℕ) → NoDot ext → (get_or ext i 0 == b'.') ≡ false
get_or-NoDot [] i h = refl
get_or-NoDot (c ∷ ext) zero (hc, h) = hc
get_or-NoDot (c ∷ ext) (suc i) (hc, h) = get_or-NoDot ext i h

ending_start-dot :
    (stem ext : Bytes) (i : ℕ)
    → NoDot ext
    → length stem < i
    → ending_start (stem ++ b'.' ∷ ext) i ≡ suc (length stem)
unfolding ending_start
ending_start-dot stem ext zero h lt = absurd (omega arith)
ending_start-dot stem ext (suc i) h lt = elim (dec_lt (length stem) i) [
  | yes further ↦
      let e : get_or (stem ++ b'.' ∷ ext) i 0 ≡ get_or ext (i - length stem - 1) 0 =
        get_or-append stem (b'.' ∷ ext) (suc (i - length stem - 1)) i 0 (omega arith) in
      rw (e, get_or-NoDot ext (i - length stem - 1) h) (ending_start-dot stem ext i h further)
  | no here ↦
      let e : get_or (stem ++ b'.' ∷ ext) i 0 ≡ b'.' =
        get_or-append stem (b'.' ∷ ext) 0 i 0 (omega arith) in
      rw e (omega arith)
]

-- Does the loop stop at the row?
abbrev matches : MimeType → Bytes → Bool
matches mt ending =
    length ending == length mt.ending && ncmp (some mt.ending) (some ending) (length ending)

matches→ending : (mt : MimeType) (ending : Bytes) → matches mt ending ≡ true → mt.ending ≡ ending
matches→ending mt ending h =
    let e : length ending ≡ length mt.ending =
      (==_iff (length ending) (length mt.ending)).0 (ground arith) in
    sym (take-length mt.ending)
    ∙ ap (λ n. take n mt.ending) (sym e)
    ∙ (ncmp_iff mt.ending ending (length ending) (omega arith) (omega arith)).0 (ground arith)
    ∙ take-length ending

ending→matches : (mt : MimeType) (ending : Bytes) → mt.ending ≡ ending → matches mt ending ≡ true
ending→matches mt ending e =
    let l : length ending ≡ length mt.ending = ap length (sym e) in
    let c : ncmp (some mt.ending) (some ending) (length ending) ≡ true =
      (ncmp_iff mt.ending ending (length ending) (omega arith) (omega arith)).1
        (ap (take (length ending)) e) in
    rw c (ground arith)

-- The row is the first of the rows with the ending, or there is none and it is the last row.
abbrev pub IsFirst : List MimeType → Bytes → MimeType → Type 0
IsFirst rows ending mt =
    (mt.ending ≡ ending)
      × ((before : List MimeType) × (behind : List MimeType) × (rows ≡ before ++ mt ∷ behind)
          × All (λ m. m.ending ≢ ending) before)
    ⊎ All (λ m. m.ending ≢ ending) rows × (mt ≡ any_type)

find_type-IsFirst :
    (rows : List MimeType) (ending : Bytes) → IsFirst rows ending (find_type rows ending)
unfolding find_type
find_type-IsFirst [] ending = inr (tt, refl)
find_type-IsFirst (mt ∷ rows) ending = elim (Bool-cases (matches mt ending)) [
  | inl hit ↦ rw hit (inl (matches→ending mt ending hit, ([], rows, refl, tt)))
  | inr miss ↦
      let ne : mt.ending ≢ ending = λ e. cc (ending→matches mt ending e) in
      rw miss (elim (find_type-IsFirst rows ending) [
        | inl (e, (before, behind, split, all)) ↦
            inl (e, (mt ∷ before, behind, ap (λ t. mt ∷ t) split, (ne, all)))
        | inr (all, last) ↦ inr ((ne, all), last)
      ])
]

-- A name that ends in a dot and an ending, not empty and with no dot in it, is given the first row of
-- the table with that ending, or the last row if no row has it.
pub lookup_mimetype-IsFirst :
    (stem ext : Bytes) (c : ℕ)
    → NoDot (c ∷ ext)
    → IsFirst mime_types (c ∷ ext) (lookup_mimetype (stem ++ b'.' ∷ c ∷ ext))
unfolding lookup_mimetype
lookup_mimetype-IsFirst [] ext c h =
    rw (ending_start-dot [] (c ∷ ext) (length (c ∷ ext)) h (omega arith))
      (find_type-IsFirst mime_types (c ∷ ext))
lookup_mimetype-IsFirst (s ∷ stem) ext c h =
    rw
      (
        start,
        drop-append_past (s ∷ stem) (b'.' ∷ c ∷ ext) 1 (suc (length (s ∷ stem))) (omega arith),
      )
      (find_type-IsFirst mime_types (c ∷ ext))
  where
    start :
        ending_start (s ∷ stem ++ b'.' ∷ c ∷ ext) (length (stem ++ b'.' ∷ c ∷ ext))
        ≡ suc (length (s ∷ stem))
    start =
        ending_start-dot (s ∷ stem) (c ∷ ext) (length (stem ++ b'.' ∷ c ∷ ext)) h
          (omega (arith, length-append stem (b'.' ∷ c ∷ ext)))
