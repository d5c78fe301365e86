-- ===== src/Headers/Table.antt =====
-- headers.c, the table: appending and finding fields.
use jawas.Base.{
  ℕ, zero, suc, ◌+◌, ◌≤◌, ◌<◌, Bool, false, ◌||◌, List, [], ◌∷◌, ◌++◌, none, some, ◌≡◌, refl, ap,
  sym, ◌∙◌, Bool-cases, inl, inr, arith, if◌then◌else◌, length, length-set, length-take, set, take,
  min, Bytes, Str,
}
use native.Mathlib.Decide.{dec_lt}
use jawas.Str.{cmp}
use jawas.Headers.{
  Slot, Headers, max_headers, new_headers, over, find_in, find_header, append_header, header_func,
}

-- The table has all its slots, and no more are in use than it has.
pub record IsValid (h : Headers) : Type 0 where
  pub table : length h.slots ≡ max_headers
  pub used : h.nslots ≤ max_headers

pub new_headers-IsValid : IsValid new_headers
unfolding new_headers
new_headers-IsValid = record { table = refl; used = omega arith }

take-set :
    (n : ℕ) (xs : List Slot) (v : Slot)
    → n < length xs
    → take (suc n) (set xs n v) ≡ take n xs ++ v ∷ []
take-set n [] v h = absurd (omega arith)
take-set zero (x ∷ xs) v h = refl
take-set (suc n) (x ∷ xs) v h = ap (λ t. x ∷ t) (take-set n xs v (omega arith))

pub append_slot : Headers → Slot → Headers
append_slot h s = record { nslots = h.nslots + 1; slots = set h.slots h.nslots s }

over-append_slot :
    (h : Headers) (s : Slot)
    → IsValid h
    → h.nslots < max_headers
    → over (append_slot h s) ≡ over h ++ s ∷ []
unfolding append_slot
over-append_slot h s v lt =
    let e : min (h.nslots + 1) max_headers ≡ suc h.nslots = omega arith in
    let e' : min h.nslots max_headers ≡ h.nslots = omega arith in
    rw (e, e') (take-set h.nslots h.slots s (omega (arith, v.table)))

-- The loops visit as many slots as are in use.
pub length-over : (h : Headers) → IsValid h → length (over h) ≡ h.nslots
length-over h v = omega (arith, length-take (min h.nslots max_headers) h.slots, v.table, v.used)

-- Appending to a valid table that is not full succeeds, keeps it valid, and puts the new field behind
-- the fields that the loops visit.
pub append_header_room :
    (h : Headers) (key value : Str)
    → IsValid h
    → h.nslots < max_headers
    → (h' : Headers) × (append_header (some h) key value ≡ some h')
      × IsValid h'
      × (over h' ≡ over h ++ record { key = key; value = value } ∷ [])
unfolding append_header append_slot
append_header_room h key value v lt =
    let s : Slot = record { key = key; value = value } in
    (
      append_slot h s,
      ground arith,
      record { table = omega (arith, length-set h.slots h.nslots s, v.table); used = omega arith },
      over-append_slot h s v lt,
    )

-- At a full table the program halts.
pub append_header_full :
    (h : Headers) (key value : Str)
    → h.nslots ≡ max_headers
    → append_header (some h) key value ≡ none
unfolding append_header
append_header_full h key value e = ground arith

-- Does one of the slots have the key?
pub holds : List Slot → Str → Bool
holds [] key = false
holds (s ∷ rest) key = elim s.key [
  | none ↦ holds rest key
  | some k ↦ cmp (some k) key || holds rest key
]

find_in-append :
    (xs : List Slot) (key value : Str) (k : Str)
    → find_in (xs ++ record { key = key; value = value } ∷ []) k
      ≡ (if holds xs k then find_in xs k else find_in (record { key = key; value = value } ∷ []) k)
unfolding find_in holds
find_in-append [] key value k = refl
find_in-append (s ∷ xs) key value k = ground (arith, find_in-append xs key value k)

-- The first field of a name is the one that is found: a field appended later is found only if no
-- field of the table has its name.
pub find_header-append_header :
    (h h' : Headers) (key : Bytes) (value : Str) (k : Bytes)
    → IsValid h
    → append_header (some h) (some key) value ≡ some h'
    → find_header (some h') (some k) ≡ (
        if holds (over h) (some k)
        then find_header (some h) (some k)
        else if cmp (some key) (some k)
        then value
        else none)
unfolding find_header find_in
find_header-append_header h h' key value k v e = elim (dec_lt h.nslots max_headers) [
  | yes lt ↦
      let (h₁, e₁, v₁, o₁) = append_header_room h (some key) value v lt in
      let same : h' ≡ h₁ = cc in rw (same, o₁) (find_in-append (over h) (some key) value (some k))
  | no ge ↦ cc (append_header_full h (some key) value (omega arith))
]

find_in-absent : (xs : List Slot) (k : Str) → holds xs k ≡ false → find_in xs k ≡ none
unfolding find_in holds
find_in-absent [] k h = refl
find_in-absent (s ∷ xs) k h = ground (arith, find_in-absent xs k)

-- A field of another name is found as before.
pub find_header-append_other :
    (h h' : Headers) (key : Bytes) (value : Str) (k : Bytes)
    → IsValid h
    → append_header (some h) (some key) value ≡ some h'
    → cmp (some key) (some k) ≡ false
    → find_header (some h') (some k) ≡ find_header (some h) (some k)
unfolding find_header
find_header-append_other h h' key value k v e other = elim (Bool-cases (holds (over h) (some k))) [
  | inl there ↦
      find_header-append_header h h' key value k v e
      ∙ ap
          (λ b.
            if b
            then find_in (over h) (some k)
            else if cmp (some key) (some k)
            then value
            else none)
          there
  | inr absent ↦
      find_header-append_header h h' key value k v e
      ∙ ap
          (λ b.
            if b
            then find_in (over h) (some k)
            else if cmp (some key) (some k)
            then value
            else none)
          absent
      ∙ ap (λ b. if b then value else none) other
      ∙ sym (find_in-absent (over h) (some k) absent)
]

-- A field set by one of the `HEADER_FUNC` functions is the field that `append_header` adds.
pub header_func-append_header :
    (h : Headers) (name value : Bytes)
    → h.nslots ≤ max_headers
    → header_func name h value ≡ append_header (some h) (some name) (some value)
unfolding header_func append_header
header_func-append_header h name value le = ground arith
