-- ===== src/Forms/Ends.antt =====
-- forms.c: the boundary of a form is found, and the scan of its parts ends with their fields.
use jawas.Base.{
  ℕ, zero, suc, ◌+◌, ◌-◌, List, [], ◌∷◌, ◌++◌, none, some, ◌≡◌, refl, sym, ap, ◌∙◌, arith, ltb,
  if◌then◌else◌, length, length-drop, take, take-length, drop, Bytes, Str, codes,
}
use jawas.Str.{from, search, ncmp, fncmp}
use jawas.Headers.{Slot, Headers, over}
use jawas.Headers.Table.{IsValid}
use jawas.Forms.{boundary_from, find_boundary, part_value, parse_name, Parts, parts}

-- The places that the scan comes to from `i` on: at each one it looks for the boundary behind.
unfoldable pub places_from : ℕ → Bytes → Bytes → ℕ → List ℕ
places_from zero src boundary i = []
places_from (suc fuel) src boundary i =
    let behind = places_from fuel src boundary (search src (i + 1) boundary + length boundary) in
    if ltb i (length src) then i ∷ behind else []

-- The field of a part at `i` that ends before `n`, if it has a name.
abbrev pub part_field : Bytes → Bytes → ℕ → ℕ → Str → List Slot
part_field temp_file src i n none = []
part_field temp_file src i n (some name) =
    record { key = some name; value = some (part_value temp_file src i n) } ∷ []

-- The fields of the parts at a list of places.
abbrev pub part_fields : Bytes → Bytes → Bytes → List ℕ → List Slot
part_fields temp_file src boundary [] = []
part_fields temp_file src boundary (i ∷ is) =
    part_field temp_file src i (search src (i + 1) boundary) (parse_name src i)
    ++ part_fields temp_file src boundary is

-- The scan has returned the table of `h` with the fields `added` behind its own.
pub record HasEnded (h : Headers) (added : List Slot) (o : Parts) : Type 0 where
  pub table : Headers
  pub run : o ≡ parts (some table)
  pub valid : IsValid table
  pub fields : over table ≡ over h ++ added

-- The places that the scan of a form comes to.
abbrev pub places : Bytes → Bytes → ℕ → List ℕ
places src boundary body = places_from (suc (length src)) src boundary (search src body boundary)

from_rest : (enc : Bytes) (i : ℕ) → from enc i (length enc - i) ≡ drop i enc
from_rest enc i = ap (λ n. take n (drop i enc)) (sym (length-drop i enc)) ∙ take-length (drop i enc)

boundary_from-step :
    (enc : Bytes) (k i : ℕ) (t : Bytes)
    → drop i enc ≡ t
    → boundary_from enc (suc k) i ≡ (
        if ncmp (some (codes "boundary=")) (some t) 9
        then some (codes "--" ++ from enc (i + 9) (length enc - (i + 9)))
        else boundary_from enc k (i + 1))
unfolding boundary_from
boundary_from-step enc k i t e =
    ap
      (λ u.
        if ncmp (some (codes "boundary=")) (some u) 9
        then some (codes "--" ++ from enc (i + 9) (length enc - (i + 9)))
        else boundary_from enc k (i + 1))
      (from_rest enc i ∙ e)

-- The boundary of a content type as browsers write it is what stands behind `boundary=`, with two dashes
-- in front.
pub find_boundary_lem :
    (b : Bytes)
    → find_boundary (codes "multipart/form-data; boundary=" ++ b) ≡ some (codes "--" ++ b)
unfolding find_boundary ncmp fncmp
find_boundary_lem b =
    ap (λ k. boundary_from enc k 19) count
    ∙ boundary_from-step enc (suc (suc (8 + length b))) 19 (codes "; boundary=" ++ b) refl
    ∙ boundary_from-step enc (suc (8 + length b)) 20 (codes " boundary=" ++ b) refl
    ∙ boundary_from-step enc (8 + length b) 21 (codes "boundary=" ++ b) refl
    ∙ ap (λ t. some (codes "--" ++ t)) (from_rest enc 30)
  where
    enc : Bytes
    enc = codes "multipart/form-data; boundary=" ++ b

    count : length enc - 19 ≡ suc (suc (suc (8 + length b)))
    count = omega arith
