-- ===== src/Headers/Refinement.antt =====
-- headers.c: the table as an implementation of a list of fields that holds 250.
use jawas.Base.{
  Bool, true, false, List, [], ◌∷◌, ◌++◌, Option, none, some, ◌≡◌, refl, sym, ap, ◌∙◌, arith, ltb,
  if◌then◌else◌, Bool_ext, length, length-map, map, Bytes, Str, ◌>>=◌, ◌==◌, ◌&&◌,
}
use mathlib.Core.List.{map-append}
use native.Mathlib.Decide.{dec_lt}
use jawas.Str.{cmp}
use jawas.Str.Compare.{cmp_iff}
use jawas.Headers.{Headers, max_headers, over, find_in, find_header, append_header}
use jawas.Headers.Table.{IsValid, append_header_room, append_header_full, length-over}
use jawas.Headers.Print.{Field, slot_of}

-- What a client of the table may ask.
pub data Operation : Type 0 where
  append : Bytes → Bytes → Operation
  find : Bytes → Operation

-- Are two texts the same?
abbrev pub same : Bytes → Bytes → Bool
same [] [] = true
same [] (b ∷ bs) = false
same (a ∷ as') [] = false
same (a ∷ as') (b ∷ bs) = a == b && same as' bs

-- The promise: a list of fields, of which the first of a name counts.
abbrev pub first_value : List Field → Bytes → Str
first_value [] k = none
first_value (f ∷ fs) k = if same f.key k then some f.value else first_value fs k

abbrev pub promised : Operation → List Field → Option (List Field × Str)
promised (append k v) fs =
    if ltb (length fs) max_headers
    then some (fs ++ record { key = k; value = v } ∷ [], none)
    else none
promised (find k) fs = some (fs, first_value fs k)

-- The same operations on the table.
abbrev pub performed : Operation → Headers → Option (Headers × Str)
performed (append k v) h = append_header (some h) (some k) (some v) >>= λ h'. some (h', none)
performed (find k) h = some (h, find_header (some h) (some k))

-- The answers to a sequence of operations; `none` is that one of them does not return.
abbrev pub answers_of :
    {S : Type 0} → (Operation → S → Option (S × Str)) → List Operation → S → Option (List Str)
answers_of step [] s = some []
answers_of step (o ∷ os) s = step o s >>= λ (s', r). answers_of step os s' >>= λ rs. some (r ∷ rs)

-- The table holds the fields, in their order.
pub record Represents (h : Headers) (fs : List Field) : Type 0 where
  pub valid : IsValid h
  pub fields : over h ≡ map slot_of fs

same_sound : (a b : Bytes) → same a b ≡ true → a ≡ b
same_sound [] [] h = refl
same_sound [] (b ∷ bs) h = absurd (cc h)
same_sound (a ∷ as') [] h = absurd (cc h)
same_sound (a ∷ as') (b ∷ bs) h = ground (arith, same_sound as' bs)

same_complete : (a : Bytes) → same a a ≡ true
same_complete [] = refl
same_complete (a ∷ as') = ground (arith, same_complete as')

cmp-same : (a b : Bytes) → cmp (some a) (some b) ≡ same a b
cmp-same a b =
    Bool_ext _ _ (λ h. ap (same a) (sym ((cmp_iff (some a) (some b)).0 h)) ∙ same_complete a)
      (λ h. (cmp_iff (some a) (some b)).1 (same_sound a b h))

find_in-first_value :
    (fs : List Field) (k : Bytes) → find_in (map slot_of fs) (some k) ≡ first_value fs k
unfolding find_in
find_in-first_value [] k = refl
find_in-first_value (f ∷ fs) k =
    ap (λ b. if b then some f.value else find_in (map slot_of fs) (some k)) (cmp-same f.key k)
    ∙ ap (λ r. if same f.key k then some f.value else r) (find_in-first_value fs k)

pub find_header-first_value :
    (h : Headers) (fs : List Field) (k : Bytes)
    → Represents h fs
    → find_header (some h) (some k) ≡ first_value fs k
unfolding find_header
find_header-first_value h fs k r = ap (λ t. find_in t (some k)) r.fields ∙ find_in-first_value fs k

length-fields : (h : Headers) (fs : List Field) → Represents h fs → h.nslots ≡ length fs
length-fields h fs r =
    omega (arith, length-over h r.valid, ap length r.fields, length-map fs slot_of)

-- A sequence of operations on a table that holds some fields is answered as on the list of those
-- fields, as long as it returns, and it does not return if an append finds 250 fields.
pub answers_of-performed :
    (os : List Operation) (h : Headers) (fs : List Field)
    → Represents h fs
    → answers_of performed os h ≡ answers_of promised os fs
answers_of-performed [] h fs r = refl
answers_of-performed (find k ∷ os) h fs r =
    ap (λ a. a >>= λ rs. some (find_header (some h) (some k) ∷ rs)) (answers_of-performed os h fs r)
    ∙ ap (λ v. answers_of promised os fs >>= λ rs. some (v ∷ rs)) (find_header-first_value h fs k r)
answers_of-performed (append k v ∷ os) h fs r = elim (dec_lt h.nslots max_headers) [
  | yes room ↦
      let (h', set, v', o) = append_header_room h (some k) (some v) r.valid room in
      let f : Field = record { key = k; value = v } in
      let more : Represents h' (fs ++ f ∷ []) = record {
        valid = v';
        fields =
            o ∙ ap (λ t. t ++ map slot_of (f ∷ [])) r.fields ∙ sym (map-append slot_of fs (f ∷ []));
      } in
      let small : ltb (length fs) max_headers ≡ true = ground (arith, length-fields h fs r) in
      ap
        (λ x. (x >>= λ g. some (g, none)) >>= λ (g, a).
          answers_of performed os g >>= λ rs. some (a ∷ rs))
        set
      ∙ ap (λ x. x >>= λ rs. some (none ∷ rs)) (answers_of-performed os h' (fs ++ f ∷ []) more)
      ∙ ap
          (λ b. (if b then some (fs ++ f ∷ [], none) else none) >>= λ (g, a).
            answers_of promised os g >>= λ rs. some (a ∷ rs))
          (sym small)
  | no full ↦
      let f : Field = record { key = k; value = v } in
      let size = r.valid.used in
      let big : ltb (length fs) max_headers ≡ false = ground (arith, length-fields h fs r) in
      ap
        (λ x. (x >>= λ g. some (g, none)) >>= λ (g, a).
          answers_of performed os g >>= λ rs. some (a ∷ rs))
        (append_header_full h (some k) (some v) (omega arith))
      ∙ ap
          (λ b. (if b then some (fs ++ f ∷ [], none) else none) >>= λ (g, a).
            answers_of promised os g >>= λ rs. some (a ∷ rs))
          (sym big)
]
