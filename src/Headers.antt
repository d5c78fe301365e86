-- ===== src/Headers.antt =====
-- headers.c: the table of header slots. `struct headers_struct` holds `max_headers` slots of which the
-- first `nslots` are in use; `over` is the macro of that name: the slots that a loop visits.
pub mod Table
pub mod Sort
pub mod Print
pub mod Parse
pub mod Refinement
mod Tests
use jawas.Base.{
  ℕ, zero, suc, ◌+◌, Bool, true, false, List, [], ◌∷◌, ◌++◌, Option, none, some, ltb, if◌then◌else◌,
  get_or, set, take, drop, length, replicate, min, Bytes, Str, ◌>>=◌, codes,
}
use jawas.Str.{cmp, lesser}

pub record Slot : Type 0 where
  pub key : Str
  pub value : Str

abbrev pub empty : Slot
empty = record { key = none; value = none }

pub record Headers : Type 0 where
  pub nslots : ℕ
  pub slots : List Slot

abbrev pub max_headers : ℕ
max_headers = 250

unfoldable pub new_headers : Headers
new_headers = record { nslots = 0; slots = replicate max_headers empty }

abbrev pub over : Headers → List Slot
over h = take (min h.nslots max_headers) h.slots

-- `Key` and `Value`.
abbrev pub key_at : Headers → ℕ → Str
key_at h slot = if ltb slot h.nslots then (get_or h.slots slot empty).key else none

abbrev pub value_at : Headers → ℕ → Str
value_at h slot = if ltb slot h.nslots then (get_or h.slots slot empty).value else none

pub find_in : List Slot → Str → Str
find_in [] key = none
find_in (s ∷ rest) key = elim s.key [
  | none ↦ find_in rest key
  | some k ↦ if cmp (some k) key then s.value else find_in rest key
]

unfoldable pub find_header : Option Headers → Str → Str
unfolding find_in
find_header none key = none
find_header (some h) none = none
find_header (some h) (some k) = find_in (over h) (some k)

-- `none` is `halt`, the loop that never ends, on a table with no slot left.
unfoldable pub free_header_slot : Headers → Option (ℕ × Headers)
free_header_slot h =
    if ltb h.nslots max_headers then some (h.nslots, record h { nslots = h.nslots + 1 }) else none

abbrev fill : ℕ → Str → Str → Headers → Headers
fill i key value h = record h { slots = set h.slots i (record { key = key; value = value }) }

-- `none` is `halt`, or the NULL for an index past the table.
unfoldable pub append_header : Option Headers → Str → Str → Option Headers
unfolding free_header_slot new_headers
append_header headers key value =
    free_header_slot (elim headers [ none ↦ new_headers | some h ↦ h ]) >>= λ (i, h).
    if ltb max_headers i then none else some (fill i key value h)

-- The functions that `HEADER_FUNC(f, name)` declares: they append one field of a fixed name.
unfoldable pub header_func : Bytes → Headers → Bytes → Option Headers
unfolding free_header_slot
header_func name headers value =
    free_header_slot headers >>= λ (i, h). some (fill i (some name) (some value) h)

unfoldable pub cache_control : Headers → Bytes → Option Headers
cache_control = header_func (codes "Cache-Control")

unfoldable pub connection : Headers → Bytes → Option Headers
connection = header_func (codes "Connection")

unfoldable pub date_field : Headers → Bytes → Option Headers
date_field = header_func (codes "Date")

unfoldable pub transfer_encoding : Headers → Bytes → Option Headers
transfer_encoding = header_func (codes "Transfer-Encoding")

unfoldable pub content_length : Headers → Bytes → Option Headers
content_length = header_func (codes "Content-Length")

unfoldable pub content_type : Headers → Bytes → Option Headers
content_type = header_func (codes "Content-Type")

unfoldable pub expires : Headers → Bytes → Option Headers
expires = header_func (codes "Expires")

unfoldable pub location : Headers → Bytes → Option Headers
location = header_func (codes "Location")

unfoldable pub server_name : Headers → Bytes → Option Headers
server_name = header_func (codes "Server")

-- One round of the inner loop of `sort_headers`: `x` stands at the index of the outer loop, and a
-- lesser key further on changes places with it.
pass : Slot → List Slot → Slot × List Slot
pass x [] = (x, [])
pass x (y ∷ ys) =
    let swap = lesser y.key x.key in
    let (least, rest) = pass (if swap then y else x) ys in (least, (if swap then x else y) ∷ rest)

-- The outer loop, which has `n` slots to go; a slot with no key is passed over.
exchange : ℕ → List Slot → List Slot
exchange zero xs = xs
exchange (suc n) [] = []
exchange (suc n) (x ∷ xs) = elim x.key [
  | none ↦ x ∷ exchange n xs
  | some k ↦ let (least, rest) = pass x xs in least ∷ exchange n rest
]

unfoldable pub sort_headers : Headers → Headers
unfolding exchange pass new_headers
sort_headers kv = record {
  nslots = kv.nslots;
  slots = exchange (length (over kv)) (over kv) ++ drop (length (over kv)) new_headers.slots;
}
