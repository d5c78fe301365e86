-- ===== src/Headers/Print.antt =====
-- headers.c, the printers: `print_headers`, `list_headers` and `url_encode_headers`.
use jawas.Base.{
  List, [], ◌∷◌, ◌++◌, Option, none, some, ◌≡◌, ◌∙◌, map, Bytes, Str, codes, ◌>>=◌, append-nil,
  append_assoc, drop,
}
use jawas.Format.{str, new_str}
use jawas.Headers.{Slot, Headers, over, key_at, value_at}

-- One round of `print_headers`. `none` is a NULL value, which the formatter would read through.
print_slot : Str → Slot → Option Str
print_slot retval s = elim s.key [
  | none ↦ some retval
  | some k ↦
      (elim retval [
        | none ↦ new_str (codes "%s: %s\r\n") (str (some k) ∷ str s.value ∷ [])
        | some r ↦ new_str (codes "%s%s: %s\r\n") (str (some r) ∷ str (some k) ∷ str s.value ∷ [])
      ])
      >>= λ out. some (some out)
]

print_slots : Str → List Slot → Option Str
print_slots retval [] = some retval
print_slots retval (s ∷ rest) = print_slot retval s >>= λ r. print_slots r rest

unfoldable pub print_headers : Str → Headers → Option Str
unfolding print_slots print_slot
print_headers dst src = print_slots dst (over src)

-- One round of `list_headers`.
list_slot : Str → Slot → Option Str
list_slot retval s = elim s.key [
  | none ↦ some retval
  | some k ↦
      (elim retval [
        | none ↦ new_str (codes "%s : %s") (str (some k) ∷ str s.value ∷ [])
        | some r ↦ new_str (codes "%s, %s : %s") (str (some r) ∷ str (some k) ∷ str s.value ∷ [])
      ])
      >>= λ out. some (some out)
]

list_slots : Str → List Slot → Option Str
list_slots retval [] = some retval
list_slots retval (s ∷ rest) = list_slot retval s >>= λ r. list_slots r rest

unfoldable pub list_headers : Headers → Option Str
unfolding list_slots list_slot
list_headers kv = list_slots none (over kv)

-- The loop of `url_encode_headers`, over the slots behind the first.
url_slots : Bytes → List Slot → Option Bytes
url_slots retval [] = some retval
url_slots retval (s ∷ rest) =
    (elim s.key [
      | none ↦ some retval
      | some k ↦ new_str (codes "%s&%s=%s") (str (some retval) ∷ str (some k) ∷ str s.value ∷ [])
    ])
    >>= λ r. url_slots r rest

unfoldable pub url_encode_headers : Option Headers → Option Str
unfolding url_slots
url_encode_headers none = some none
url_encode_headers (some src) =
    new_str (codes "%s=%s") (str (key_at src 0) ∷ str (value_at src 0) ∷ []) >>= λ first.
    url_slots first (drop 1 (over src)) >>= λ out. some (some out)

-- A field, as the printers need it: both parts are there.
pub record Field : Type 0 where
  pub key : Bytes
  pub value : Bytes

abbrev pub slot_of : Field → Slot
slot_of f = record { key = some f.key; value = some f.value }

-- The lines of a message's header.
abbrev pub header_lines : List Field → Bytes
header_lines [] = []
header_lines (f ∷ fs) = f.key ++ b':' ∷ 32 ∷ (f.value ++ 13 ∷ 10 ∷ header_lines fs)

print_slot-slot_of :
    (r : Bytes) (f : Field)
    → print_slot (some r) (slot_of f)
      ≡ some (some (r ++ (f.key ++ b':' ∷ 32 ∷ (f.value ++ 13 ∷ 10 ∷ []))))
unfolding print_slot new_str
print_slot-slot_of r f = simp append_assoc

print_slots-map :
    (r : Bytes) (fs : List Field)
    → print_slots (some r) (map slot_of fs) ≡ some (some (r ++ header_lines fs))
unfolding print_slots
print_slots-map r [] = rw append-nil
print_slots-map r (f ∷ fs) =
    let line = f.key ++ b':' ∷ 32 ∷ (f.value ++ 13 ∷ 10 ∷ []) in
    rw (print_slot-slot_of r f) (print_slots-map (r ++ line) fs ∙ simp append_assoc)

-- Behind a text, `print_headers` writes one line `key: value` for each field, in the table's order.
pub print_headers_lem :
    (dst : Bytes) (h : Headers) (fs : List Field)
    → over h ≡ map slot_of fs
    → print_headers (some dst) h ≡ some (some (dst ++ header_lines fs))
unfolding print_headers
print_headers_lem dst h fs e = rw e (print_slots-map dst fs)

-- With no text before them, the lines are those of the fields alone.
pub print_headers-none :
    (h : Headers) (f : Field) (fs : List Field)
    → over h ≡ map slot_of (f ∷ fs)
    → print_headers none h ≡ some (some (header_lines (f ∷ fs)))
unfolding print_headers print_slots print_slot new_str
print_headers-none h f fs e =
    let line = f.key ++ b':' ∷ 32 ∷ (f.value ++ 13 ∷ 10 ∷ []) in
    rw e (simp append_assoc (print_slots-map line fs ∙ simp append_assoc))
