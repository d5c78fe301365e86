-- ===== src/Str/Buffers.antt =====
-- str.c: copies of a text, and changes of its bytes in place.
use jawas.Base.{
  ℕ, ◌+◌, ◌≡◌, refl, arith, Bool-cases, inl, inr, ltb, if◌then◌else◌, ◌++◌, none, some, length,
  length-append, length-take, length-drop, take, drop, Bytes, Str, set as set_element,
}
use jawas.Numbers.{hex_str}

-- A position behind the bytes would be written behind the text, and leaves it as it is.
unfoldable pub set : Str → ℕ → ℕ → Str
set none pos c = none
set (some s) pos c = some (set_element s pos c)

-- `a` is at least `al` bytes long.
unfoldable pub copy : Str → ℕ → Str
copy none al = none
copy (some a) al = some (take al a)

unfoldable pub clone : Bytes → Str
unfolding copy
clone s = copy (some s) (length s)

-- The text changes only if it goes on behind the new bytes.
unfoldable pub replace : Bytes → ℕ → Bytes → Bytes
replace src pos rep =
    if ltb (pos + length rep) (length src)
    then take pos src ++ (rep ++ drop (pos + length rep) src)
    else src

-- A pointer as a hexadecimal number.
abbrev pub obj_str : ℕ → Bytes
obj_str p = hex_str p

-- A change in place keeps the length.
pub length-replace :
    (src : Bytes) (pos : ℕ) (rep : Bytes) → length (replace src pos rep) ≡ length src
unfolding replace
length-replace src pos rep = elim (Bool-cases (ltb (pos + length rep) (length src))) [
  | inl inside ↦
      let size : length (take pos src ++ (rep ++ drop (pos + length rep) src)) ≡ length src =
        ground (
          arith,
          length-append (take pos src) (rep ++ drop (pos + length rep) src),
          length-append rep (drop (pos + length rep) src),
          length-take pos src,
          length-drop (pos + length rep) src,
        ) in
      rw inside size
  | inr outside ↦ rw outside refl
]
