-- ===== src/Forms.antt =====
-- forms.c: the fields of a form that is sent as `multipart/form-data`. The name that `temp_file` makes is
-- a parameter, and what `save_contents` writes under it is not kept here. A view whose length would be
-- negative in the source is empty here.
pub mod Ends
mod Tests
use jawas.Base.{
  ℕ, zero, suc, ◌+◌, ◌-◌, ◌≤◌, Bool, true, false, ◌&&◌, List, [], ◌∷◌, ◌++◌, Option, none, some,
  ltb, leb, if◌then◌else◌, length, Bytes, Str, codes, text,
}
use jawas.Str.{from, ncmp, find, search}
use jawas.Headers.{Headers, append_header}

-- The loop of `find_boundary`, at index `i`, over the `k` indices that are left.
pub boundary_from : Bytes → ℕ → ℕ → Str
boundary_from enc zero i = none
boundary_from enc (suc k) i =
    let rest = boundary_from enc k (i + 1) in
    if ncmp (some (codes "boundary=")) (some (from enc i (length enc - i))) 9
    then some (codes "--" ++ from enc (i + 9) (length enc - (i + 9)))
    else rest

unfoldable pub find_boundary : Bytes → Str
unfolding boundary_from
find_boundary enc = boundary_from enc (length enc - 19) 19

-- The name of the part at `pos`.
unfoldable pub parse_name : Bytes → ℕ → Str
parse_name src pos =
    let off = 6 + search src pos (codes "name=\"") in
    let end = find src (off + 1) (b'"' ∷ []) 1 in
    if leb (length src) off
    then none
    else if ltb 4000 (end - off)
    then none
    else some (from src off (end - off))

unfoldable pub found_file : Bytes → ℕ → ℕ → Bool
found_file src pos end =
    let off = 6 + search src pos (codes "filename=\"") in ltb off (length src) && ltb off end

unfoldable pub skip_content_headers : Bytes → ℕ → ℕ
skip_content_headers src pos = 4 + search src pos (codes "\r\n\r\n")

-- The value of the part at `i` that ends before the boundary at `n`: the name of the file it is saved
-- in, or its bytes.
abbrev pub part_value : Bytes → Bytes → ℕ → ℕ → Bytes
part_value temp_file src i n =
    let e = skip_content_headers src i in
    if found_file src i e then temp_file else from src e (n - 2 - e)

-- The table with the part at `i`, and without it if it has no name; what `i` is set to in that case is
-- overwritten as the loop goes on. `none` is a full table.
abbrev pub with_part : Bytes → Bytes → Option Headers → ℕ → ℕ → Str → Option (Option Headers)
with_part temp_file src headers i n none = some headers
with_part temp_file src headers i n (some name) =
    elim (append_header headers (some name) (some (part_value temp_file src i n))) [
      | none ↦ none
      | some h ↦ some (some h)
    ]

-- How the scan goes: it returns a table, which may still be NULL; it is caught in `halt`, a loop without an end,
-- which `append_header` calls on a full table; or the fuel is used up.
pub data Parts : Type 0 where
  parts : Option Headers → Parts
  halts : Parts
  unended : Parts

abbrev pub onto : (Option Headers → Parts) → Option (Option Headers) → Parts
onto again none = halts
onto again (some headers) = again headers

-- The loop of `parse_multipart_body`.
pub parts_from : ℕ → Bytes → Bytes → Bytes → ℕ → Option Headers → Parts
unfolding parse_name skip_content_headers found_file
parts_from zero temp_file src boundary i headers = unended
parts_from (suc fuel) temp_file src boundary i headers =
    let n = search src (i + 1) boundary in
    let next =
      onto (parts_from fuel temp_file src boundary (n + length boundary))
        (with_part temp_file src headers i n (parse_name src i)) in
    if ltb i (length src) then next else parts headers

-- Each round moves on by a byte at least.
unfoldable pub parse_multipart_body : Bytes → Bytes → ℕ → Option Headers → Bytes → Parts
unfolding parts_from
parse_multipart_body temp_file src body headers enctype = elim (find_boundary enctype) [
  | none ↦ parts headers
  | some boundary ↦
      parts_from (suc (length src)) temp_file src boundary (search src body boundary) headers
]
