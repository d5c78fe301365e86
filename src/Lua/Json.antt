-- ===== src/Lua/Json.antt =====
-- lua_json.c: the reader of JSON texts, which makes Lua tables. A position in the text is a `Cursor`:
-- the bytes from it on, and its offset, which some paths move past the end.
pub mod Total
pub mod Values
pub mod RoundTrip
mod Tests
use jawas.Base.{
  ℕ, zero, suc, ◌+◌, ◌-◌, Bool, true, false, ◌&&◌, ◌||◌, not, List, [], ◌∷◌, Option, none, some,
  leb, ◌==◌, if◌then◌else◌, length, drop, Bytes, Str, ◌>>=◌,
}
use jawas.Str.{blank, from}
use jawas.Lua.{Lua, str2lua}

-- The classes of bytes; each is a test of `at(s,o)`.
abbrev pub colon : ℕ → Bool
colon c = c == b':'

abbrev pub comma : ℕ → Bool
comma c = c == b','

abbrev pub quote : ℕ → Bool
quote c = c == b'"'

abbrev pub backslash : ℕ → Bool
backslash c = c == 92

abbrev pub digit : ℕ → Bool
digit c = leb b'0' c && leb c b'9'

abbrev pub bracket : ℕ → Bool
bracket c = c == b'{' || c == b'(' || c == b'[' || c == b'}' || c == b']' || c == b')'

abbrev pub space : ℕ → Bool
space c = c == 32 || c == 13 || c == 10 || c == 9

abbrev pub extension : ℕ → Bool
extension c = c == b'-' || c == b'+' || c == b'e' || c == b'E' || c == b'.'

abbrev pub array : ℕ → Bool
array c = c == b'['

abbrev pub array_end : ℕ → Bool
array_end c = c == b']'

abbrev pub object : ℕ → Bool
object c = c == b'{'

abbrev pub object_end : ℕ → Bool
object_end c = c == b'}'

-- `at` at the position from which the bytes are; past the end it is the byte 0.
abbrev pub head : Bytes → ℕ
head [] = 0
head (c ∷ rest) = c

pub record Cursor : Type 0 where
  pub rest : Bytes
  pub pos : ℕ

abbrev pub cursor : Bytes → ℕ → Cursor
cursor r p = record { rest = r; pos = p }

abbrev pub advance : Cursor → Cursor
advance c = cursor (drop 1 c.rest) (suc c.pos)

-- The loop of `quoted_string` behind the first quote: the bytes that it writes, the bytes behind them,
-- and the value of `i`. Behind a backslash `i` is one further, so one byte of the fresh string is
-- skipped; a backslash at the end of the text moves `i` past it.
unfoldable pub quoted_from : Bytes → Bytes × Bytes × ℕ
quoted_from [] = ([], [], 0)
quoted_from (c ∷ []) =
    if quote c then ([], c ∷ [], 0) else if backslash c then ([], [], 2) else (c ∷ [], [], 1)
quoted_from (c ∷ d ∷ rest) =
    let escaped : Bytes × Bytes × ℕ = (let (w, r, i) = quoted_from rest in (0 ∷ d ∷ w, r, i + 2)) in
    let plain : Bytes × Bytes × ℕ = (let (w, r, i) = quoted_from (d ∷ rest) in (c ∷ w, r, i + 1)) in
    if quote c then ([], c ∷ d ∷ rest, 0) else if backslash c then escaped else plain

-- The string that is pushed: where nothing was written its length is still that of `blank`.
abbrev pub quoted_value : ℕ → Bytes → ℕ → Str
quoted_value size [] zero = none
quoted_value size [] (suc i) = some (blank size)
quoted_value size (c ∷ w) i = some (c ∷ w)

abbrev ends_token : ℕ → Bool
ends_token c = quote c || colon c || space c || bracket c || comma c

-- The loop of `token`: the bytes that it writes, and those behind them.
unfoldable pub token_from : Bytes → Bytes × Bytes
token_from [] = ([], [])
token_from (c ∷ rest) =
    let more : Bytes × Bytes = (let (w, r) = token_from rest in (c ∷ w, r)) in
    if ends_token c then ([], c ∷ rest) else more

-- The loop of `number`.
unfoldable pub number_from : Bytes → Bytes × Bytes
number_from [] = ([], [])
number_from (c ∷ rest) =
    let more : Bytes × Bytes = (let (w, r) = number_from rest in (c ∷ w, r)) in
    if not (digit c) && not (extension c) then ([], c ∷ rest) else more

-- `i > 0 ? retval : NULL`, where `retval` has the `i` bytes written.
abbrev pub written : Bytes → Str
written [] = none
written (c ∷ w) = some (c ∷ w)

-- A loop such as `while (!object_end(s,p) && !comma(s,p) && p < len(s)) ++p`.
unfoldable pub skip_until : (ℕ → Bool) → Bytes → ℕ → Cursor
skip_until stops [] p = cursor [] p
skip_until stops (c ∷ rest) p =
    let more = skip_until stops rest (suc p) in if stops c then cursor (c ∷ rest) p else more

module _ (lua : Lua) where
  -- What a reader leaves: the position that it moved `o` to, and the state of Lua.
  abbrev pub Read : Type 0
  Read = Cursor × lua.State

  unfoldable pub quoted_string : Cursor → lua.State → Read
  unfolding quoted_from
  quoted_string c s =
      let c' = if quote (head c.rest) then advance c else c in
      let (w, r, i) = quoted_from c'.rest in
      (cursor r (c'.pos + i), str2lua lua (quoted_value (length c.rest) w i) s)

  unfoldable pub token : Cursor → lua.State → Read
  unfolding token_from
  token c s =
      let (w, r) = token_from c.rest in (cursor r (c.pos + length w), str2lua lua (written w) s)

  unfoldable pub number : Cursor → lua.State → Read
  unfolding number_from
  number c s =
      let (w, r) = number_from c.rest in (cursor r (c.pos + length w), str2lua lua (written w) s)

  -- `quote(s,off) ? quoted_string(s,&off) : token(s,&off)`.
  unfoldable pub string_or_token : Cursor → lua.State → Read
  unfolding quoted_string token
  string_or_token c s = if quote (head c.rest) then quoted_string c s else token c s

  -- The key of a field, and the way to its value: past the colon, and past spaces.
  unfoldable pub field_key : Cursor → lua.State → Read
  field_key c s =
      let (c₁, s') = string_or_token c s in
      let c₂ = skip_until colon c₁.rest c₁.pos in
      (skip_until (λ b. not (space b)) (drop 1 c₂.rest) (suc c₂.pos), s')

  -- The positions that the loops stop at behind a value.
  abbrev pub ends_element : ℕ → Bool
  ends_element c = array_end c || comma c

  abbrev pub ends_field : ℕ → Bool
  ends_field c = object_end c || comma c

  -- Fuel counts calls and rounds; `none` is that it ran out. `n` is the place of the table on the stack, and
  -- `j` the index of the element before.
  unfoldable mutual
    pub array_from : ℕ → Bytes → ℕ → ℕ → ℕ → lua.State → Option Read
    array_from zero rest p j n s = none
    array_from (suc fuel) [] p j n s = some (cursor [] p, s)
    array_from (suc fuel) (c ∷ rest) p j n s =
        let past = array_from fuel rest (suc p) j n s in
        let nested = parse_json_object fuel (c ∷ rest) p (lua.push_number (suc j) s) in
        let plain = some (string_or_token (cursor (c ∷ rest) p) (lua.push_number (suc j) s)) in
        let others =
          ((if bracket c then nested else plain) >>= λ (c₁, s₁).
          let c₂ = skip_until ends_element c₁.rest c₁.pos in
          let s₂ = lua.set_table n s₁ in
          let again = array_from fuel (drop 1 c₂.rest) (suc c₂.pos) (suc j) n s₂ in
          if array_end (head c₂.rest) then some (advance c₂, s₂) else again) in
        if space c then past else if array_end c then some (cursor rest (suc p), s) else others

    pub object_from : ℕ → Bytes → ℕ → ℕ → lua.State → Option Read
    object_from zero rest p n s = none
    object_from (suc fuel) [] p n s = some (cursor [] p, s)
    object_from (suc fuel) (c ∷ rest) p n s =
        let past = object_from fuel rest (suc p) n s in
        let (c₁, s₁) = field_key (cursor (c ∷ rest) p) s in
        let nested = parse_json_object fuel c₁.rest c₁.pos s₁ in
        let plain = some (string_or_token c₁ s₁) in
        let others =
          ((if bracket (head c₁.rest) then nested else plain) >>= λ (c₂, s₂).
          let c₃ = skip_until ends_field c₂.rest c₂.pos in
          let s₃ = lua.set_table n s₂ in
          let again = object_from fuel (drop 1 c₃.rest) (suc c₃.pos) n s₃ in
          if object_end (head c₃.rest) then some (advance c₃, s₃) else again) in
        if space c then past else if object_end c then some (cursor rest (suc p), s) else others

    -- `parse_json_object`, and `parse_array` where the bracket is that of an array.
    pub parse_json_object : ℕ → Bytes → ℕ → lua.State → Option Read
    parse_json_object zero rest p s = none
    parse_json_object (suc fuel) rest p s =
        let s' = lua.new_table s in
        let elements = array_from fuel (drop 1 rest) (suc p) 0 (lua.get_top s') s' in
        let members = object_from fuel (drop 1 rest) (suc p) (lua.get_top s') s' in
        if array (head rest) then elements else members

  -- What the loop of `parse_json_string` found: where a value begins, and where its reader ended.
  abbrev pub Found : Type 0
  Found = Option (ℕ × Cursor) × lua.State

  abbrev pub found_at : ℕ → Read → Option Found
  found_at p (c, s) = some (some (p, c), s)

  -- The text that is returned is cut at the end of `src`, where `from` of the code reads on.
  abbrev pub returned : Bytes → Found → Option (Str × lua.State)
  returned src (none, s) = some (none, s)
  returned src (some (o, c), s) = some (some (from src o (c.pos - o)), s)

  -- `none` is fuel that ran out, and `some (none, s)` that no bracket is found.
  unfoldable pub parse_string_from : ℕ → Bytes → ℕ → lua.State → Option Found
  parse_string_from fuel [] p s = some (none, s)
  parse_string_from fuel (c ∷ rest) p s =
      let on = parse_string_from fuel rest (suc p) s in
      let read = (parse_json_object fuel (c ∷ rest) p s >>= found_at p) in
      if space c then on else if bracket c then read else on

  unfoldable pub parse_json_string : ℕ → Bytes → lua.State → Option (Str × lua.State)
  unfolding parse_string_from
  parse_json_string fuel src s = parse_string_from fuel src 0 s >>= returned src
