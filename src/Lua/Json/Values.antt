-- ===== src/Lua/Json/Values.antt =====
-- JSON values as they are printed and as Lua is told of them, apart from the reader of lua_json.c.
use jawas.Base.{ℕ, suc, false, ◌||◌, [], ◌∷◌, ◌++◌, All, Bytes, ◌≡◌, ◌≢◌}
use jawas.Lua.{Lua}
use jawas.Lua.Json.{quote, backslash}

-- A string, a list of values, or a list of keys with their values.
mutual
  pub data Value : Type 0 where
    string : Bytes → Value
    list : Items → Value
    table : Fields → Value

  pub data Items : Type 0 where
    no_items : Items
    item : Value → Items → Items

  pub data Fields : Type 0 where
    no_fields : Fields
    field : Bytes → Value → Fields → Fields

-- A string that needs no escape, and is not empty.
abbrev pub IsPlain : Bytes → Type 0
IsPlain t = (t ≢ []) × All (λ c. (quote c || backslash c) ≡ false) t

abbrev pub quoted : Bytes → Bytes
quoted t = b'"' ∷ t ++ b'"' ∷ []

-- Every string in a value is plain.
unfoldable mutual
  pub Plain : Value → Type 0
  Plain (string t) = IsPlain t
  Plain (list xs) = PlainItems xs
  Plain (table fs) = PlainFields fs

  pub PlainItems : Items → Type 0
  PlainItems no_items = Unit
  PlainItems (item v xs) = Plain v × PlainItems xs

  pub PlainFields : Fields → Type 0
  PlainFields no_fields = Unit
  PlainFields (field k v fs) = IsPlain k × Plain v × PlainFields fs

-- A value in JSON's notation, with no spaces.
unfoldable mutual
  pub shown : Value → Bytes
  shown (string t) = quoted t
  shown (list xs) = b'[' ∷ shown_items xs
  shown (table fs) = b'{' ∷ shown_fields fs

  -- The items, up to the closing bracket.
  pub shown_items : Items → Bytes
  shown_items no_items = b']' ∷ []
  shown_items (item v xs) = shown v ++ shown_more xs

  pub shown_more : Items → Bytes
  shown_more no_items = b']' ∷ []
  shown_more (item v xs) = b',' ∷ (shown v ++ shown_more xs)

  pub shown_fields : Fields → Bytes
  shown_fields no_fields = b'}' ∷ []
  shown_fields (field k v fs) = quoted k ++ (b':' ∷ (shown v ++ shown_others fs))

  pub shown_others : Fields → Bytes
  shown_others no_fields = b'}' ∷ []
  shown_others (field k v fs) = b',' ∷ (quoted k ++ (b':' ∷ (shown v ++ shown_others fs)))

module _ (lua : Lua) where
  -- The value on top of Lua's stack: a table is made, and filled with its elements, counted from 1, or
  -- its fields.
  unfoldable mutual
    pub made : Value → lua.State → lua.State
    made (string t) s = lua.push_string t s
    made (list xs) s = let s' = lua.new_table s in filled xs (lua.get_top s') 1 s'
    made (table fs) s = let s' = lua.new_table s in assigned fs (lua.get_top s') s'

    pub filled : Items → ℕ → ℕ → lua.State → lua.State
    filled no_items n j s = s
    filled (item v xs) n j s = filled xs n (suc j) (lua.set_table n (made v (lua.push_number j s)))

    pub assigned : Fields → ℕ → lua.State → lua.State
    assigned no_fields n s = s
    assigned (field k v fs) n s = assigned fs n (lua.set_table n (made v (lua.push_string k s)))
