-- ===== src/Lua.antt =====
-- The part of the Lua library that lua_json.c and lws.c call, as a parameter, and the functions of
-- lws.c that hand values over to it. Lua itself is not part of the repository.
pub mod Files
pub mod Functions
pub mod Json
pub mod Pages
pub mod Queries
use jawas.Base.{
  ℕ, ◌+◌, ◌-◌, ◌≤◌, Bool, true, false, [], ◌∷◌, Option, none, some, ◌≡◌, Bytes, Str, codes,
}
use jawas.Format.{pointer, new_str}

-- The operations of a `lua_State`: `lua_gettop`, `lua_newtable`, `lua_pushnumber`, `lua_pushlstring`,
-- `lua_pushnil`, `lua_pushlightuserdata`, `lua_settable` and `lua_pop`; and what stands at an index: a text, or a number, which Lua
-- makes one, a truth value, or something else with an address.
pub record Lua : Type 1 where
  pub State : Type 0
  pub get_top : State → ℕ
  pub new_table : State → State
  pub push_number : ℕ → State → State
  pub push_string : Bytes → State → State
  pub push_nil : State → State
  pub push_pointer : ℕ → State → State
  pub set_table : ℕ → State → State
  pub pop : ℕ → State → State
  pub string_at : ℕ → State → Option Bytes
  pub boolean_at : ℕ → State → Option Bool
  pub pointer_at : ℕ → State → ℕ

-- What the Lua manual says of the height of the stack: a push adds one value, `lua_settable` takes the
-- key and the value, and `lua_pop` takes as many as it says. A call of `lua_settable` whose key is nil raises an
-- error; what is shown by these laws sets names and numbers only.
pub record IsStack (lua : Lua) : Type 0 where
  pub new_table_height : (s : lua.State) → lua.get_top (lua.new_table s) ≡ lua.get_top s + 1
  pub push_number_height :
      (n : ℕ) (s : lua.State) → lua.get_top (lua.push_number n s) ≡ lua.get_top s + 1
  pub push_string_height :
      (t : Bytes) (s : lua.State) → lua.get_top (lua.push_string t s) ≡ lua.get_top s + 1
  pub push_nil_height : (s : lua.State) → lua.get_top (lua.push_nil s) ≡ lua.get_top s + 1
  pub push_pointer_height :
      (a : ℕ) (s : lua.State) → lua.get_top (lua.push_pointer a s) ≡ lua.get_top s + 1
  pub set_table_height :
      (n : ℕ) (s : lua.State)
      → 2 ≤ lua.get_top s
      → lua.get_top (lua.set_table n s) ≡ lua.get_top s - 2
  pub pop_height :
      (n : ℕ) (s : lua.State) → n ≤ lua.get_top s → lua.get_top (lua.pop n s) ≡ lua.get_top s - n

module _ (lua : Lua) where
  abbrev pub str2lua : Str → lua.State → lua.State
  str2lua none s = lua.push_nil s
  str2lua (some t) s = lua.push_string t s

  -- `lua2str`. Lua says of a number that it is a text, so the branch for numbers is never taken.
  unfoldable pub lua2str : ℕ → lua.State → Str
  lua2str i s = elim (lua.string_at i s) [
    | some t ↦ some t
    | none ↦ elim (lua.boolean_at i s) [
      | some true ↦ some (codes "true")
      | some false ↦ some (codes "false")
      | none ↦ new_str (codes "%p") (pointer (lua.pointer_at i s) ∷ [])
    ]
  ]

module _ (lua : Lua) (laws : IsStack lua) where
  pub str2lua-height : (t : Str) (s : lua.State) → lua.get_top (str2lua lua t s) ≡ lua.get_top s + 1
  str2lua-height none s = laws.push_nil_height s
  str2lua-height (some t) s = laws.push_string_height t s
