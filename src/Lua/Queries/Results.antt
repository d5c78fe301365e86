-- ===== src/Lua/Queries/Results.antt =====
-- lws.c and lua_db.c: what an answer of the database leaves on Lua's stack.
use jawas.Base.{ℕ, zero, suc, ◌+◌, Option, none, some, ◌≡◌, refl, ◌∙◌, arith, Bytes}
use jawas.Database.{Answer, Result, fields, field, fetch, db_error, query}
use jawas.Lua.{Lua, IsStack, str2lua, str2lua-height}
use jawas.Lua.Queries.{push_fields, push_rows, push_result, query_lua, closure_lua}

module _ (lua : Lua) (laws : IsStack lua) where
  -- `lua_settable` behind a key and a value that stand on top of a stack of height `k`.
  set_table_two :
      (n k : ℕ) (s : lua.State) → lua.get_top s ≡ k + 2 → lua.get_top (lua.set_table n s) ≡ k
  set_table_two n k s e = omega (arith, laws.set_table_height n s (omega arith))

  push_fields-height :
      (res : Result) (n i k j : ℕ) (s : lua.State)
      → lua.get_top (push_fields lua res n i k j s) ≡ lua.get_top s
  unfolding push_fields
  push_fields-height res n i zero j s = refl
  push_fields-height res n i (suc k) j s =
      let s₁ = str2lua lua (field res j) s in
      let s₂ = str2lua lua (fetch res i j) s₁ in
      push_fields-height res n i k (suc j) (lua.set_table (n + 2) s₂)
      ∙ set_table_two (n + 2) (lua.get_top s) s₂ (
          omega (
            arith,
            str2lua-height lua laws (field res j) s,
            str2lua-height lua laws (fetch res i j) s₁,
          ))

  push_rows-height :
      (res : Result) (n k i : ℕ) (s : lua.State)
      → lua.get_top (push_rows lua res n k i s) ≡ lua.get_top s
  unfolding push_rows
  push_rows-height res n zero i s = refl
  push_rows-height res n (suc k) i s =
      let s₁ = lua.push_number (i + 1) s in
      let s₂ = lua.new_table s₁ in
      let s₃ = push_fields lua res n i (fields res) 0 s₂ in
      push_rows-height res n k (suc i) (lua.set_table n s₃)
      ∙ set_table_two n (lua.get_top s) s₃ (
          omega (
            arith,
            push_fields-height res n i (fields res) 0 s₂,
            laws.new_table_height s₁,
            laws.push_number_height (i + 1) s,
          ))

  pub push_result-height :
      (r : Option ℕ × Result) (s : lua.State)
      → lua.get_top (push_result lua r s) ≡ lua.get_top s + 1
  unfolding push_result
  push_result-height (none, res) s = str2lua-height lua laws (db_error res) s
  push_result-height (some k, res) s =
      let s' = lua.new_table s in
      push_rows-height res (lua.get_top s') k 0 s' ∙ laws.new_table_height s

  alone :
      (r : Option ℕ × Result) (s : lua.State)
      → lua.get_top (push_result lua r (lua.pop (lua.get_top s) s)) ≡ 1
  alone r s =
      let s' = lua.pop (lua.get_top s) s in
      omega (arith, push_result-height r s', laws.pop_height (lua.get_top s) s (omega arith))

  -- Where Lua's stack keeps what its manual says of heights: whatever the arguments, and whatever the
  -- database answers, a failure, no rows or rows with any fields, both functions leave the one value
  -- that they say they return.
  pub query_lua-height :
      {S : Type 0} (memory : ℕ → ℕ) (exec : Bytes → S → Answer × S) (escape : Bytes → Bytes)
      (base : Bytes) (s : lua.State) (db : S)
      → (lua.get_top (query_lua lua memory exec escape s db).0 ≡ 1)
        × (lua.get_top (closure_lua lua memory exec escape base s db).0 ≡ 1)
  unfolding query_lua closure_lua
  query_lua-height memory exec escape base s db = (alone _ s, alone _ s)

  -- A failed statement leaves nil, for its message is gone with its result.
  pub query_lua_failed :
      {S : Type 0} (memory : ℕ → ℕ) (exec : Bytes → S → Answer × S) (escape : Bytes → Bytes)
      (s : lua.State) (db : S)
      → ((q : Bytes) (d : S) → (exec q d).0 ≡ Answer.failed)
      → (query_lua lua memory exec escape s db).0 ≡ lua.push_nil (lua.pop (lua.get_top s) s)
  unfolding query_lua push_result query db_error
  query_lua_failed memory exec escape s db h = rw (h _ db) refl
