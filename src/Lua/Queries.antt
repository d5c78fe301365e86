-- ===== src/Lua/Queries.antt =====
-- lws.c, `QueryLua`, and lua_db.c, `DBClosureLua`: how a script asks the database.
pub mod Text
pub mod Results
mod Tests
use jawas.Base.{
  ℕ, zero, suc, ◌+◌, ◌-◌, ◌*◌, Bool, List, [], ◌∷◌, ◌++◌, Option, none, some, leb, ltb, ◌==◌,
  if◌then◌else◌, length, Bytes, Str, text, codes, ◌>>=◌,
}
use jawas.Str.{apart, adjacent, append, from}
use jawas.Format.{str, new_str}
use jawas.Database.{Answer, Result, query, fields, field, db_error, fetch, singlequote}
use jawas.Lua.{Lua, str2lua, lua2str}

-- The loop of `QueryLua` over the bytes of `q` from `i` on. `values j` is `singlequote(lua2str(j))`, `n` the
-- number of arguments, and the result is `qry` with `o`.
unfoldable pub fill_from : (ℕ → Str) → ℕ → Bytes → Bytes → ℕ → ℕ → ℕ → Str → Str × ℕ
fill_from values n q [] i j o qry = (qry, o)
fill_from values n q (c ∷ rest) i j o qry =
    let hit = c == b'?' in
    let next =
      fill_from values n q rest (suc i) (if hit then suc j else j) (if hit then suc i else o) (
        if hit
        then some
            (append apart qry (append apart (some (from q o (i - o))) (text (values (suc j)))))
        else qry) in
    if leb j n then next else (qry, o)

-- `sizeof(struct str_struct)`: what is reserved for a view that `from` makes.
abbrev pub view_size : ℕ
view_size = 16

-- The statement with its placeholders filled in, as `query` reads it; the loop begins at 1. What the loop has put
-- together was the last thing to be reserved, so the view of the rest stands just behind it.
unfoldable pub fill_placeholders : (ℕ → ℕ) → (ℕ → Str) → ℕ → Bytes → Bytes
unfolding fill_from append
fill_placeholders memory values n [] = []
fill_placeholders memory values n (c ∷ rest) =
    let q = c ∷ rest in
    let (qry, o) = fill_from values n q rest 1 1 0 none in
    append (adjacent view_size memory) qry (from q o (length q - o))

-- The loop of `DBClosureLua` over its arguments: each in quotes, with a comma behind all but the last.
unfoldable pub closure_arguments : Bytes → List Bytes → Bytes
closure_arguments qry [] = qry
closure_arguments qry (a ∷ []) = qry ++ (b'\'' ∷ (a ++ (b'\'' ∷ [])))
closure_arguments qry (a ∷ b ∷ rest) =
    closure_arguments (qry ++ (b'\'' ∷ (a ++ (b'\'' ∷ b',' ∷ [])))) (b ∷ rest)

-- The statement that a stored procedure is called by; `base` is its upvalue.
unfoldable pub closure_query : Bytes → List Bytes → Bytes
unfolding closure_arguments
closure_query base args = closure_arguments base args ++ codes ")"

module _ (lua : Lua) where
  -- The loop over the fields of a row; `k` are left, and `n` is the place of the table of rows.
  unfoldable pub push_fields : Result → ℕ → ℕ → ℕ → ℕ → lua.State → lua.State
  push_fields res n i zero j s = s
  push_fields res n i (suc k) j s =
      push_fields res n i k (suc j)
        (lua.set_table (n + 2) (str2lua lua (fetch res i j) (str2lua lua (field res j) s)))

  -- The loop over the rows, of which `k` are left.
  unfoldable pub push_rows : Result → ℕ → ℕ → ℕ → lua.State → lua.State
  unfolding push_fields
  push_rows res n zero i s = s
  push_rows res n (suc k) i s =
      let s' = push_fields res n i (fields res) 0 (lua.new_table (lua.push_number (i + 1) s)) in
      push_rows res n k (suc i) (lua.set_table n s')

  -- What stands behind `query` in both functions.
  unfoldable pub push_result : Option ℕ × Result → lua.State → lua.State
  unfolding push_rows
  push_result (none, res) s = str2lua lua (db_error res) s
  push_result (some k, res) s = let s' = lua.new_table s in push_rows res (lua.get_top s') k 0 s'

  -- The texts of the arguments from `i` on, of which `k` are left.
  unfoldable pub argument_texts : lua.State → ℕ → ℕ → List Bytes
  argument_texts s zero i = []
  argument_texts s (suc k) i = text (lua2str lua i s) ∷ argument_texts s k (suc i)

  -- `memory` is what the region holds behind a statement when `query` reads it.
  module _ {S : Type 0} (memory : ℕ → ℕ) (exec : Bytes → S → Answer × S)
      (escape : Bytes → Bytes) where
    -- `QueryLua`, which returns 1; its first argument is a text.
    unfoldable pub query_lua : lua.State → S → lua.State × S
    unfolding fill_placeholders
    query_lua s db =
        let n = lua.get_top s in
        let qry =
          fill_placeholders memory (λ j. singlequote escape (lua2str lua j s)) n
            (text (lua2str lua 1 s)) in
        let (res, db') = query exec qry db in (push_result res (lua.pop n s), db')

    -- `DBClosureLua`, which returns 1; `base` is what `lua2str` gives for its upvalue.
    unfoldable pub closure_lua : Bytes → lua.State → S → lua.State × S
    unfolding closure_query argument_texts
    closure_lua base s db =
        let n = lua.get_top s in
        let qry = closure_query base (argument_texts s n 1) in
        let (res, db') = query exec qry db in (push_result res (lua.pop n s), db')
