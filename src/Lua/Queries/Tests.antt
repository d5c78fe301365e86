-- ===== src/Lua/Queries/Tests.antt =====
-- Runs of the statements of scripts, and the instances of their theorems.
use jawas.Base.{ℕ, ◌+◌, ◌-◌, List, [], ◌∷◌, none, some, ◌≡◌, refl, arith, inr, Bytes, Str, codes}
use jawas.Str.{append}
use jawas.Database.{Answer, tuples, query, fields, field, fetch, singlequote}
use jawas.Lua.{Lua, IsStack, lua2str}
use jawas.Lua.Queries.{fill_placeholders, closure_query, query_lua, closure_lua, push_result}
use jawas.Lua.Queries.Text.{fill_placeholders-substituted, closure_query-quote}
use jawas.Lua.Queries.Results.{query_lua-height}

abbrev values : ℕ → Str
values j = some (codes "v")

-- With one argument, the statement itself, a value is read behind it.
past_arguments_runs : fill_placeholders (λ i. 0) values 1 (codes "a=? b=?") ≡ codes "a=v b=?"
unfolding fill_placeholders append
past_arguments_runs = refl

first_byte_runs : fill_placeholders (λ i. 0) values 3 (codes "?=?") ≡ codes "?=v"
unfolding fill_placeholders append
first_byte_runs = refl

-- Of a long rest behind the last placeholder 16 bytes are sent, and then what the memory holds.
long_rest_runs :
    fill_placeholders (λ i. b'#') values 2 (codes "a=? and b = 5 order by c")
    ≡ codes "a=v and b = 5 order#####"
unfolding fill_placeholders append
long_rest_runs = refl

closure_query-quote_example :
    closure_query (codes "f(") (codes "x','y" ∷ [])
    ≡ closure_query (codes "f(") (codes "x" ∷ codes "y" ∷ [])
closure_query-quote_example = closure_query-quote (codes "f(") (codes "x") (codes "y") []

fill_placeholders-substituted_example :
    fill_placeholders (λ i. 0) values 2 (codes "a=?,?,?") ≡ codes "a=v,v,?"
fill_placeholders-substituted_example =
    fill_placeholders-substituted (λ i. 0) values 2 b'a' (codes "=?,?,?") (inr (omega arith))

data Call : Type 0 where
  new_table : Call
  push_number : ℕ → Call
  push_string : Bytes → Call
  push_nil : Call
  set_table : ℕ → Call

-- Keeps the calls, the last one first, and the height; every index holds the text `v?`.
abbrev recorder : Lua
recorder = record {
  State = ℕ × List Call;
  get_top = λ s. s.0;
  new_table = λ s. (s.0 + 1, new_table ∷ s.1);
  push_number = λ n s. (s.0 + 1, push_number n ∷ s.1);
  push_string = λ t s. (s.0 + 1, push_string t ∷ s.1);
  push_nil = λ s. (s.0 + 1, push_nil ∷ s.1);
  push_pointer = λ a s. (s.0 + 1, push_nil ∷ s.1);
  set_table = λ n s. (s.0 - 2, set_table n ∷ s.1);
  pop = λ n s. (s.0 - n, s.1);
  string_at = λ i s. some (codes "v?");
  boolean_at = λ i s. none;
  pointer_at = λ i s. 0;
}

abbrev recorder_laws : IsStack recorder
recorder_laws = record {
  new_table_height = λ s. refl;
  push_number_height = λ n s. refl;
  push_string_height = λ t s. refl;
  push_nil_height = λ s. refl;
  push_pointer_height = λ a s. refl;
  set_table_height = λ n s two. refl;
  pop_height = λ n s le. refl;
}

-- One row with one field, which holds the statement.
abbrev echo : Bytes → ℕ → Answer × ℕ
echo q d = (tuples (record { names = codes "f" ∷ []; rows = (q ∷ []) ∷ [] }), d)

query_runs : (query_lua recorder (λ i. 0) echo (λ t. t) (1, []) 0).0 ≡ (
  1,
  set_table 1
      ∷ set_table 3
      ∷ push_string (codes "vv?")
      ∷ push_string (codes "f")
      ∷ new_table
      ∷ push_number 1
      ∷ new_table
      ∷ [],
)
unfolding query_lua push_result singlequote query fields field fetch lua2str append
query_runs = refl

query_lua-height_example :
    ((query_lua recorder (λ i. 0) echo (λ t. t) (3, []) 0).0.0 ≡ 1)
    × ((closure_lua recorder (λ i. 0) echo (λ t. t) (codes "f(") (3, []) 0).0.0 ≡ 1)
query_lua-height_example =
    query_lua-height recorder recorder_laws (λ i. 0) echo (λ t. t) (codes "f(") (3, []) 0
