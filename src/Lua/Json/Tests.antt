-- ===== src/Lua/Json/Tests.antt =====
-- lua_json.c
-- Runs of the reader.
use jawas.Base.{ℕ, ◌+◌, ◌-◌, List, [], ◌∷◌, none, some, ◌≡◌, refl, codes, Bytes}
use jawas.Lua.{Lua}
use jawas.Lua.Json.Values.{
  Value, string, list, table, no_items, item, no_fields, field, IsPlain, Plain, shown, made,
}
use jawas.Lua.Json.RoundTrip.{parse_json_string-shown}
use jawas.Lua.Json.{parse_json_object, parse_json_string, string_or_token, field_key, skip_until}

-- A call of Lua, and a Lua that keeps the calls, the last one first, and the height of its stack.
data Call : Type 0 where
  new_table : Call
  push_number : ℕ → Call
  push_string : Bytes → Call
  push_nil : Call
  set_table : ℕ → Call

abbrev recorder : Lua
recorder = record {
  State = ℕ × List Call;
  get_top = λ s. s.0;
  new_table = λ s. (s.0 + 1, new_table ∷ s.1);
  push_number = λ n s. (s.0 + 1, push_number n ∷ s.1);
  push_string = λ t s. (s.0 + 1, push_string t ∷ s.1);
  push_nil = λ s. (s.0 + 1, push_nil ∷ s.1);
  push_pointer = λ a s. (s.0 + 1, push_nil ∷ s.1);
  set_table = λ n s. (s.0 - 2, set_table n ∷ s.1);
  pop = λ n s. (s.0 - n, s.1);
  string_at = λ i s. none;
  boolean_at = λ i s. none;
  pointer_at = λ i s. 0;
}

reads_object :
    parse_json_string recorder 90 (codes " {a: [1, \"b\" ], \"c\":{} }x") (0, [])
    ≡ some (
      some (codes "{a: [1, \"b\" ], \"c\":{} }"),
      (
        1,
        set_table 1
            ∷ new_table
            ∷ push_string (codes "c")
            ∷ set_table 1
            ∷ set_table 3
            ∷ push_string (codes "b")
            ∷ push_number 2
            ∷ set_table 3
            ∷ push_string (codes "1")
            ∷ push_number 1
            ∷ new_table
            ∷ push_string (codes "a")
            ∷ new_table
            ∷ [],
      ),
    )
unfolding parse_json_string parse_json_object string_or_token field_key skip_until
reads_object = refl

-- An empty string is pushed as nil, and behind an escape a byte is left as it was.
empty_is_nil :
    parse_json_string recorder 20 (codes "[\"\"]") (0, [])
    ≡ some (some (codes "[\"\"]"), (1, set_table 1 ∷ push_nil ∷ push_number 1 ∷ new_table ∷ []))
unfolding parse_json_string parse_json_object string_or_token field_key skip_until
empty_is_nil = refl

escape_leaves_gap :
    parse_json_string recorder 20 (b'[' ∷ b'"' ∷ b'a' ∷ 92 ∷ b'b' ∷ b'"' ∷ b']' ∷ []) (0, [])
    ≡ some (
      some (b'[' ∷ b'"' ∷ b'a' ∷ 92 ∷ b'b' ∷ b'"' ∷ b']' ∷ []),
      (1, set_table 1 ∷ push_string (b'a' ∷ 0 ∷ b'b' ∷ []) ∷ push_number 1 ∷ new_table ∷ []),
    )
unfolding parse_json_string parse_json_object string_or_token field_key skip_until
escape_leaves_gap = refl

abbrev ab : Bytes
ab = codes "ab"

ab-IsPlain : IsPlain ab
ab-IsPlain = ((λ e. cc e), (refl, (refl, tt)))

abbrev nested : Value
nested = table (field ab (list (item (string ab) (item (list no_items) no_items))) no_fields)

nested-Plain : Plain nested
unfolding Plain
nested-Plain = (ab-IsPlain, (ab-IsPlain, (tt, tt)), tt)

parse_json_string-shown_example :
    parse_json_string recorder 44 (codes "{\"ab\":[\"ab\",[]]}, more") (0, [])
    ≡ some (some (codes "{\"ab\":[\"ab\",[]]}"), made recorder nested (0, []))
unfolding shown
parse_json_string-shown_example =
    parse_json_string-shown recorder nested (codes ", more") (0, []) nested-Plain tt
