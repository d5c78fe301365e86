-- ===== src/Lua/Functions/Tests.antt =====
-- Runs of the functions of scripts, and the instance of their theorem.
use jawas.Base.{ℕ, ◌+◌, ◌-◌, ◌≡◌, refl, [], ◌∷◌, List, none, some, false, length, Bytes, codes}
use jawas.Uri.{uri_decode}
use jawas.Sockets.{Socket}
use jawas.Lua.{Lua, IsStack, lua2str}
use jawas.Lua.Json.{parse_json_string}
use jawas.Lua.Pages.{goes_on}
use jawas.Database.{failed}
use jawas.Files.{file_path}
use jawas.Format.{new_str}
use jawas.Lua.Files.{named_file, use_lua}
use jawas.Lua.Functions.{Surroundings, send, decode, parse, use_file, run_function, answers}
use jawas.Lua.Functions.Balance.{IsBalanced, run_function-IsBalanced}

-- A Lua that keeps its texts, the last one first.
abbrev texts : Lua
texts = record {
  State = ℕ × List Bytes;
  get_top = λ s. s.0;
  new_table = λ s. (s.0 + 1, s.1);
  push_number = λ n s. (s.0 + 1, s.1);
  push_string = λ t s. (s.0 + 1, t ∷ s.1);
  push_nil = λ s. (s.0 + 1, s.1);
  push_pointer = λ a s. (s.0 + 1, s.1);
  set_table = λ n s. (s.0 - 2, s.1);
  pop = λ n s. (s.0 - n, s.1);
  string_at = λ i s. some (codes "a%20b");
  boolean_at = λ i s. none;
  pointer_at = λ i s. 0;
}

abbrev texts_laws : IsStack texts
texts_laws = record {
  new_table_height = λ s. refl;
  push_number_height = λ n s. refl;
  push_string_height = λ t s. refl;
  push_nil_height = λ s. refl;
  push_pointer_height = λ a s. refl;
  set_table_height = λ n s two. refl;
  pop_height = λ n s le. refl;
}

abbrev fresh : Socket
fresh = record { closed = false; calls = 0; sent = [] }

abbrev around : Surroundings texts ℕ
around = record {
  write = λ n d. some (length d);
  directory = codes "/www";
  cache = [];
  host = some (codes "h");
  path = none;
  headers = none;
  query_vars = none;
  time = 0;
  random = [];
  digest = λ t. t;
  keyed_digest = λ k t. t;
  base64_text = λ t. none;
  do_file = λ t p. (p.0, texts.push_string t p.1);
  eval = λ t p. goes_on p;
  memory = λ i. 0;
  exec = λ q d. (failed, d);
  escape = λ t. t;
  table_fields = λ s. [];
  connect = λ h port ssl. none;
  open_peer = λ h port. port;
  socket_send = λ a t. 0;
  socket_recv = λ a. none;
}

decode_runs :
    run_function texts around decode ((fresh, (1, [])), 0)
    ≡ some (goes_on (1, ((fresh, (1, codes "a b" ∷ [])), 0)))
unfolding run_function answers lua2str uri_decode
decode_runs = refl

-- A text with no bracket leaves nothing, and `parse` says that it leaves one value.
parse_runs :
    run_function texts around parse ((fresh, (1, [])), 0)
    ≡ some (goes_on (1, ((fresh, (0, [])), 0)))
unfolding run_function lua2str parse_json_string
parse_runs = refl

-- `use` keeps the message of a file that fails, and says that it leaves no value.
use_file_runs :
    run_function texts around use_file ((fresh, (1, [])), 0)
    ≡ some (goes_on (0, ((fresh, (1, codes "/www/h/a%20b" ∷ [])), 0)))
unfolding run_function use_lua named_file lua2str new_str file_path
use_file_runs = refl

run_function-IsBalanced_example :
    IsBalanced texts texts_laws around (run_function texts around send ((fresh, (2, [])), 0))
run_function-IsBalanced_example =
    run_function-IsBalanced texts texts_laws around send ((fresh, (2, [])), 0) (λ e. cc e)
      (λ e. cc e) (λ e. cc e)
