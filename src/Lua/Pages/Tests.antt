-- ===== src/Lua/Pages/Tests.antt =====
-- Runs of a page, and the instances of its theorems.
use jawas.Base.{
  ℕ, suc, ◌+◌, false, List, [], ◌∷◌, ◌++◌, none, some, ◌≡◌, refl, arith, length, Bytes, codes,
}
use jawas.Str.{ncmp}
use jawas.Files.{File}
use jawas.Files.Segments.{Segment, text_segment, script_segment, parse_file}
use jawas.Sockets.{Socket, Write}
use jawas.Sockets.Chunks.{last_chunk, decode_chunks}
use jawas.Lua.{Lua}
use jawas.Lua.Pages.{Eval, goes_on, print_lua, eval_lua_file}
use jawas.Lua.Pages.Rendering.{rendered, eval_lua_file-rendered, eval_lua_file-empty_text}

-- A Lua whose state counts the scripts that ran, and whose scripts print their own text and a stop.
abbrev counter : Lua
counter = record {
  State = ℕ;
  get_top = λ s. s;
  new_table = λ s. s;
  push_number = λ n s. s;
  push_string = λ t s. s;
  push_nil = λ s. s;
  push_pointer = λ a s. s;
  set_table = λ n s. s;
  pop = λ n s. s;
  string_at = λ i s. none;
  boolean_at = λ i s. none;
  pointer_at = λ i s. 0;
}

abbrev accepts : Write
accepts n d = some (length d)

abbrev prints_itself : Bytes → ℕ → List Bytes
prints_itself t s = t ∷ codes "." ∷ []

abbrev echo : Eval counter
echo t p = goes_on (print_lua accepts (prints_itself t p.1) p.0, p.1 + 1)

abbrev fresh : Socket
fresh = record { closed = false; calls = 0; sent = [] }

abbrev page : File
page = record { name = codes "/p.lws"; contents = codes "ab<? x ?>c" }

abbrev cut : List Segment
cut =
    record { kind = text_segment; offset = 0; size = 2 }
    ∷ record { kind = script_segment; offset = 5; size = 2 }
    ∷ record { kind = text_segment; offset = 9; size = 1 }
    ∷ []

cut_runs : parse_file page ≡ some cut
unfolding parse_file ncmp
cut_runs = refl

rendered_runs : rendered counter prints_itself (λ t s. s + 1) page.contents cut 0 ≡ codes "abx .c"
rendered_runs = refl

eval_lua_file-rendered_example :
    (sc' : Socket) × (s' : ℕ) × (coded : Bytes) × (rounds : ℕ) × (eval_lua_file counter accepts echo
        page
        (some cut)
        (fresh, 0)
      ≡ goes_on (sc', s'))
    × (sc'.sent ≡ coded)
    × (sc'.closed ≡ false)
    × (decode_chunks (suc rounds) (coded ++ last_chunk) ≡ some (codes "abx .c"))
eval_lua_file-rendered_example =
    eval_lua_file-rendered accepts (λ n d. refl) counter echo prints_itself (λ t s. s + 1)
      (λ t sc s. refl) page cut fresh 0 refl
      (
        (λ e. (omega arith, omega arith)),
        ((λ e. absurd (cc e)), ((λ e. (omega arith, omega arith)), tt)),
      )

abbrev included : File
included = record { name = codes "/i.lws"; contents = codes "a<? x ?>" }

-- A page that ends with a script ends with an empty text.
empty_text_runs :
    parse_file included
    ≡ some (
        record { kind = text_segment; offset = 0; size = 1 }
        ∷ record { kind = script_segment; offset = 4; size = 2 }
        ∷ record { kind = text_segment; offset = 8; size = 0 }
        ∷ [])
unfolding parse_file ncmp
empty_text_runs = refl

abbrev text_a : List Segment
text_a = record { kind = text_segment; offset = 0; size = 1 } ∷ []

eval_lua_file-empty_text_example :
    (sc' : Socket) × (s' : ℕ) × (coded : Bytes) × (rounds : ℕ) × (eval_lua_file counter accepts echo
        included
        (some (text_a ++ record { kind = text_segment; offset = 8; size = 0 } ∷ text_a))
        (fresh, 0)
      ≡ goes_on (sc', s'))
    × (sc'.sent ≡ coded)
    × ((more : Bytes) → decode_chunks (suc rounds) (coded ++ more) ≡ some (codes "a"))
eval_lua_file-empty_text_example =
    eval_lua_file-empty_text accepts (λ n d. refl) counter echo prints_itself (λ t s. s + 1)
      (λ t sc s. refl) included text_a text_a 8 fresh 0 refl ((λ e. (omega arith, omega arith)), tt)
      ((λ e. (omega arith, omega arith)), tt)
