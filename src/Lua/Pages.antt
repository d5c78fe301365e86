-- ===== src/Lua/Pages.antt =====
-- lws.c: a page of text and scripts, as it is evaluated and sent. Lua is a parameter: what it does with
-- the text of a script, and with the file `common.lua`.
pub mod Rendering
mod Tests
use jawas.Base.{ℕ, ◌+◌, Bool, List, [], ◌∷◌, ◌++◌, Option, none, some, Bytes, Str, codes, ◌>>=◌}
use jawas.Str.{from}
use jawas.Headers.{Headers, Slot, over, cache_control, date_field}
use jawas.Files.{File, file_path}
use jawas.Files.Segments.{
  Segment, SegmentKind, text_segment, script_segment, emit_segment, parse_file,
}
use jawas.Sockets.{Socket, Write, write_chunk, write_chunked_socket, send_headers}
use jawas.Status.{send_status}
use jawas.Lua.{Lua, str2lua}

-- How a script ends: it returns or fails, and the page goes on, or it leaves the page by `longjmp`, as
-- `exit` does.
pub data Ran {ℓ} (A : Type ℓ) : Type ℓ where
  goes_on : A → Ran A
  jumps : A → Ran A

infixl 5 ◌>=>◌
abbrev pub ◌>=>◌ {ℓ} : {A : Type ℓ} → Ran A → (A → Ran A) → Ran A
goes_on a >=> f = f a
jumps a >=> f = jumps a

-- The state in which a page ended.
abbrev pub ended {ℓ} : {A : Type ℓ} → Ran A → A
ended (goes_on a) = a
ended (jumps a) = a

-- `PrintLua`, on the texts that `lua2str` gives for its arguments.
unfoldable pub print_lua : Write → List Bytes → Socket → Socket
print_lua write [] sc = sc
print_lua write (out ∷ rest) sc = print_lua write rest (write_chunked_socket write sc out).1

module _ (lua : Lua) where
  -- What a page has in its hands: the socket of the client, and Lua.
  abbrev pub Page : Type 0
  Page = Socket × lua.State

  -- What `luaL_loadbuffer` and `lua_pcall` do with the text of a script.
  abbrev pub Eval : Type 0
  Eval = Bytes → Page → Ran Page

  module _ (write : Write) (eval : Eval) where
    -- One segment; `write_chunk` is given a pointer and a length, so an empty text is the last chunk.
    unfoldable pub eval_segment : Bytes → Segment → Page → Ran Page
    eval_segment contents seg (sc, s) = elim seg.kind [
      | text_segment ↦
          goes_on ((write_chunk write sc (some (from contents seg.offset seg.size))).1, s)
      | script_segment ↦ eval (from contents seg.offset seg.size) (sc, s)
      | emit_segment ↦ eval (from contents seg.offset seg.size) (sc, s)
    ]

    unfoldable pub eval_segments : Bytes → List Segment → Page → Ran Page
    eval_segments contents [] p = goes_on p
    eval_segments contents (seg ∷ rest) p =
        eval_segment contents seg p >=> eval_segments contents rest

    -- `EvalLuaFile`; `none` is a file that was not parsed.
    unfoldable pub eval_lua_file : File → Option (List Segment) → Page → Ran Page
    unfolding eval_segments eval_segment
    eval_lua_file fc none p = goes_on p
    eval_lua_file fc (some parsed) p = eval_segments fc.contents parsed p

  -- The loop over the form's fields, each a global variable; `globals` is `LUA_GLOBALSINDEX`.
  unfoldable pub set_globals : ℕ → List Slot → lua.State → lua.State
  set_globals globals [] s = s
  set_globals globals (f ∷ rest) s = elim f.key [
    | none ↦ set_globals globals rest s
    | some k ↦
        set_globals globals rest
          (lua.set_table globals (str2lua lua f.value (str2lua lua (some k) s)))
  ]

  abbrev pub form_slots : Option Headers → List Slot
  form_slots none = []
  form_slots (some h) = over h

  -- What `run_lua_script` needs: the state of `init_lua`, or NULL, what running `common.lua` does, and
  -- what a script does.
  pub record Scripts : Type 0 where
    pub begins : Option lua.State
    pub globals : ℕ
    pub do_file : Bytes → Page → Page
    pub eval : Eval

  -- `run_lua_script` for a client that is to be answered. Files in the cache are parsed when they are
  -- opened. `end_lua` drops the state, and the socket is left.
  unfoldable pub run_lua_script :
      Write → Scripts → Bytes → Str → File → Option Headers → Socket → Option Socket
  unfolding eval_lua_file set_globals
  run_lua_script write scripts cwd host fc query_vars sc = elim scripts.begins [
    | none ↦ some sc
    | some s ↦ file_path cwd host (some (codes "/common.lua")) >>= λ common.
        let (sc₁, s₁) = scripts.do_file common (sc, s) in
        let s₂ = set_globals scripts.globals (form_slots query_vars) s₁ in
        some (ended (eval_lua_file write scripts.eval fc (parse_file fc) (sc₁, s₂))).0
  ]
