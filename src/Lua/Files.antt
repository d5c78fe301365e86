-- ===== src/Lua/Files.antt =====
-- lws.c, `UseLua` and `IncludeLua`: the files that a script runs or puts into its page. Both return no
-- value.
use jawas.Base.{
  [], ◌∷◌, ◌++◌, Option, none, some, ◌≡◌, refl, sym, ap, ◌∙◌, append-nil, Bytes, Str, codes, ◌>>=◌,
}
use jawas.Format.{str, new_str}
use jawas.Format.Pieces.{new_str-pieces, plain, string}
use jawas.Files.{File, Cache, file_path, file_path_lem, load, load_first}
use jawas.Files.Segments.{parse_file}
use jawas.Sockets.{Write}
use jawas.Lua.{Lua, lua2str}
use jawas.Lua.Pages.{Page, Eval, Ran, goes_on, eval_lua_file}

-- The file of the host that the first argument names; `none` is a NULL part, which the formatter reads through.
unfoldable pub named_file : Bytes → Str → Str → Option Bytes
named_file cwd host name =
    new_str (codes "/%s") (str name ∷ []) >>= λ f. file_path cwd host (some f)

-- The name behind the working directory and the host.
pub named_file_lem :
    (cwd host name : Bytes)
    → named_file cwd (some host) (some name) ≡ some (cwd ++ b'/' ∷ (host ++ b'/' ∷ name))
unfolding named_file
named_file_lem cwd host name =
    ap (λ o. o >>= λ f. file_path cwd (some host) (some f))
      (new_str-pieces (plain b'/' ∷ string name ∷ []) ((λ e. cc e), (tt, tt)))
    ∙ ap (λ t. file_path cwd (some host) (some (b'/' ∷ t))) (append-nil name)
    ∙ file_path_lem cwd host (b'/' ∷ name)

module _ (lua : Lua) (write : Write) (eval : Eval lua) (cwd : Bytes) (host : Str) where
  -- `UseLua`; `do_file` is what running a file does, with its error.
  unfoldable pub use_lua : (Bytes → Page lua → Page lua) → Page lua → Option (Page lua)
  unfolding named_file
  use_lua do_file (sc, s) = named_file cwd host (lua2str lua 1 s) >>= λ filename.
      let (sc', s') = do_file filename (sc, s) in some (sc', lua.pop 1 s')

  -- `IncludeLua`: a page of the cache, whose scripts may leave the page.
  unfoldable pub include_lua : Cache → Page lua → Option (Ran (Page lua))
  unfolding named_file
  include_lua cache (sc, s) = named_file cwd host (lua2str lua 1 s) >>= λ filename.
      let s' = lua.pop 1 s in
      some (elim (load cache (some filename)) [
        | none ↦ goes_on (sc, s')
        | some fc ↦ eval_lua_file lua write eval fc (parse_file fc) (sc, s')
      ])

-- A script that includes a file which the cache holds goes on as that file is evaluated, with the name taken
-- off Lua's stack.
pub include_lua-load :
    (lua : Lua) (write : Write) (eval : Eval lua) (cwd host name : Bytes) (before : Cache)
    (f : File) (behind : Cache) (p : Page lua)
    → lua2str lua 1 p.1 ≡ some name
    → f.name ≡ cwd ++ b'/' ∷ (host ++ b'/' ∷ name)
    → load before (some f.name) ≡ none
    → include_lua lua write eval cwd (some host) (before ++ f ∷ behind) p
      ≡ some (eval_lua_file lua write eval f (parse_file f) (p.0, lua.pop 1 p.1))
unfolding include_lua
include_lua-load lua write eval cwd host name before f behind (sc, s) arg path first =
    let found : load (before ++ f ∷ behind) (some (cwd ++ b'/' ∷ (host ++ b'/' ∷ name))) ≡ some f =
      ap (λ t. load (before ++ f ∷ behind) (some t)) (sym path)
      ∙ load_first before f behind first in
    rw (arg, named_file_lem cwd host name, found) refl
