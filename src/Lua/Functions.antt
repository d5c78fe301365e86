-- ===== src/Lua/Functions.antt =====
-- lws.c: the functions that scripts call, `lua_glob_functions`. Each says how many values it leaves on Lua's stack.
pub mod Balance
mod Tests
use jawas.Base.{
  Bool, ℕ, zero, suc, ◌+◌, ◌*◌, List, [], ◌∷◌, Option, none, some, ◌≡◌, length, Bytes, Str, text,
  codes, ◌>>=◌,
}
use jawas.Format.{number, new_str}
use jawas.Headers.{Headers, find_header}
use jawas.Uri.{uri_encode, uri_decode}
use jawas.Auth
use jawas.Sockets.{Socket, Write}
use jawas.Lua.{Lua, str2lua, lua2str}
use jawas.Lua.Json.{parse_json_string}
use jawas.Lua.Queries.{argument_texts, query_lua}
use jawas.Lua.Files.{use_lua, include_lua}
use jawas.Database.{Answer}
use jawas.Files.{Cache}
use jawas.Numbers.{str_int}
use jawas.Requests.Building.{post_http}
use jawas.Lua.Pages.{Page, Eval, Ran, goes_on, jumps, print_lua}

pub data Function : Type 0 where
  exit : Function
  print : Function
  debug : Function
  error : Function
  use_file : Function
  include : Function
  cwd : Function
  header : Function
  param : Function
  now : Function
  query : Function
  encode : Function
  decode : Function
  md5sum : Function
  hmac1 : Function
  base64 : Function
  hex : Function
  rnd : Function
  post : Function
  socket : Function
  send : Function
  receive : Function
  parse : Function

-- What the functions read and call: the request, the server's directory and cache, the clock, the bytes of
-- `/dev/random`, and what OpenSSL, PostgreSQL, Lua and the system answer. `D` is the state of the database.
pub record Surroundings (lua : Lua) (D : Type 0) : Type 0 where
  pub write : Write
  pub directory : Bytes
  pub cache : Cache
  pub host : Str
  pub path : Str
  pub headers : Option Headers
  pub query_vars : Option Headers
  pub time : ℕ
  pub random : Bytes
  pub digest : Bytes → Bytes
  pub keyed_digest : Bytes → Bytes → Bytes
  pub base64_text : Bytes → Str
  -- Running a file, and evaluating a text.
  pub do_file : Bytes → Page lua → Page lua
  pub eval : Eval lua
  -- What the region holds behind a statement, and the PostgreSQL library.
  pub memory : ℕ → ℕ
  pub exec : Bytes → D → Answer × D
  pub escape : Bytes → Bytes
  -- What `lua_next` and `lua2str` give of the table at index 4.
  pub table_fields : lua.State → List (Str × Str)
  pub connect : Str → ℕ → Bool → Option Socket
  -- The address of a new socket for a host and a port, and what `socket_send` and `socket_recv` return for the
  -- socket at an address.
  pub open_peer : Str → ℕ → ℕ
  pub socket_send : ℕ → Str → ℕ
  pub socket_recv : ℕ → Str

module _ (lua : Lua) {D : Type 0} (around : Surroundings lua D) where
  abbrev pub World : Type 0
  World = Page lua × D

  -- How many values a function says that it leaves, with the page and the database; `none` is a loop that does not
  -- end.
  abbrev pub Call : Type 0
  Call = Option (Ran (ℕ × World))

  abbrev cleared : lua.State → lua.State
  cleared s = lua.pop (lua.get_top s) s

  -- `lua_pop(l,n); str2lua(r); return 1`.
  unfoldable pub answers : Option Str → World → Call
  answers none w = none
  answers (some r) ((sc, s), db) = some (goes_on (1, ((sc, str2lua lua r (cleared s)), db)))

  abbrev formatted : Option Bytes → Option Str
  formatted none = none
  formatted (some t) = some (some t)

  -- `JSONLua` returns 1, whatever the reader left.
  abbrev parsed : Socket → D → Option (Str × lua.State) → Call
  parsed sc db none = none
  parsed sc db (some (t, s)) = some (goes_on (1, ((sc, s), db)))

  -- The functions that run a file return no value.
  abbrev ran : D → Ran (Page lua) → Ran (ℕ × World)
  ran db (goes_on p) = goes_on (0, (p, db))
  ran db (jumps p) = jumps (0, (p, db))

  unfoldable pub run_function : Function → World → Call
  run_function exit ((sc, s), db) = some (jumps (0, ((sc, s), db)))
  run_function print ((sc, s), db) =
      let texts = argument_texts lua s (lua.get_top s) 1 in
      some (goes_on (0, ((print_lua around.write texts sc, cleared s), db)))
  run_function debug ((sc, s), db) = some (goes_on (0, ((sc, cleared s), db)))
  run_function error ((sc, s), db) = some (goes_on (0, ((sc, cleared s), db)))
  run_function use_file ((sc, s), db) =
      use_lua lua around.write around.eval around.directory around.host around.do_file (sc, s)
      >>= λ p. some (goes_on (0, (p, db)))
  run_function include ((sc, s), db) =
      include_lua lua around.write around.eval around.directory around.host around.cache (sc, s)
      >>= λ r. some (ran db r)
  run_function cwd w = answers (some around.path) w
  run_function header ((sc, s), db) =
      answers (some (find_header around.headers (lua2str lua 1 s))) ((sc, s), db)
  run_function param ((sc, s), db) =
      answers (some (find_header around.query_vars (lua2str lua 1 s))) ((sc, s), db)
  run_function now w = answers (formatted (new_str (codes "%i") (number around.time ∷ []))) w
  run_function query ((sc, s), db) =
      let (s', db') = query_lua lua around.memory around.exec around.escape s db in
      some (goes_on (1, ((sc, s'), db')))
  run_function encode ((sc, s), db) =
      answers (formatted (uri_encode (lua2str lua 1 s))) ((sc, s), db)
  run_function decode ((sc, s), db) =
      answers (some (some (uri_decode (lua2str lua 1 s)))) ((sc, s), db)
  run_function md5sum ((sc, s), db) =
      answers (some (some (around.digest (text (lua2str lua 1 s))))) ((sc, s), db)
  run_function hmac1 ((sc, s), db) =
      answers (some (some (around.keyed_digest (text (lua2str lua 1 s)) (text (lua2str lua 2 s)))))
        ((sc, s), db)
  run_function base64 ((sc, s), db) =
      answers (some (around.base64_text (text (lua2str lua 1 s)))) ((sc, s), db)
  run_function hex ((sc, s), db) = answers (Auth.hex (text (lua2str lua 1 s))) ((sc, s), db)
  run_function rnd w = answers (Auth.hex around.random) w
  run_function post ((sc, s), db) =
      post_http around.write around.connect (lua2str lua 1 s) (lua2str lua 2 s) (lua2str lua 3 s)
        (around.table_fields s) (lua2str lua 5 s) (lua2str lua 6 s)
      >>= λ req. some (jumps (0, ((sc, lua.pop (lua.get_top s + 1) s), db)))
  run_function socket ((sc, s), db) =
      let a = around.open_peer (lua2str lua 1 s) (str_int (lua2str lua 2 s)) in
      some (goes_on (1, ((sc, lua.push_pointer a (cleared s)), db)))
  run_function send ((sc, s), db) =
      let l = around.socket_send (lua.pointer_at 1 s) (lua2str lua 2 s) in
      some (goes_on (1, ((sc, lua.push_number l (cleared s)), db)))
  run_function receive ((sc, s), db) =
      answers (some (around.socket_recv (lua.pointer_at 1 s))) ((sc, s), db)
  run_function parse ((sc, s), db) =
      let json = text (lua2str lua 1 s) in
      parsed sc db (parse_json_string lua (2 * length json) json (cleared s))
