-- ===== src/Requests.antt =====
-- requests.c: the parts of a request line, and the host and port of a request.
pub mod Building
pub mod Log
pub mod Line
pub mod Process
pub mod Sending
mod Tests
use jawas.Base.{
  ℕ, zero, suc, ◌+◌, ◌-◌, ◌*◌, ◌/◌, ◌%◌, ◌≤◌, ◌<◌, Bool, true, false, ◌&&◌, ◌||◌, not, List, [],
  ◌∷◌, ◌++◌, Option, none, some, ◌==◌, if◌then◌else◌, length, get_or, take, drop, Bytes, Str,
  is_space, text, codes, ◌>>=◌,
}
use jawas.Str.{at, from, cmp}
use jawas.Str.Fields.{skip_while, name_field, skip_fields}
use jawas.Numbers.{str_int}
use jawas.Headers.{Headers}
use jawas.Uri.{Form, parse_uri_encoded}

-- `parse_host`: the host and the port of the request. An empty or missing number gives port 80.
unfoldable pub parse_host : Str → Str × ℕ
parse_host none = (none, 0)
parse_host (some host) =
    let port = str_int (skip_fields (some host) 0) in
    (name_field (some host), if port == 0 then 80 else port)

-- `for (l = …; !isspace(at(tmp,i+l)); ++l)`: where the loop stops. It runs on past the end of the text,
-- where the bytes are 0, and `none` is that it never ends.
pub until_space : Bytes → ℕ → Option ℕ
until_space [] i = none
until_space (c ∷ rest) i =
    let next = until_space rest (i + 1) in if is_space c then some i else next

-- The method, if its loop ends; a request with no contents has none.
unfoldable pub parse_method : Str → Option Str
unfolding until_space skip_while
parse_method none = some none
parse_method (some tmp) =
    let i = skip_while is_space tmp 0 in
    until_space (drop (i + 1) tmp) (i + 1) >>= λ stop. some (some (from tmp i (stop - i)))

-- The tests of the loops of `parse_path`.
abbrev pub in_word : ℕ → Bool
in_word c = not (c == 0) && not (is_space c)

abbrev pub in_path : ℕ → Bool
in_path c = in_word c && not (c == b'?')

-- The path and, behind a question mark, the form that is read from the query string; NULL for the form
-- of a request with no query string.
unfoldable pub parse_path : Str → Option (Str × Option Form)
unfolding until_space skip_while
parse_path none = some (none, none)
parse_path (some tmp) =
    let word = skip_while in_word tmp 0 in
    let i = skip_while is_space (drop word tmp) word in
    let end = skip_while in_path (drop i tmp) i in
    let path = from tmp i (end - i) in
    let query = until_space (drop (end + 1) tmp) (end + 1) >>= λ stop.
    some (some path, some (parse_uri_encoded none (some (from tmp end (stop - end))) 1)) in
    if get_or tmp end 0 == b'?' then query else some (some path, none)
