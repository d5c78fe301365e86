-- ===== src/Status.antt =====
-- status.c: the table of status codes, `find_status_code`, `status_line` and `error_handler`.
pub mod Errors
mod Tests
use jawas.Base.{
  ℕ, zero, suc, ◌+◌, ◌≤◌, ◌<◌, Bool, true, false, List, [], ◌∷◌, ◌++◌, Option, none, some, ◌≡◌, ◌≢◌,
  refl, sym, ap, ◌∙◌, arith, ◌==◌, ==_iff, if◌then◌else◌, ltb, length, take, drop, Bytes, Str,
  codes, ◌>>=◌, append-nil, Bool-cases, inl, inr,
}
use jawas.Format.{Arg, chars, new_str}
use jawas.Format.Pieces.{plain, c_string, new_str-pieces}
use jawas.Files.{File, Cache, load, file_path}
use jawas.Headers.{Headers}
use jawas.Sockets.{Socket, Write, write_socket, send_headers, send_raw_contents}

-- A row of `stati`. `status_line` keeps the length of the reason in a further field that nothing reads.
pub record Status : Type 0 where
  pub code : ℕ
  pub reason : Bytes
  pub filename : Str

abbrev bare : ℕ → Bytes → Status
bare c r = record { code = c; reason = r; filename = none }

abbrev paged : ℕ → Bytes → Bytes → Status
paged c r f = record { code = c; reason = r; filename = some f }

-- The rows before the one of code 0, where the search ends.
abbrev pub stati : List Status
stati =
    bare 100 (codes "100 Continue\r\n")
    ∷ bare 101 (codes "101 Switching Protocols\r\n")
    ∷ bare 200 (codes "200 OK\r\n")
    ∷ bare 201 (codes "201 Created\r\n")
    ∷ bare 202 (codes "202 Accepted\r\n")
    ∷ bare 203 (codes "203 Non-Authoritative Information\r\n")
    ∷ bare 204 (codes "204 No Content\r\n")
    ∷ bare 205 (codes "205 Reset Content\r\n")
    ∷ bare 206 (codes "206 Partial Content\r\n")
    ∷ bare 300 (codes "300 Multiple Choices\r\n")
    ∷ bare 301 (codes "301 Moved Permanently\r\n")
    ∷ bare 302 (codes "302 Found\r\n")
    ∷ bare 303 (codes "303 See Other\r\n")
    ∷ bare 304 (codes "304 Not Modified\r\n")
    ∷ bare 305 (codes "305 Use Proxy\r\n")
    ∷ bare 307 (codes "307 Temporary Redirect\r\n")
    ∷ paged 400 (codes "400 Bad Request\r\n") (codes "/400.html")
    ∷ bare 401 (codes "401 Unauthroized\r\n")
    ∷ bare 402 (codes "402 Payment Required\r\n")
    ∷ bare 403 (codes "403 Forbidden\r\n")
    ∷ paged 404 (codes "404 Not Found\r\n") (codes "/404.html")
    ∷ bare 405 (codes "405 Method Not Allowed\r\n")
    ∷ bare 406 (codes "406 Not Acceptable\r\n")
    ∷ bare 407 (codes "407 Proxy Authentication Required\r\n")
    ∷ bare 408 (codes "408 Request Time-out\r\n")
    ∷ bare 409 (codes "409 Conflict\r\n")
    ∷ bare 410 (codes "410 Gone\r\n")
    ∷ bare 411 (codes "411 Length Required\r\n")
    ∷ bare 412 (codes "412 Precondition Failed\r\n")
    ∷ bare 413 (codes "413 Request Entity Too Large\r\n")
    ∷ bare 414 (codes "414 Request-URI Too Large\r\n")
    ∷ bare 415 (codes "415 Unsupported Media Type\r\n")
    ∷ bare 416 (codes "416 Requested range not satisfiable\r\n")
    ∷ bare 417 (codes "417 Expectation Failed\r\n")
    ∷ paged 500 (codes "500 Internal Server Error\r\n") (codes "/500.html")
    ∷ bare 501 (codes "501 Not Implemented\r\n")
    ∷ bare 502 (codes "502 Bad Gateway\r\n")
    ∷ bare 503 (codes "503 Service Unavailable\r\n")
    ∷ bare 504 (codes "504 Gateway Time-out\r\n")
    ∷ bare 505 (codes "505 HTTP Version not supported\r\n")
    ∷ []

abbrev pub http_version : Bytes
http_version = codes "HTTP/1.1"

-- The loop of `find_status_code`: the row with the code.
pub find_status : List Status → ℕ → Option Status
find_status [] code = none
find_status (s ∷ rest) code = if s.code == code then some s else find_status rest code

-- The row that `find_status_code` finds, in the place of its index. It calls itself for the code 500,
-- and `none` is that it has not returned within the fuel.
unfoldable pub find_status_code : ℕ → ℕ → Option Status
unfolding find_status
find_status_code zero code = none
find_status_code (suc fuel) code =
    let rest = find_status_code fuel 500 in
    elim (find_status stati code) [ some s ↦ some s | none ↦ rest ]

-- One call for the code, and one for 500.
abbrev pub status_fuel : ℕ
status_fuel = 2

unfoldable pub status_line : ℕ → Option Bytes
unfolding find_status_code
status_line code = find_status_code status_fuel code >>= λ s.
    new_str (codes "%c %c") (chars http_version ∷ chars s.reason ∷ [])

unfoldable pub send_status : Write → Socket → ℕ → Option (ℕ × Socket)
unfolding status_line
send_status write sc code = status_line code >>= λ line. some (write_socket write sc (some line))

find_status-code :
    (ss : List Status) (code : ℕ) (s : Status) → find_status ss code ≡ some s → s.code ≡ code
unfolding find_status
find_status-code [] code s e = cc e
find_status-code (t ∷ ss) code s e = elim (Bool-cases (t.code == code)) [
  | inl same ↦
      let e' : some t ≡ some s = rw (← same_case same) e in cc ((==_iff t.code code).0 same)
  | inr other ↦ find_status-code ss code s (rw (← other_case other) e)
]
  where
    same_case : (t.code == code) ≡ true → find_status (t ∷ ss) code ≡ some t
    same_case h = rw h refl

    other_case : (t.code == code) ≡ false → find_status (t ∷ ss) code ≡ find_status ss code
    other_case h = rw h refl

abbrev is_some : Option Status → Bool
is_some (some s) = true
is_some none = false

-- Does a row have the code?
abbrev pub is_known : ℕ → Bool
is_known code = is_some (find_status stati code)

-- The search for any code returns, with the code's own row or that of 500.
find_status_code_lem :
    (code : ℕ)
    → (s : Status) × (find_status_code status_fuel code ≡ some s)
      × (s.code ≡ (if is_known code then code else 500))
unfolding find_status_code
find_status_code_lem code = by_search (find_status stati code) refl
  where
    server_error : Status
    server_error = paged 500 (codes "500 Internal Server Error\r\n") (codes "/500.html")

    pick : Option Status → Option Status
    pick (some s) = some s
    pick none = find_status_code 1 500

    by_search :
        (r : Option Status)
        → find_status stati code ≡ r
        → (s : Status) × (find_status_code status_fuel code ≡ some s)
          × (s.code ≡ (if is_known code then code else 500))
    by_search (some s) e = (
      s,
      ap pick e,
      find_status-code stati code s e ∙ ap (λ r. if is_some r then code else 500) (sym e),
    )
    by_search none e = (server_error, ap pick e, ap (λ r. if is_some r then code else 500) (sym e))

-- Every code has a status line: the version, a space and the reason of the code's own row, or of the
-- row of 500 for a code that the table has not.
pub status_line_lem :
    (code : ℕ)
    → (s : Status) × (s.code ≡ (if is_known code then code else 500))
      × (find_status_code status_fuel code ≡ some s)
      × (status_line code ≡ some (http_version ++ 32 ∷ s.reason))
unfolding status_line
status_line_lem code =
    let (s, found, same) = find_status_code_lem code in
    (
      s,
      same,
      found,
      rw found (
          new_str-pieces (c_string http_version ∷ plain 32 ∷ c_string s.reason ∷ [])
            (tt, ((λ e. cc e), (tt, tt)))
          ∙ ap (λ r. some (http_version ++ 32 ∷ r)) (append-nil s.reason)),
    )
