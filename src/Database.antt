-- ===== src/Database.antt =====
-- database.c: a connection and the result that it holds. The PostgreSQL library is a parameter: what the
-- server answers to a statement, in the state that it is in.
use jawas.Base.{
  ℕ, List, [], ◌∷◌, Option, none, some, ◌==◌, if◌then◌else◌, length, get_or, Bytes, Str,
}

-- A result of rows: the names of its fields, and the values.
pub record Rows : Type 0 where
  pub names : List Bytes
  pub rows : List (List Bytes)

-- What `PQresultStatus` says: no rows, rows, or a failure of any kind.
pub data Answer : Type 0 where
  done : Answer
  tuples : Rows → Answer
  failed : Answer

-- The field `res` of a connection; `none` is NULL.
abbrev pub Result : Type 0
Result = Option Rows

-- The bytes of a C string: those before its terminator. `query` copies the statement into zeros.
pub c_string : Bytes → Bytes
c_string [] = []
c_string (c ∷ rest) = if c == 0 then [] else c ∷ c_string rest

-- `query`: the number of rows, or `none` for -1; and the result that is held. The result before it is
-- cleared.
abbrev pub held : Answer → Option ℕ × Result
held done = (some 0, none)
held (tuples r) = (some (length r.rows), some r)
held failed = (none, none)

unfoldable pub query {ℓ} :
    {S : Type ℓ} → (Bytes → S → Answer × S) → Bytes → S → (Option ℕ × Result) × S
unfolding c_string
query exec q s = let (a, s') = exec (c_string q) s in (held a, s')

unfoldable pub fields : Result → ℕ
fields none = 0
fields (some r) = length r.names

unfoldable pub field : Result → ℕ → Str
field none i = none
field (some r) i = some (get_or r.names i [])

-- `PQresultErrorMessage` of a result that is held, which has rows, is empty.
unfoldable pub db_error : Result → Str
db_error none = none
db_error (some r) = some []

unfoldable pub fetch : Result → ℕ → ℕ → Str
fetch none row col = none
fetch (some r) row col = some (get_or (get_or r.rows row []) col [])

-- `singlequote`, with `PQescapeStringConn` as a parameter.
unfoldable pub singlequote : (Bytes → Bytes) → Str → Str
singlequote escape none = none
singlequote escape (some []) = some []
singlequote escape (some (c ∷ s)) = some (escape (c ∷ s))
