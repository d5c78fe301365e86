-- ===== src/Base/Chars.antt =====
-- Bytes as numbers below 256, C strings as lists of bytes, and the tests of `ctype.h` in the C
-- locale. A `str` that may be NULL is an option.
use Prim.Native.Nat.{ℕ, ◌+◌, ◌<◌, ◌%◌}
use Prim.Native.Char.{code}
use Prim.Native.String.{String}
use mathlib.Core.Bool.{Bool, ◌&&◌, ◌||◌}
use mathlib.Core.List.{List, [], ◌∷◌}
use mathlib.Core.Option.{Option, none, some}
use jawas.Base.Tests.{leb, ◌==◌}

abbrev pub Bytes : Type 0
Bytes = List ℕ

-- The bytes of a text literal in ASCII.
abbrev pub codes : String → Bytes
codes String.[] = []
codes (String.◌∷◌ c s) = code c ∷ codes s

-- A pointer to a `struct str_struct`; `none` is NULL.
abbrev pub Str : Type 0
Str = Option Bytes

-- The bytes that a nullable `str` stands for.
abbrev pub text : Str → Bytes
text none = []
text (some s) = s

-- `isspace` of the C library.
abbrev pub is_space : ℕ → Bool
is_space c = c == 32 || (leb 9 c && leb c 13)

abbrev pub IsByte : ℕ → Type 0
IsByte c = c < 256

-- A `char` is signed: its order is that of the byte moved by 128.
abbrev pub signed_rank : ℕ → ℕ
signed_rank c = (c + 128) % 256
