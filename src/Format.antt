-- ===== src/Format.antt =====
-- str.c, `_` and `new_str`: the formatter that most strings are made with. The arguments are the
-- values that `va_arg` hands out, each with the type that it was passed at.
pub mod Pieces
mod Tests
use jawas.Base.{
  ℕ, ◌+◌, Bool, true, false, List, [], ◌∷◌, ◌++◌, Option, none, some, ◌==◌, if◌then◌else◌, Bytes,
  Str, ◌>>=◌, ◌||◌,
}
use jawas.Numbers.{int_str, hex_str}

pub data Arg : Type 0 where
  chars : Bytes → Arg  -- a C string, up to its terminator
  str : Str → Arg
  number : ℕ → Arg  -- a `reg`
  pointer : ℕ → Arg

-- What a directive reads: `none` is a missing argument, one of another type, or a NULL `str`, which
-- the source reads through.
take_chars : List Arg → Option (Bytes × List Arg)
take_chars (chars c ∷ args) = some (c, args)
take_chars _ = none

take_str : List Arg → Option (Bytes × List Arg)
take_str (str (some s) ∷ args) = some (s, args)
take_str _ = none

take_number : (ℕ → Bytes) → List Arg → Option (Bytes × List Arg)
take_number print (number x ∷ args) = some (print x, args)
take_number print _ = none

take_pointer : List Arg → Option (Bytes × List Arg)
take_pointer (pointer p ∷ args) = some (hex_str p, args)
take_pointer _ = none

-- The `switch`; its default leaves one byte of the fresh memory, which is 0, unwritten.
pub directive : ℕ → List Arg → Option (Bytes × List Arg)
unfolding take_chars take_str take_number take_pointer
directive c args =
    if c == b'c'
    then take_chars args
    else if c == b's'
    then take_str args
    else if c == b'd' || c == b'i'
    then take_number int_str args
    else if c == b'p' || c == b'x'
    then take_pointer args
    else if c == b'h'
    then take_number hex_str args
    else some (0 ∷ [], args)

-- The second loop of `new_str`; the flag is set behind a `%`. A format that ends in `%` is read past
-- its terminator, which is `none`.
pub format_from : Bytes → Bool → List Arg → Bytes → Option Bytes
format_from [] false args out = some out
format_from [] true args out = none
format_from (c ∷ fmt) false args out =
    format_from fmt (c == b'%') args (if c == b'%' then out else out ++ c ∷ [])
format_from (c ∷ fmt) true args out =
    directive c args >>= λ (piece, rest). format_from fmt false rest (out ++ piece)

unfoldable pub new_str : Bytes → List Arg → Option Bytes
unfolding format_from directive
new_str fmt args = format_from fmt false args []
