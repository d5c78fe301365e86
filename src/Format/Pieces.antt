-- ===== src/Format/Pieces.antt =====
-- str.c, `new_str`: a format made of plain bytes and directives yields the bytes and the arguments'
-- texts, in order.
use jawas.Base.{
  ℕ, false, List, [], ◌∷◌, ◌++◌, some, ◌≡◌, ◌≢◌, arith, Bytes, All, append-nil, append_assoc,
}
use jawas.Numbers.{int_str, hex_str}
use jawas.Format.{Arg, chars, str, number, pointer, directive, format_from, new_str}

-- One piece of a format.
pub data Piece : Type 0 where
  plain : ℕ → Piece
  c_string : Bytes → Piece
  string : Bytes → Piece
  decimal : ℕ → Piece
  address : ℕ → Piece
  hexadecimal : ℕ → Piece

abbrev pub format_of : List Piece → Bytes
format_of [] = []
format_of (plain c ∷ ps) = c ∷ format_of ps
format_of (c_string s ∷ ps) = b'%' ∷ b'c' ∷ format_of ps
format_of (string s ∷ ps) = b'%' ∷ b's' ∷ format_of ps
format_of (decimal n ∷ ps) = b'%' ∷ b'i' ∷ format_of ps
format_of (address n ∷ ps) = b'%' ∷ b'p' ∷ format_of ps
format_of (hexadecimal n ∷ ps) = b'%' ∷ b'h' ∷ format_of ps

abbrev pub args_of : List Piece → List Arg
args_of [] = []
args_of (plain c ∷ ps) = args_of ps
args_of (c_string s ∷ ps) = chars s ∷ args_of ps
args_of (string s ∷ ps) = str (some s) ∷ args_of ps
args_of (decimal n ∷ ps) = number n ∷ args_of ps
args_of (address n ∷ ps) = pointer n ∷ args_of ps
args_of (hexadecimal n ∷ ps) = number n ∷ args_of ps

abbrev pub shown : List Piece → Bytes
shown [] = []
shown (plain c ∷ ps) = c ∷ shown ps
shown (c_string s ∷ ps) = s ++ shown ps
shown (string s ∷ ps) = s ++ shown ps
shown (decimal n ∷ ps) = int_str n ++ shown ps
shown (address n ∷ ps) = hex_str n ++ shown ps
shown (hexadecimal n ∷ ps) = hex_str n ++ shown ps

-- A plain byte is any byte but the percent sign.
abbrev pub IsProper : Piece → Type 0
IsProper (plain c) = c ≢ b'%'
IsProper _ = Unit

format_from-pieces :
    (ps : List Piece) (out : Bytes)
    → All IsProper ps
    → format_from (format_of ps) false (args_of ps) out ≡ some (out ++ shown ps)
unfolding format_from directive
format_from-pieces [] out h = rw append-nil
format_from-pieces (plain c ∷ ps) out (hc, h) =
    ground (arith, format_from-pieces ps (out ++ c ∷ []) h, append_assoc out (c ∷ []) (shown ps))
format_from-pieces (c_string s ∷ ps) out (_, h) =
    rw (← append_assoc) (format_from-pieces ps (out ++ s) h)
format_from-pieces (string s ∷ ps) out (_, h) =
    rw (← append_assoc) (format_from-pieces ps (out ++ s) h)
format_from-pieces (decimal n ∷ ps) out (_, h) =
    rw (← append_assoc) (format_from-pieces ps (out ++ int_str n) h)
format_from-pieces (address n ∷ ps) out (_, h) =
    rw (← append_assoc) (format_from-pieces ps (out ++ hex_str n) h)
format_from-pieces (hexadecimal n ∷ ps) out (_, h) =
    rw (← append_assoc) (format_from-pieces ps (out ++ hex_str n) h)

-- Formatting with matching arguments writes each plain byte as it is and each argument's text in its
-- place.
pub new_str-pieces :
    (ps : List Piece) → All IsProper ps → new_str (format_of ps) (args_of ps) ≡ some (shown ps)
unfolding new_str
new_str-pieces ps h = format_from-pieces ps [] h
