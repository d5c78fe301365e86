-- ===== src/Format/Tests.antt =====
-- Runs of `new_str`, and the instance of its theorem.
use jawas.Base.{[], ◌∷◌, none, some, ◌≡◌, refl, List, arith, codes}
use jawas.Numbers.{int_str}
use jawas.Format.{str, number, new_str}
use jawas.Format.Pieces.{Piece, plain, c_string, decimal, args_of, shown, new_str-pieces}

status_runs :
    new_str (codes "%i %s\r\n") (number 404 ∷ str (some (codes "Not Found")) ∷ [])
    ≡ some (codes "404 Not Found\r\n")
unfolding new_str int_str
status_runs = refl

null_runs : new_str (codes "%s") (str none ∷ []) ≡ none
unfolding new_str
null_runs = refl

abbrev pieces : List Piece
pieces = plain b'a' ∷ c_string (codes "bc") ∷ decimal 7 ∷ []

new_str-pieces_example : new_str (codes "a%c%i") (args_of pieces) ≡ some (shown pieces)
new_str-pieces_example = new_str-pieces pieces ((λ e. omega (arith, e)), (tt, (tt, tt)))
