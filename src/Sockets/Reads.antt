-- ===== src/Sockets/Reads.antt =====
-- sockets.c, `read_socket`: what it gathers up to the reply that ends it.
use jawas.Base.{
  List, [], ◌∷◌, ◌++◌, none, some, ◌≡◌, ◌≢◌, refl, ap, sym, ◌∙◌, All, Bytes, Str, text,
  append_assoc, append-nil,
}
use jawas.Sockets.{Read, bytes, end_of_stream, again, failed, read_from, read_socket}

abbrev pub joined : List Bytes → Bytes
joined [] = []
joined (d ∷ ds) = d ++ joined ds

-- The replies that bring the pieces, before the replies `rest`.
abbrev pub pieces_before : List Bytes → List Read → List Read
pieces_before [] rest = rest
pieces_before (d ∷ ds) rest = bytes d ∷ pieces_before ds rest

-- What `read_socket` returns at a reply that ends it, with the buffer so far.
abbrev pub ended : Read → Bytes → Str
ended failed buf = none
ended _ buf = some buf

-- A reply that ends the loop.
abbrev pub IsLast : Read → Type 0
IsLast (bytes d) = d ≡ []
IsLast _ = Unit

read_from_last :
    (r : Read) (rest : List Read) (buf : Bytes) → IsLast r → read_from (r ∷ rest) buf ≡ ended r buf
unfolding read_from
read_from_last (bytes []) rest buf h = refl
read_from_last (bytes (c ∷ d)) rest buf h = cc h
read_from_last end_of_stream rest buf h = refl
read_from_last again rest buf h = refl
read_from_last failed rest buf h = refl

read_from_pieces :
    (ds : List Bytes) (r : Read) (rest : List Read) (buf : Bytes)
    → All (λ d. d ≢ []) ds
    → IsLast r
    → read_from (pieces_before ds (r ∷ rest)) buf ≡ ended r (buf ++ joined ds)
unfolding read_from
read_from_pieces [] r rest buf h last =
    read_from_last r rest buf last ∙ ap (ended r) (sym (append-nil buf))
read_from_pieces ([] ∷ ds) r rest buf (ne, h) last = absurd (ne refl)
read_from_pieces ((c ∷ d) ∷ ds) r rest buf (ne, h) last =
    read_from_pieces ds r rest (buf ++ c ∷ d) h last
    ∙ ap (ended r) (append_assoc buf (c ∷ d) (joined ds))

-- Pieces that are not empty are gathered behind the old buffer, up to the reply that ends the loop: an
-- empty piece, the end of the stream or EAGAIN give the buffer, another error gives NULL.
pub read_socket-pieces_before :
    (ds : List Bytes) (r : Read) (rest : List Read) (buf : Str)
    → All (λ d. d ≢ []) ds
    → IsLast r
    → read_socket (pieces_before ds (r ∷ rest)) buf ≡ ended r (text buf ++ joined ds)
unfolding read_socket
read_socket-pieces_before ds r rest buf h last = read_from_pieces ds r rest (text buf) h last
