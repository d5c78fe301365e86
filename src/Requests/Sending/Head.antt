-- ===== src/Requests/Sending/Head.antt =====
-- requests.c: the first step of a request to another server, its line and its fields.
use jawas.Base.{
  Bool, ℕ, ◌<◌, false, List, [], ◌∷◌, ◌++◌, Option, none, some, ◌≡◌, refl, sym, ap, ◌∙◌, arith, map,
  Bytes, Str, codes, append_assoc,
}
use mathlib.Core.List.{map-append}
use jawas.Str.{crlf}
use jawas.Format.{str, new_str}
use jawas.Format.Pieces.{Piece, new_str-pieces, string, plain}
use jawas.Str.{cmp}
use jawas.Headers.{Headers, max_headers, over, append_header}
use jawas.Headers.Table.{IsValid, append_header_room, find_header-append_other}
use jawas.Headers.Print.{Field, slot_of, header_lines}
use jawas.Files.{File}
use jawas.Sockets.{Socket, Write, AllAccepted, write_socket, write_to_socket, send_headers}
use jawas.Sockets.Whole.{to_socket, send_headers-header_lines}
use jawas.Transfer.{is_chunked, is_chunked-find_header, outbound_content_length}
use jawas.Requests.Sending.{Outgoing, has_contents, send_head, send_request}

abbrev pub outgoing :
    ℕ → Str → Str → Str → Headers → Str → Option File → Option ℕ → ℕ → Socket → Outgoing
outgoing port m h p hd c f e w sc = record {
  method = m;
  host = h;
  port = port;
  path = p;
  headers = hd;
  contents = c;
  raw_contents = f;
  expected = e;
  written = w;
  socket = some sc;
}

-- The field for the host leaves the coding of the body as it was.
is_chunked-host :
    (h h' : Headers) (host : Str)
    → IsValid h
    → append_header (some h) (some (codes "Host")) host ≡ some h'
    → is_chunked (some h') ≡ is_chunked (some h)
unfolding cmp
is_chunked-host h h' host v e =
    is_chunked-find_header (some h') (some h)
      (find_header-append_other h h' (codes "Host") host (codes "Transfer-Encoding") v e refl)

line_pieces : Bytes → Bytes → List Piece
line_pieces m p =
    string m
    ∷ plain 32
    ∷ string p
    ∷ plain 32
    ∷ plain b'H'
    ∷ plain b'T'
    ∷ plain b'T'
    ∷ plain b'P'
    ∷ plain b'/'
    ∷ plain b'1'
    ∷ plain b'.'
    ∷ plain b'1'
    ∷ plain 13
    ∷ plain 10
    ∷ []

request_line :
    (m p : Bytes)
    → new_str (codes "%s %s HTTP/1.1\r\n") (str (some m) ∷ str (some p) ∷ [])
      ≡ some (m ++ 32 ∷ (p ++ codes " HTTP/1.1\r\n"))
unfolding line_pieces
request_line m p = new_str-pieces (line_pieces m p) (omega arith)

-- The head of a request, from the first line to the empty one.
abbrev pub head_of : Bytes → Bytes → Bytes → List Field → Bytes
head_of m host p fs =
    (m ++ 32 ∷ (p ++ codes " HTTP/1.1\r\n"))
    ++ (header_lines (fs ++ record { key = codes "Host"; value = host } ∷ []) ++ crlf)

abbrev pub body_of : Str → Option File → Bytes
body_of (some c) f = c
body_of none (some f) = f.contents
body_of none none = []

module _ (write : Write) (all : AllAccepted write) (connect : Str → ℕ → Bool → Option Socket)
    (port : ℕ) where
  -- What the first step leaves.
  pub record IsHead (m host p : Bytes) (hd : Headers) (c : Str) (f : Option File) (sc : Socket)
      (fs : List Field) : Type 0 where
    pub table : Headers
    pub behind : Socket
    pub step :
        send_request write connect (outgoing port (some m) (some host) (some p) hd c f none 0 sc)
        ≡ some (
          has_contents (outgoing port (some m) (some host) (some p) hd c f none 0 sc),
          outgoing port
              (some m)
              (some host)
              (some p)
              table
              c
              f
              (some (outbound_content_length c f))
              0
              behind,
        )
    pub whole : is_chunked (some table) ≡ false
    pub still_open : behind.closed ≡ false
    pub bytes_sent : behind.sent ≡ sc.sent ++ head_of m host p fs

  pub send_request-IsHead :
      (m host p : Bytes) (hd : Headers) (c : Str) (f : Option File) (sc : Socket) (fs : List Field)
      → sc.closed ≡ false
      → IsValid hd
      → hd.nslots < max_headers
      → over hd ≡ map slot_of fs
      → is_chunked (some hd) ≡ false
      → IsHead m host p hd c f sc fs
  unfolding send_request send_head write_socket
  send_request-IsHead m host p hd c f sc fs open_now v room o whole =
      let (h', set, v', o') = append_header_room hd (some (codes "Host")) (some host) v room in
      let line = m ++ 32 ∷ (p ++ codes " HTTP/1.1\r\n") in
      let all_fields = fs ++ record { key = codes "Host"; value = host } ∷ [] in
      let d₁ = to_socket write all sc line open_now in
      let sc₁ = (write_to_socket write sc line).1 in
      let d₂ = send_headers-header_lines write all sc₁ h' all_fields d₁.still_open (
        o'
        ∙ ap (λ t. t ++ record { key = some (codes "Host"); value = some host } ∷ []) o
        ∙ sym (map-append slot_of fs (record { key = codes "Host"; value = host } ∷ []))) in
      record {
        table = h';
        behind = (send_headers write sc₁ (some h')).1;
        step = rw (request_line m p, set) refl;
        whole = is_chunked-host hd h' (some host) v set ∙ whole;
        still_open = d₂.still_open;
        bytes_sent =
            d₂.bytes_sent
            ∙ ap (λ t. t ++ (header_lines all_fields ++ crlf)) d₁.bytes_sent
            ∙ append_assoc sc.sent line (header_lines all_fields ++ crlf);
      }
