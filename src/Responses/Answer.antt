-- ===== src/Responses/Answer.antt =====
-- responses.c and client.c, `send_response`: an error page as it reaches the client, from `begin_response`
-- to `end_response`.
use jawas.Base.{
  ◌+◌, ◌≤◌, ◌<◌, List, [], ◌∷◌, ◌++◌, some, ◌≡◌, ap, ◌∙◌, arith, length, length-append, map, Bytes,
  codes, ◌>>=◌, append_assoc,
}
use jawas.Headers.{
  Headers, max_headers, over, connection, transfer_encoding, server_name, header_func,
}
use jawas.Headers.Table.{IsValid, append_header_room, header_func-append_header, length-over}
use jawas.Headers.Print.{Field, slot_of}
use jawas.Responses.{Response, begun, headers_or_new, begin_headers, begin_response, server_version}

-- The fields that every answer has.
abbrev pub answer_fields : List Field
answer_fields =
    record { key = codes "Connection"; value = codes "close" }
    ∷ record { key = codes "Transfer-Encoding"; value = codes "chunked" }
    ∷ record { key = codes "Server"; value = server_version }
    ∷ []

pub func_room :
    (h : Headers) (name value : Bytes)
    → IsValid h
    → h.nslots < max_headers
    → (h' : Headers) × (header_func name h value ≡ some h')
      × IsValid h'
      × (over h' ≡ over h ++ record { key = some name; value = some value } ∷ [])
      × (h'.nslots ≡ h.nslots + 1)
func_room h name value v lt =
    let (h', set, v', o) = append_header_room h (some name) (some value) v lt in
    (
      h',
      header_func-append_header h name value (omega arith) ∙ set,
      v',
      o,
      omega (
        arith,
        length-over h v,
        length-over h' v',
        ap length o,
        length-append (over h) (record { key = some name; value = some value } ∷ []),
      ),
    )

-- On a valid table with three slots left `begin_response` adds the fields that every answer has.
pub begin_headers-answer_fields :
    (h : Headers)
    → IsValid h
    → h.nslots + 3 ≤ max_headers
    → (h' : Headers) × (begin_headers h ≡ some h')
      × IsValid h'
      × (over h' ≡ over h ++ map slot_of answer_fields)
unfolding begin_headers connection transfer_encoding server_name
begin_headers-answer_fields h v room =
    let (h₁, set₁, v₁, o₁, n₁) = func_room h (codes "Connection") (codes "close") v (omega arith) in
    let (h₂, set₂, v₂, o₂, n₂) =
      func_room h₁ (codes "Transfer-Encoding") (codes "chunked") v₁ (omega arith) in
    let (h₃, set₃, v₃, o₃, n₃) = func_room h₂ (codes "Server") server_version v₂ (omega arith) in
    (h₃, rw (set₁, set₂) set₃, v₃, o₃ ∙ rw (o₂, o₁) (simp append_assoc))

pub begin_response-headers :
    (r : Response) (h h' : Headers)
    → r.headers ≡ some h
    → begin_headers h ≡ some h'
    → begin_response r ≡ some (begun r, record r { headers = some h' })
unfolding begin_response
begin_response-headers r h h' e set =
    ap
      (λ t. begin_headers (headers_or_new t) >>= λ k. some (begun r, record r { headers = some k }))
      e
    ∙ ap (λ o. o >>= λ k. some (begun r, record r { headers = some k })) set
