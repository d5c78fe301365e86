-- ===== src/Requests/Building/Posted.antt =====
-- requests.c, lws.c: the request of `PostHTTPLua` is the one that its arguments say.
use jawas.Base.{
  ℕ, ◌+◌, ◌≤◌, Bool, false, List, [], ◌∷◌, ◌++◌, Option, none, some, ltb, if◌then◌else◌, length,
  length-map, length-append, Bytes, Str, text, codes, ◌>>=◌, ◌≡◌, refl, sym, ap, ◌∙◌, arith, map,
  append_assoc, append-nil, subst, Bool-cases, inl, inr,
}
use mathlib.Core.List.{map-append}
use jawas.Str.{append, len, icmp}
use jawas.Headers.{Headers, max_headers, over, new_headers}
use jawas.Headers.Table.{new_headers-IsValid, append_header_room, length-over}
use jawas.Headers.Print.{Field, slot_of}
use jawas.Headers.Refinement.{Represents}
use jawas.Sockets.{Socket, Write}
use jawas.Requests.{parse_host}
use jawas.Requests.Sending.{send_request}
use jawas.Requests.Building.{
  Made, new_request, request_headers, request_data, request_fields, request_callback, with_outgoing,
  post_http,
}

-- What a script writes into its table.
abbrev pub pair_of : Field → Str × Str
pair_of f = (some f.key, some f.value)

abbrev with_headers : Made → Headers → Made
with_headers req h = with_outgoing req (record req.outgoing { headers = h })

request_fields-Represents :
    (req : Made) (gs fs : List Field)
    → Represents req.outgoing.headers gs
    → length gs + length fs ≤ max_headers
    → (h : Headers) × (request_fields req (map pair_of fs) ≡ some (with_headers req h))
      × Represents h (gs ++ fs)
unfolding request_fields request_headers
request_fields-Represents req gs [] r le = (
  req.outgoing.headers,
  refl,
  record { valid = r.valid; fields = r.fields ∙ ap (map slot_of) (sym (append-nil gs)) },
)
request_fields-Represents req gs (f ∷ fs) r le =
    let size : req.outgoing.headers.nslots ≡ length gs = omega (
      arith,
      length-over req.outgoing.headers r.valid,
      ap length r.fields,
      length-map gs slot_of,
    ) in
    let (h, set, v, o) =
      append_header_room req.outgoing.headers (some f.key) (some f.value) r.valid
        (omega (arith, size)) in
    let more : Represents h (gs ++ f ∷ []) = record {
      valid = v;
      fields =
          o ∙ ap (λ t. t ++ map slot_of (f ∷ [])) r.fields ∙ sym (map-append slot_of gs (f ∷ []));
    } in
    let (h', rest, r') =
      request_fields-Represents (with_headers req h) (gs ++ f ∷ []) fs more
        (omega (arith, le, length-append gs (f ∷ []))) in
    (
      h',
      ap (λ o. (o >>= λ k. some (with_headers req k)) >>= λ q. request_fields q (map pair_of fs))
            set
          ∙ rest,
      subst (Represents h') (append_assoc gs (f ∷ []) fs) r',
    )

-- The text of a request, which is not sent if it is empty.
abbrev pub sent_contents : Str → Str
sent_contents body = if ltb 0 (len body) then some (text body) else none

-- A request before it has a socket.
abbrev pub made : Bytes → Bytes → Headers → Str → ℕ → Bool → Str → Made
made host path h c port ssl cb = record {
  outgoing = record {
    method = some (codes "POST");
    host = some host;
    port = port;
    path = some path;
    headers = h;
    contents = c;
    raw_contents = none;
    expected = none;
    written = 0;
    socket = none;
  };
  ssl = ssl;
  cb = cb;
}

request_data-made :
    (host path : Bytes) (h : Headers) (port : ℕ) (ssl : Bool) (cb body : Str)
    → request_data (made host path h none port ssl cb) body
      ≡ made host path h (sent_contents body) port ssl cb
unfolding request_data append
request_data-made host path h port ssl cb body = elim (Bool-cases (ltb 0 (len body))) [
  | inl some_bytes ↦ rw some_bytes refl
  | inr empty ↦ rw empty refl
]

module _ (write : Write) (connect : Str → ℕ → Bool → Option Socket) where
  -- What `PostHTTPLua` does with a new request.
  filled_in : Made → List (Str × Str) → Str → Str → Option Made
  filled_in req fields body cb = request_fields req fields >>= λ req₁.
      let req₂ = request_callback (request_data req₁ body) cb in
      send_request write connect req₂.outgoing >>= λ (again, o). some (with_outgoing req₂ o)

  -- The request behind the attempt to connect.
  abbrev pub reached : Option Socket → Made → Made
  reached sc req = with_outgoing req (record req.outgoing { socket = sc })

  filled_in-made :
      (host path : Bytes) (fs : List Field) (h : Headers) (port : ℕ) (ssl : Bool) (body cb : Str)
      (o : Option Socket)
      → request_fields (made host path new_headers none port ssl none) (map pair_of fs)
        ≡ some (made host path h none port ssl none)
      → connect (some host) port false ≡ o
      → filled_in (made host path new_headers none port ssl none) (map pair_of fs) body cb
        ≡ some (reached o (made host path h (sent_contents body) port ssl cb))
  unfolding filled_in send_request
  filled_in-made host path fs h port ssl body cb none set e =
      rw (set, request_data-made host path h port ssl none body, e) refl
  filled_in-made host path fs h port ssl body cb (some sc) set e =
      rw (set, request_data-made host path h port ssl none body, e) refl

  post_http-filled_in :
      (proto hostname : Str) (host path : Bytes) (port : ℕ) (fields : List (Str × Str))
      (body cb : Str)
      → parse_host hostname ≡ (some host, port)
      → post_http write connect proto hostname (some path) fields body cb
        ≡ filled_in
            (made host path new_headers none port (icmp (some (codes "https")) proto) none)
            fields
            body
            cb
  unfolding filled_in post_http new_request
  post_http-filled_in proto hostname host path port fields body cb e =
      elim (Bool-cases (icmp (some (codes "https")) proto)) [
        | inl tls ↦ rw (e, tls) refl
        | inr plain ↦ rw (e, plain) refl
      ]

  -- `PostHTTPLua` with fewer than 251 fields leaves a request of which nothing is sent: `POST`, the host and the port
  -- of its second argument, the path, the fields in their order and no others, the text unless it is empty, and the
  -- callback. Its socket is the one that a connection without TLS gives, if any, also where the protocol is
  -- `https`, of which only the mark `ssl` tells.
  pub post_http-made :
      (proto hostname : Str) (host path : Bytes) (port : ℕ) (fs : List Field) (body cb : Str)
      → parse_host hostname ≡ (some host, port)
      → length fs ≤ max_headers
      → (h : Headers) × (post_http write connect proto hostname (some path) (map pair_of fs) body cb
          ≡ some (
              reached (connect (some host) port false) (
                made host path h (sent_contents body) port (icmp (some (codes "https")) proto) cb)))
        × (over h ≡ map slot_of fs)
  unfolding new_headers
  post_http-made proto hostname host path port fs body cb named few =
      let ssl = icmp (some (codes "https")) proto in
      let (h, set, r) =
        request_fields-Represents (made host path new_headers none port ssl none) [] fs
          (record { valid = new_headers-IsValid; fields = refl }) (omega (arith, few)) in
      (
        h,
        post_http-filled_in proto hostname host path port (map pair_of fs) body cb named
            ∙ filled_in-made host path fs h port ssl body cb (connect (some host) port false) set
                refl,
        r.fields,
      )
