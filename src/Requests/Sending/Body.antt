-- ===== src/Requests/Sending/Body.antt =====
-- requests.c: the body of a request to another server, at once or in pieces of a file.
use jawas.Base.{
  take-beyond, Bool, ℕ, zero, suc, ◌+◌, ◌-◌, ◌≤◌, ◌<◌, true, false, ◌++◌, Option, none, some, ◌≡◌,
  refl, sym, ap, ◌∙◌, arith, ltb, ltb→lt, length, length-take, length-drop, take, drop, drop-drop,
  drop-length-take, take-append-drop, Bytes, Str, Bool-cases, inl, inr, if◌then◌else◌, append_assoc,
  ◌>>=◌,
}
use jawas.Headers.{Headers}
use jawas.Files.{File}
use jawas.Sockets.{
  Socket, Write, AllAccepted, max_write_size, write_socket, write_to_socket, send_contents,
  send_raw_contents,
}
use jawas.Sockets.Whole.{to_socket}
use jawas.Transfer.{is_chunked}
use jawas.Requests.Sending.{Outgoing, send_piece, send_body, send_request, write_requests}
use jawas.Requests.Sending.Head.{outgoing}

-- Requests are sent up to the event that waits for the answer, with the bytes behind those of the socket.
pub record IsSent (sc : Socket) (bytes : Bytes) (o : Option Outgoing) : Type 0 where
  pub left : Outgoing
  pub left_socket : Socket
  pub run : o ≡ some left
  pub same : left.socket ≡ some left_socket
  pub still_open : left_socket.closed ≡ false
  pub bytes_sent : left_socket.sent ≡ sc.sent ++ bytes

not_ltb : (a b : ℕ) → ltb a b ≡ false → b ≤ a
not_ltb a b h = ground arith

module _ (write : Write) (all : AllAccepted write) (connect : Str → ℕ → Bool → Option Socket)
    (port : ℕ) where
  body_piece :
      (m h p : Str) (hd : Headers) (f : File) (w l : ℕ) (sc sc' : Socket) (n : ℕ)
      → is_chunked (some hd) ≡ false
      → send_raw_contents write sc (some f.contents) w false ≡ (n, sc')
      → send_request write connect (outgoing port m h p hd none (some f) (some l) w sc)
        ≡ some (ltb (w + n) l, outgoing port m h p hd none (some f) (some l) (w + n) sc')
  unfolding send_request send_body send_piece
  body_piece m h p hd f w l sc sc' n whole e = rw (whole, e) refl

  pub write_requests_last :
      (fuel : ℕ) (r r' : Outgoing)
      → send_request write connect r ≡ some (false, r')
      → write_requests write connect (suc fuel) r ≡ some r'
  unfolding write_requests
  write_requests_last fuel r r' e =
      ap (λ o. o >>= λ (b, q). if b then write_requests write connect fuel q else some q) e

  pub write_requests_more :
      (fuel : ℕ) (r r' : Outgoing)
      → send_request write connect r ≡ some (true, r')
      → write_requests write connect (suc fuel) r ≡ write_requests write connect fuel r'
  unfolding write_requests
  write_requests_more fuel r r' e =
      ap (λ o. o >>= λ (b, q). if b then write_requests write connect fuel q else some q) e

  pub file-IsSent :
      (fuel : ℕ) (m h p : Str) (hd : Headers) (f : File) (w : ℕ) (sc : Socket) (rest : Bytes)
      → is_chunked (some hd) ≡ false
      → sc.closed ≡ false
      → w ≤ length f.contents
      → drop w f.contents ≡ rest
      → length rest < fuel
      → IsSent sc rest (
          write_requests write connect fuel
            (outgoing port m h p hd none (some f) (some (length f.contents)) w sc))
  unfolding send_raw_contents
  file-IsSent zero m h p hd f w sc rest whole open_now le e lt = absurd (omega arith)
  file-IsSent (suc fuel) m h p hd f w sc rest whole open_now le e lt =
      let piece = take max_write_size rest in
      let d = to_socket write all sc piece open_now in
      let sc₁ = (write_to_socket write sc piece).1 in
      let step = body_piece m h p hd f w (length f.contents) sc sc₁ (length piece) whole (
        ap (λ t. write_to_socket write sc (take max_write_size t)) e
        ∙ ap (λ n. (n, sc₁)) d.count) in
      let size = length-take max_write_size rest in
      let left : length rest ≡ length f.contents - w =
        omega (arith, ap length e, length-drop w f.contents) in
      let others = length-drop max_write_size rest in
      elim (Bool-cases (ltb (w + length piece) (length f.contents))) [
        | inl more ↦
            let lt' = ltb→lt (w + length piece) (length f.contents) more in
            let behind : drop (w + length piece) f.contents ≡ drop max_write_size rest =
              sym (drop-drop (length piece) w f.contents)
              ∙ ap (drop (length piece)) e
              ∙ drop-length-take max_write_size rest in
            let ih =
              file-IsSent fuel m h p hd f (w + length piece) sc₁ (drop max_write_size rest) whole
                d.still_open (omega arith) behind (omega (arith, left, size, others)) in
            record {
              left = ih.left;
              left_socket = ih.left_socket;
              run =
                  write_requests_more fuel _ _ (
                    step
                    ∙ ap
                        (λ b. some (
                          b,
                          outgoing port m h p hd none (some f) (some (length f.contents))
                              (w + length piece) sc₁,
                        ))
                        more)
                  ∙ ih.run;
              same = ih.same;
              still_open = ih.still_open;
              bytes_sent =
                  ih.bytes_sent
                  ∙ ap (λ t. t ++ drop max_write_size rest) d.bytes_sent
                  ∙ append_assoc sc.sent piece (drop max_write_size rest)
                  ∙ ap (λ t. sc.sent ++ t) (take-append-drop max_write_size rest);
            }
        | inr last ↦
            let full = not_ltb (w + length piece) (length f.contents) last in
            let short : length rest ≤ max_write_size = omega (arith, left, size) in
            let all_of : piece ≡ rest = take-beyond max_write_size rest short in
            let end' : Outgoing =
              outgoing port m h p hd none (some f) (some (length f.contents)) (w + length piece)
                sc₁ in
            record {
              left = end';
              left_socket = sc₁;
              run = write_requests_last fuel _ _ (step ∙ ap (λ b. some (b, end')) last);
              same = refl;
              still_open = d.still_open;
              bytes_sent = d.bytes_sent ∙ ap (λ t. sc.sent ++ t) all_of;
            }
      ]

  pub contents_step :
      (m h p : Str) (hd : Headers) (c : Bytes) (f : Option File) (sc : Socket)
      → is_chunked (some hd) ≡ false
      → (write_to_socket write sc c).0 ≡ length c
      → send_request write connect (outgoing port m h p hd (some c) f (some (length c)) 0 sc)
        ≡ some (
          false,
          outgoing port m h p hd
              (some c)
              f
              (some (length c))
              (length c)
              (write_to_socket write sc c).1,
        )
  unfolding send_request send_body send_piece send_contents write_socket
  contents_step m h p hd c f sc whole count =
      let none_before : 0 + length c ≡ length c = omega arith in
      let all_written : ltb (length c) (length c) ≡ false = ground arith in
      rw (whole, count, none_before, all_written) refl
