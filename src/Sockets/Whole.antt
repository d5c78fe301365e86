-- ===== src/Sockets/Whole.antt =====
-- sockets.c: what reaches the peer when every call of `write` accepts all that it was given, and that a
-- closed socket is left alone.
use jawas.Base.{
  ℕ, zero, suc, ◌+◌, ◌≤◌, Bool, true, false, List, [], ◌∷◌, ◌++◌, Option, none, some, ◌≡◌, refl,
  sym, ap, ◌∙◌, arith, length, length-drop, length-append, length-take, take, take-length, drop,
  map, Bytes, Str, append_assoc, append-nil, codes,
}
use jawas.Str.{crlf}
use jawas.Numbers.{hex_str}
use jawas.Headers.{Headers, over}
use jawas.Headers.Print.{Field, slot_of, header_lines}
use jawas.Sockets.{
  Socket, max_write_size, Write, AllAccepted, write_to_socket, write_socket, write_chunk,
  write_chunked_socket, chunked_from, send_slots, send_contents, send_raw_contents, send_headers,
}
use jawas.Sockets.Chunks.{chunk_of, last_chunk, chunks_of, decode_chunks, decode_chunks-chunks_of}

-- A call on an open socket returned `n`, left it open and sent the bytes.
pub record Delivered (sc : Socket) (bytes : Bytes) (n : ℕ) (r : ℕ × Socket) : Type 0 where
  pub count : r.0 ≡ n
  pub still_open : r.1.closed ≡ false
  pub bytes_sent : r.1.sent ≡ sc.sent ++ bytes

module _ (write : Write) (all : AllAccepted write) where
  pub to_socket :
      (sc : Socket) (d : Bytes)
      → sc.closed ≡ false
      → Delivered sc d (length d) (write_to_socket write sc d)
  unfolding write_to_socket
  to_socket sc d h =
      rw (h, all sc.calls d)
        (record { count = refl; still_open = h; bytes_sent = rw take-length refl })

  pub chunk_none :
      (sc : Socket) → sc.closed ≡ false → Delivered sc last_chunk 0 (write_chunk write sc none)
  unfolding write_chunk
  chunk_none sc h =
      let d₁ = to_socket sc (hex_str 0 ++ crlf) h in
      let d₂ = to_socket _ crlf d₁.still_open in
      record {
        count = refl;
        still_open = d₂.still_open;
        bytes_sent = d₂.bytes_sent ∙ ap (λ s. s ++ crlf) d₁.bytes_sent ∙ simp append_assoc;
      }

  pub chunk_some :
      (sc : Socket) (d : Bytes)
      → sc.closed ≡ false
      → Delivered sc (chunk_of d) (length d) (write_chunk write sc (some d))
  unfolding write_chunk
  chunk_some sc d h =
      let d₁ = to_socket sc (hex_str (length d) ++ crlf) h in
      let d₂ = to_socket _ d d₁.still_open in
      let d₃ = to_socket _ crlf d₂.still_open in
      record {
        count = d₂.count;
        still_open = d₃.still_open;
        bytes_sent =
            d₃.bytes_sent
            ∙ ap (λ s. s ++ crlf) (d₂.bytes_sent ∙ ap (λ s. s ++ d) d₁.bytes_sent)
            ∙ simp append_assoc;
      }

  pub chunked_whole :
      (fuel : ℕ) (sc : Socket) (rest : Bytes)
      → sc.closed ≡ false
      → length rest ≤ fuel
      → Delivered sc (chunks_of fuel rest) (length rest) (chunked_from write fuel sc rest)
  unfolding chunked_from chunks_of
  chunked_whole zero sc [] h le = record {
    count = refl;
    still_open = h;
    bytes_sent = sym (append-nil sc.sent);
  }
  chunked_whole zero sc (c ∷ rest) h le = absurd (omega arith)
  chunked_whole (suc fuel) sc [] h le = record {
    count = refl;
    still_open = h;
    bytes_sent = sym (append-nil sc.sent);
  }
  chunked_whole (suc fuel) sc (c ∷ rest) h le =
      let d₁ = chunk_some sc (take max_write_size (c ∷ rest)) h in
      let d₂ =
        chunked_whole fuel _ (drop max_write_size (c ∷ rest)) d₁.still_open
          (omega (arith, length-drop max_write_size (c ∷ rest))) in
      record {
        count = omega (
          arith,
          d₁.count,
          d₂.count,
          length-take max_write_size (c ∷ rest),
          length-drop max_write_size (c ∷ rest),
        );
        still_open = d₂.still_open;
        bytes_sent =
            d₂.bytes_sent
            ∙ ap (λ s. s ++ chunks_of fuel (drop max_write_size (c ∷ rest))) d₁.bytes_sent
            ∙ append_assoc sc.sent _ _;
      }

  -- On an open socket that accepts every write whole, `write_chunked_socket` returns the length of the
  -- text, and with the last chunk behind it what was sent is decoded to the text.
  pub write_chunked_socket-decode_chunks :
      (sc : Socket) (buf : Bytes)
      → sc.closed ≡ false
      → (coded : Bytes) × ((write_chunked_socket write sc buf).0 ≡ length buf)
        × ((write_chunk write (write_chunked_socket write sc buf).1 none).1.sent ≡ sc.sent ++ coded)
        × (decode_chunks (suc (length buf)) coded ≡ some buf)
  unfolding write_chunked_socket
  write_chunked_socket-decode_chunks sc buf h =
      let d₁ = chunked_whole (length buf) sc buf h (omega arith) in
      let d₂ = chunk_none _ d₁.still_open in
      (
        chunks_of (length buf) buf ++ last_chunk,
        d₁.count,
        d₂.bytes_sent ∙ ap (λ s. s ++ last_chunk) d₁.bytes_sent ∙ append_assoc sc.sent _ _,
        decode_chunks-chunks_of (length buf) buf (omega arith),
      )

  slots_whole :
      (fs : List Field) (sc : Socket)
      → sc.closed ≡ false
      → Delivered sc
          (header_lines fs)
          (length (header_lines fs))
          (send_slots write sc (map slot_of fs))
  unfolding send_slots write_socket
  slots_whole [] sc h = record {
    count = refl;
    still_open = h;
    bytes_sent = sym (append-nil sc.sent);
  }
  slots_whole (f ∷ fs) sc h =
      let d₁ = to_socket sc f.key h in
      let sc₁ = (write_to_socket write sc f.key).1 in
      let d₂ = to_socket sc₁ (codes ": ") d₁.still_open in
      let sc₂ = (write_to_socket write sc₁ (codes ": ")).1 in
      let d₃ = to_socket sc₂ f.value d₂.still_open in
      let sc₃ = (write_to_socket write sc₂ f.value).1 in
      let d₄ = to_socket sc₃ crlf d₃.still_open in
      let d₅ = slots_whole fs (write_to_socket write sc₃ crlf).1 d₄.still_open in
      record {
        count = omega (
          arith,
          d₁.count,
          d₂.count,
          d₃.count,
          d₄.count,
          d₅.count,
          length-append f.key (b':' ∷ 32 ∷ (f.value ++ 13 ∷ 10 ∷ header_lines fs)),
          length-append f.value (13 ∷ 10 ∷ header_lines fs),
        );
        still_open = d₅.still_open;
        bytes_sent =
            d₅.bytes_sent
            ∙ ap (λ s. s ++ header_lines fs)
                (d₄.bytes_sent
                  ∙ ap (λ s. s ++ crlf)
                      (d₃.bytes_sent
                        ∙ ap (λ s. s ++ f.value)
                            (d₂.bytes_sent ∙ ap (λ s. s ++ codes ": ") d₁.bytes_sent)))
            ∙ simp append_assoc;
      }

  -- On an open socket that accepts every write whole, `send_headers` sends the fields' lines and the
  -- empty line, and returns their length.
  pub send_headers-header_lines :
      (sc : Socket) (h : Headers) (fs : List Field)
      → sc.closed ≡ false
      → over h ≡ map slot_of fs
      → Delivered sc
          (header_lines fs ++ crlf)
          (length (header_lines fs) + 2)
          (send_headers write sc (some h))
  unfolding send_headers
  send_headers-header_lines sc h fs o e = rw e (
      let d₁ = slots_whole fs sc o in
      let d₂ = to_socket _ crlf d₁.still_open in
      record {
        count = omega (arith, d₁.count, d₂.count);
        still_open = d₂.still_open;
        bytes_sent = d₂.bytes_sent ∙ ap (λ s. s ++ crlf) d₁.bytes_sent ∙ append_assoc sc.sent _ _;
      })

module _ (write : Write) where
  to_socket_closed :
      (sc : Socket) (d : Bytes) → sc.closed ≡ true → write_to_socket write sc d ≡ (0, sc)
  unfolding write_to_socket
  to_socket_closed sc d h = rw h refl

  chunk_closed :
      (sc : Socket) (d : Bytes) → sc.closed ≡ true → write_chunk write sc (some d) ≡ (0, sc)
  unfolding write_chunk
  chunk_closed sc d h =
      rw
        (
          to_socket_closed sc (hex_str (length d) ++ crlf) h,
          to_socket_closed sc d h,
          to_socket_closed sc crlf h,
        )
        refl

  chunked_closed :
      (fuel : ℕ) (sc : Socket) (rest : Bytes)
      → sc.closed ≡ true
      → chunked_from write fuel sc rest ≡ (0, sc)
  unfolding chunked_from
  chunked_closed zero sc rest h = refl
  chunked_closed (suc fuel) sc [] h = refl
  chunked_closed (suc fuel) sc (c ∷ rest) h =
      rw
        (
          chunk_closed sc (take max_write_size (c ∷ rest)) h,
          chunked_closed fuel sc (drop max_write_size (c ∷ rest)) h,
        )
        refl

  -- Nothing is sent on a closed socket: `send_contents` and `send_raw_contents`, chunked or not, return
  -- 0 and leave it as it is.
  pub send_closed :
      (sc : Socket) (contents : Str) (file : Option Bytes) (off : ℕ) (chunked : Bool)
      → sc.closed ≡ true
      → (send_contents write sc contents chunked ≡ (0, sc))
        × (send_raw_contents write sc file off chunked ≡ (0, sc))
  unfolding send_contents send_raw_contents write_chunked_socket write_socket
  send_closed sc none none off chunked h = (refl, refl)
  send_closed sc none (some f) off true h = (refl, chunk_closed sc _ h)
  send_closed sc none (some f) off false h = (refl, to_socket_closed sc _ h)
  send_closed sc (some b) none off true h = (chunked_closed (length b) sc b h, refl)
  send_closed sc (some b) none off false h = (to_socket_closed sc b h, refl)
  send_closed sc (some b) (some f) off true h =
      (chunked_closed (length b) sc b h, chunk_closed sc _ h)
  send_closed sc (some b) (some f) off false h = (to_socket_closed sc b h, to_socket_closed sc _ h)
