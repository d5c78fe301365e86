-- ===== src/Status/Errors.antt =====
-- status.c, `error_handler`.
use jawas.Base.{
  Bool-cases, inl, inr, take, drop, sym, length-take, length-drop, drop-drop, drop-length-take,
  append-nil, append_assoc, map, List, ℕ, zero, suc, ◌+◌, ◌≤◌, ◌<◌, true, false, [], ◌∷◌, ◌++◌,
  Option, none, some, ◌≡◌, refl, ap, ◌∙◌, arith, leb, ◌||◌, if◌then◌else◌, length, Bytes, codes,
  ◌>>=◌,
}
use jawas.Str.{crlf}
use jawas.Headers.{Headers, over}
use jawas.Headers.Print.{Field, slot_of, header_lines}
use jawas.Files.{File, Cache, load, file_path, file_path_lem}
use jawas.Sockets.Chunks.{chunks_of, last_chunk, decode_chunks, decode_chunks-chunks_of}
use jawas.Sockets.Whole.{Delivered, to_socket, chunk_some, send_headers-header_lines}
use jawas.Sockets.{
  max_write_size, AllAccepted, write_chunk, write_to_socket, write_socket, Socket, Write,
  send_headers, send_raw_contents,
}
use jawas.Status.{Status, find_status_code, status_fuel, status_line, send_status}

-- What a handler leaves: the status it returned, the socket, and `response->raw_contents`.
pub record Outcome : Type 0 where
  pub status : ℕ
  pub socket : Socket
  pub raw_contents : Option File

module _ (write : Write) where
  -- The loop that sends a file; `none` is that it has not ended within the fuel.
  unfoldable pub send_file : ℕ → Socket → File → ℕ → Option Socket
  send_file zero sc fc total = none
  send_file (suc fuel) sc fc total =
      let (n, sc') = send_raw_contents write sc (some fc.contents) total true in
      let rest = send_file fuel sc' fc (total + n) in
      if sc.closed || leb (length fc.contents) total then some sc else rest

module _ (write : Write) (cwd : Bytes) (cache : Cache) where
  -- The part behind `load`.
  abbrev send_error : ℕ → ℕ → Socket → Option Headers → Option File → Option Outcome
  send_error fuel code sc headers fc = send_status write sc code >>= λ (_, sc₁).
      let (_, sc₂) = send_headers write sc₁ headers in
      elim fc [
        | none ↦ some (record { status = code; socket = sc₂; raw_contents = none })
        | some f ↦ send_file write fuel sc₂ f 0 >>= λ sc₃.
            some (record { status = code; socket = sc₃; raw_contents = some f })
      ]

  -- `copy(filename, 0)` copies no byte of the page's name, so the path is that of the directory
  -- `errors`. `none` is a loop that has not ended within the fuel.
  unfoldable pub error_handler : ℕ → ℕ → Socket → Option Headers → Option Outcome
  unfolding send_file
  error_handler fuel code sc headers = find_status_code status_fuel code >>= λ s. elim s.filename [
    | none ↦ some (record { status = code; socket = sc; raw_contents = none })
    | some page ↦ file_path cwd (some (codes "errors")) (some []) >>= λ path.
        send_error fuel code sc headers (load cache (some path))
  ]

module _ (write : Write) (all : AllAccepted write) where
  send_file_end :
      (fuel : ℕ) (sc : Socket) (fc : File) (total : ℕ)
      → length fc.contents ≤ total
      → send_file write (suc fuel) sc fc total ≡ some sc
  unfolding send_file
  send_file_end fuel sc fc total le = elim (Bool-cases sc.closed) [
    | inl h ↦ rw h refl
    | inr h ↦ let e : leb (length fc.contents) total ≡ true = ground arith in rw (h, e) refl
  ]

  -- A round that sends the piece at `total`.
  send_file_more :
      (fuel : ℕ) (sc sc' : Socket) (fc : File) (total n : ℕ)
      → sc.closed ≡ false
      → total < length fc.contents
      → write_chunk write sc (some (take max_write_size (drop total fc.contents))) ≡ (n, sc')
      → send_file write (suc fuel) sc fc total ≡ send_file write fuel sc' fc (total + n)
  unfolding send_file send_raw_contents
  send_file_more fuel sc sc' fc total n h lt e =
      let e' : leb (length fc.contents) total ≡ false = ground arith in rw (e, e') (simp h refl)

  -- The loop sends the file's chunks from `total` on.
  pub send_file-chunks_of :
      (fuel : ℕ) (sc : Socket) (fc : File) (total : ℕ) (rest : Bytes)
      → sc.closed ≡ false
      → total ≤ length fc.contents
      → drop total fc.contents ≡ rest
      → length rest ≤ fuel
      → (sc' : Socket) × (send_file write (suc fuel) sc fc total ≡ some sc')
        × (sc'.sent ≡ sc.sent ++ chunks_of fuel rest)
        × (sc'.closed ≡ false)
  unfolding chunks_of
  send_file-chunks_of zero sc fc total [] h lt e le = (
    sc,
    send_file_end zero sc fc total (omega (arith, ap length e, length-drop total fc.contents)),
    sym (append-nil sc.sent),
    h,
  )
  send_file-chunks_of (suc fuel) sc fc total [] h lt e le = (
    sc,
    send_file_end (suc fuel) sc fc total
        (omega (arith, ap length e, length-drop total fc.contents)),
    sym (append-nil sc.sent),
    h,
  )
  send_file-chunks_of zero sc fc total (c ∷ rest) h lt e le = absurd (omega arith)
  send_file-chunks_of (suc fuel) sc fc total (c ∷ rest) h lt e le =
      let piece = take max_write_size (c ∷ rest) in
      let sent = chunk_some write all sc piece h in
      let size = length-take max_write_size (c ∷ rest) in
      let len = ap length e in
      let others = length-drop total fc.contents in
      let (sc', run, sends, still) =
        send_file-chunks_of fuel (write_chunk write sc (some piece)).1 fc (total + length piece)
          (drop max_write_size (c ∷ rest)) sent.still_open (omega (arith, len, size, others)) behind
          (omega (arith, length-drop max_write_size (c ∷ rest))) in
      (
        sc',
        send_file_more (suc fuel) sc _ fc total (length piece) h (omega (arith, len, others)) (
              ap (λ p. write_chunk write sc (some (take max_write_size p))) e
              ∙ ap (λ n. (n, (write_chunk write sc (some piece)).1)) sent.count)
            ∙ run,
        sends
            ∙ ap (λ s. s ++ chunks_of fuel (drop max_write_size (c ∷ rest))) sent.bytes_sent
            ∙ append_assoc sc.sent _ _,
        still,
      )
    where
      behind :
          drop (total + length (take max_write_size (c ∷ rest))) fc.contents
          ≡ drop max_write_size (c ∷ rest)
      behind =
          sym (drop-drop (length (take max_write_size (c ∷ rest))) total fc.contents)
          ∙ ap (drop (length (take max_write_size (c ∷ rest)))) e
          ∙ drop-length-take max_write_size (c ∷ rest)

  -- `send_status` for a code whose row is known.
  pub send_status-Delivered :
      (sc : Socket) (code : ℕ) (line : Bytes)
      → sc.closed ≡ false
      → status_line code ≡ some line
      → (r : ℕ × Socket) × (send_status write sc code ≡ some r) × Delivered sc line (length line) r
  unfolding send_status write_socket
  send_status-Delivered sc code line h e = (
    write_to_socket write sc line,
    ap (λ l. l >>= λ b. some (write_socket write sc (some b))) e,
    to_socket write all sc line h,
  )

module _ (write : Write) (all : AllAccepted write) (cwd : Bytes) (cache : Cache) where
  -- On an open socket that accepts every write whole, an error whose page is in the cache, under the
  -- name that `error_handler` looks for, sends the status line, the fields' lines, the empty line, and
  -- bytes that with the last chunk behind them are decoded to the page, being its chunks of 1460 bytes, and the socket stays open; a round more than the page has
  -- bytes is enough for its loop.
  pub error_handler-page :
      (sc : Socket) (code : ℕ) (h : Headers) (fs : List Field) (line page : Bytes) (s : Status)
      (fc : File)
      → sc.closed ≡ false
      → over h ≡ map slot_of fs
      → find_status_code status_fuel code ≡ some s
      → s.filename ≡ some page
      → status_line code ≡ some line
      → load cache (some (cwd ++ codes "/errors")) ≡ some fc
      → (sc' : Socket) × (coded : Bytes) × (error_handler write cwd cache
            (suc (length fc.contents))
            code
            sc
            (some h)
          ≡ some (record { status = code; socket = sc'; raw_contents = some fc }))
        × (sc'.sent ++ last_chunk ≡ sc.sent ++ (line ++ (header_lines fs ++ (crlf ++ coded))))
        × (decode_chunks (suc (length fc.contents)) coded ≡ some fc.contents)
        × (sc'.closed ≡ false)
        × (coded ≡ chunks_of (length fc.contents) fc.contents ++ last_chunk)
  unfolding error_handler
  error_handler-page sc code h fs line page s fc open_now o found paged e cached =
      let (r₁, run₁, d₁) = send_status-Delivered write all sc code line open_now e in
      let d₂ = send_headers-header_lines write all r₁.1 h fs d₁.still_open o in
      let sc₂ = (send_headers write r₁.1 (some h)).1 in
      let (sc', run, sent, still) =
        send_file-chunks_of write all (length fc.contents) sc₂ fc 0 fc.contents d₂.still_open
          (omega arith) refl (omega arith) in
      (
        sc',
        chunks_of (length fc.contents) fc.contents ++ last_chunk,
        rw (found, paged, file_path_lem cwd (codes "errors") [], cached, run₁, run) refl,
        ap (λ t. t ++ last_chunk)
              (sent
                ∙ ap (λ t. t ++ chunks_of (length fc.contents) fc.contents)
                    (d₂.bytes_sent ∙ ap (λ t. t ++ (header_lines fs ++ crlf)) d₁.bytes_sent))
            ∙ simp append_assoc,
        decode_chunks-chunks_of (length fc.contents) fc.contents (omega arith),
        still,
        refl,
      )
