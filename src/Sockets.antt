-- ===== src/Sockets.antt =====
-- sockets.c: what is written to a socket, whole or in chunks, and what is read from it. The system
-- calls are parameters: `write(fd, data, length)` is asked for the reply to each call by the number of
-- calls made before it, and `read(fd, ...)` is a list of the replies still to come.
pub mod Chunks
pub mod Coded
pub mod Whole
pub mod Reads
mod Tests
use jawas.Base.{
  ℕ, zero, suc, ◌+◌, ◌-◌, Bool, true, false, List, [], ◌∷◌, ◌++◌, Option, none, some, ltb,
  if◌then◌else◌, length, take, drop, min, Bytes, Str, text, codes, ◌≤◌, ◌≡◌,
}
use jawas.Str.{crlf}
use jawas.Numbers.{hex_str}
use jawas.Headers.{Slot, Headers, over}

-- The part of a socket that the writers use: whether it is closed, how many calls of `write` it has
-- seen, and the bytes that those accepted. A TLS socket has its own call in the place of `write`.
pub record Socket : Type 0 where
  pub closed : Bool
  pub calls : ℕ
  pub sent : Bytes

abbrev pub max_write_size : ℕ
max_write_size = 1460

-- What the call does, by the number of calls before it and the data: `none` is an error, `some k` says
-- that the first `k` bytes were accepted.
abbrev pub Write : Type 0
Write = ℕ → Bytes → Option ℕ

-- A call accepts no more than it was given.
abbrev pub Honest : Write → Type 0
Honest write = (n : ℕ) (out : Bytes) (k : ℕ) → write n out ≡ some k → k ≤ length out

-- A call accepts all that it was given.
abbrev pub AllAccepted : Write → Type 0
AllAccepted write = (n : ℕ) (out : Bytes) → write n out ≡ some (length out)

module _ (write : Write) where
  -- The count that the function returns, and the socket afterwards.
  unfoldable pub write_to_socket : Socket → Bytes → ℕ × Socket
  write_to_socket sc out = if sc.closed then (0, sc) else elim (write sc.calls out) [
    | none ↦ (0, record sc { closed = true; calls = sc.calls + 1 })
    | some k ↦ (k, record sc { calls = sc.calls + 1; sent = sc.sent ++ take k out })
  ]

  -- `none` is a NULL `buf`.
  unfoldable pub write_socket : Socket → Str → ℕ × Socket
  write_socket sc none = (0, sc)
  write_socket sc (some buf) = write_to_socket sc buf

  -- The line `if (data) retval = write_to_socket(sc, data, length)` of `write_chunk`.
  abbrev write_data : Socket → Str → ℕ × Socket
  write_data sc none = (0, sc)
  write_data sc (some d) = write_to_socket sc d

  -- `write_chunk`, with `none` for a NULL `data`, whose length is 0 in every call.
  unfoldable pub write_chunk : Socket → Str → ℕ × Socket
  write_chunk sc out =
      let (_, sc₁) = write_to_socket sc (hex_str (length (text out)) ++ crlf) in
      let (retval, sc₂) = write_data sc₁ out in
      let (_, sc₃) = write_to_socket sc₂ crlf in (retval, sc₃)

  -- The loop of `write_chunked_socket`, over the bytes from `i` on.
  unfoldable pub chunked_from : ℕ → Socket → Bytes → ℕ × Socket
  chunked_from zero sc rest = (0, sc)
  chunked_from (suc fuel) sc [] = (0, sc)
  chunked_from (suc fuel) sc (c ∷ rest) =
      let (n, sc') = write_chunk sc (some (take max_write_size (c ∷ rest))) in
      let (m, sc'') = chunked_from fuel sc' (drop max_write_size (c ∷ rest)) in (n + m, sc'')

  -- Each round moves on by a byte at least, so as many rounds as there are bytes are enough.
  unfoldable pub write_chunked_socket : Socket → Bytes → ℕ × Socket
  unfolding chunked_from
  write_chunked_socket sc buf = chunked_from (length buf) sc buf

  unfoldable pub send_contents : Socket → Str → Bool → ℕ × Socket
  send_contents sc none chunked = (0, sc)
  send_contents sc (some buf) chunked =
      if chunked then write_chunked_socket sc buf else write_socket sc (some buf)

  -- `send_raw_contents`, from the offset `off` of a file's data. `write_to_socket` returns no negative
  -- count, so the tests of `write_raw_socket` and `write_raw_chunked_socket` do nothing.
  unfoldable pub send_raw_contents : Socket → Option Bytes → ℕ → Bool → ℕ × Socket
  send_raw_contents sc none off chunked = (0, sc)
  send_raw_contents sc (some file) off chunked =
      let piece = take max_write_size (drop off file) in
      if chunked then write_chunk sc (some piece) else write_to_socket sc piece

  -- headers.c, the loop of `send_headers`.
  unfoldable pub send_slots : Socket → List Slot → ℕ × Socket
  send_slots sc [] = (0, sc)
  send_slots sc (s ∷ rest) = elim s.key [
    | none ↦ send_slots sc rest
    | some k ↦
        let (n₁, sc₁) = write_socket sc (some k) in
        let (n₂, sc₂) = write_to_socket sc₁ (codes ": ") in
        let (n₃, sc₃) = write_socket sc₂ s.value in
        let (n₄, sc₄) = write_to_socket sc₃ crlf in
        let (n₅, sc₅) = send_slots sc₄ rest in (n₁ + n₂ + n₃ + n₄ + n₅, sc₅)
  ]

  unfoldable pub send_headers : Socket → Option Headers → ℕ × Socket
  unfolding send_slots
  send_headers sc none = (0, sc)
  send_headers sc (some headers) =
      let (total, sc') = send_slots sc (over headers) in
      let (n, sc'') = write_to_socket sc' crlf in (total + n, sc'')

-- What one call of `read` returns: some bytes, the end of the stream, EAGAIN, or another error.
pub data Read : Type 0 where
  bytes : Bytes → Read
  end_of_stream : Read
  again : Read
  failed : Read

-- The loop of `read_socket`, on the buffer so far; a socket with no more to say is one that answers
-- EAGAIN. A count of 0 ends the loop in its condition, before the test that would close the socket.
pub read_from : List Read → Bytes → Str
read_from [] buf = some buf
read_from (bytes [] ∷ rest) buf = some buf
read_from (bytes (c ∷ d) ∷ rest) buf = read_from rest (buf ++ c ∷ d)
read_from (end_of_stream ∷ rest) buf = some buf
read_from (again ∷ rest) buf = some buf
read_from (failed ∷ rest) buf = none

-- What `read_socket` returns; the old buffer is cloned first.
unfoldable pub read_socket : List Read → Str → Str
unfolding read_from
read_socket replies buf = read_from replies (text buf)

-- What the socket's own buffer holds behind that loop, which is also kept at an error.
gathered : List Read → Bytes → Bytes
gathered [] buf = buf
gathered (bytes [] ∷ rest) buf = buf
gathered (bytes (c ∷ d) ∷ rest) buf = gathered rest (buf ++ c ∷ d)
gathered (end_of_stream ∷ rest) buf = buf
gathered (again ∷ rest) buf = buf
gathered (failed ∷ rest) buf = buf

unfoldable pub read_buffer : List Read → Str → Bytes
unfolding gathered
read_buffer replies buf = gathered replies (text buf)
