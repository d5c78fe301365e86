-- ===== src/Client/Replies.antt =====
-- client.c, `read_response`: the answer of another server is read, event by event, and handed to the answer
-- of the page that asked for it.
pub mod Handed
mod Tests
use jawas.Base.{
  ℕ, ◌+◌, ◌-◌, Bool, true, false, List, [], ◌∷◌, Option, none, some, if◌then◌else◌, length, Bytes,
  Str, text, codes, ◌>>=◌,
}
use jawas.Str.{from}
use jawas.Headers.{Headers, append_header, connection}
use jawas.Sockets.{Read, read_buffer}
use jawas.Responses.Reading.{Incoming, Reply, failed, continues, stuck, process_response}

-- The two ends: the client of this server, and the other server.
pub data Peer : Type 0 where
  browser : Peer
  upstream : Peer

-- `client.event`, with the socket that is watched for it.
pub data Waiting : Type 0 where
  for_reply : Peer → Waiting
  for_write : Peer → Waiting

-- What reading an answer changes. `current` is whose request and socket `client` holds, `incoming` the
-- response that is read, `buf` what its socket has read, and `answer` the fields of the response that the
-- request of the page points to.
pub record Exchange : Type 0 where
  pub waits : Waiting
  pub ended : Bool
  pub current : Peer
  pub buf : Str
  pub incoming : Incoming
  pub answer : Headers

-- The body and the status of the answer become fields; `none` is a table with no room.
unfoldable pub hand_over : Incoming → Exchange → Option Exchange
hand_over r x =
    let c = text r.contents in
    append_header (some x.answer) (some (codes "data")) (some (from c r.body (length c - r.body)))
    >>= λ h₁. append_header (some h₁) (some (codes "status")) (some (from c 9 3)) >>= λ h₂.
        connection h₂ (codes "close") >>= λ h₃.
        some (record x { waits = for_write browser; current = upstream; incoming = r; answer = h₃ })

abbrev pub after_process : Exchange → Reply → Option Exchange
after_process x (failed r) = some (record x { ended = true; incoming = r })
after_process x (continues r) =
    let whole = hand_over r x in
    if r.done then whole else some (record x { waits = for_reply x.current; incoming = r })
after_process x stuck = none

-- `none` is a loop that does not end, or a table with no room.
unfoldable pub read_response : ℕ → List Read → Exchange → Option Exchange
read_response fuel replies x =
    after_process (record x { buf = some (read_buffer replies x.buf) })
      (process_response fuel replies x.buf x.incoming)

-- `client_poll` at an event of an answer, by whether the socket of `client` is closed.
unfoldable pub poll_response : Bool → ℕ → List Read → Exchange → Option Exchange
unfolding read_response
poll_response closed fuel replies x =
    if closed then some (record x { ended = true }) else read_response fuel replies x
