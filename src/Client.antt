-- ===== src/Client.antt =====
-- client.c: the connection of one client, from its first readable event to the event that its answer
-- may be written.
pub mod Answer
pub mod Refusal
pub mod Replies
pub mod Retries
mod Tests
use jawas.Base.{
  ℕ, zero, suc, ◌+◌, ◌≤◌, Bool, true, false, not, List, [], ◌∷◌, Option, none, some, leb,
  if◌then◌else◌, Bytes, Str, ◌>>=◌,
}
use jawas.Uri.{Form}
use jawas.Headers.{Headers}
use jawas.Sockets.{Read, read_buffer}
use jawas.Requests.{parse_path}
use jawas.Requests.Process.{Request, Progress, failed, continues, stuck, process_request}

abbrev pub max_retries : ℕ
max_retries = 20

-- `client.event`: what the connection waits for.
pub data Event : Type 0 where
  to_read : Event
  to_write : Event

-- What a client's process keeps, up to its answer; `ended` is that it has disconnected and exited.
pub record Client : Type 0 where
  pub event : Event
  pub ended : Bool
  pub closed : Bool
  pub buf : Str
  pub request : Request
  pub path : Str
  pub query_vars : Option Form

abbrev disconnect : Client → Client
disconnect c = record c { ended = true }

unfoldable pub retry_request : Client → Client
retry_request c =
    if leb max_retries c.request.retries then disconnect c else record c { event = to_read }

abbrev with_path : Client → Option (Str × Option Form) → Option Client
with_path c none = none
with_path c (some (path, query_vars)) =
    some (record c { event = to_write; path = path; query_vars = query_vars })

abbrev after_process : Client → Progress → Option Client
after_process c (failed req) = some (retry_request (record c { request = req }))
after_process c (continues req) =
    let ready =
      with_path (record c { buf = none; request = record req { retries = 0 } })
        (parse_path req.contents) in
    if req.done
    then ready
    else some (record c { event = to_read; request = record req { retries = 0 } })
after_process c stuck = none

-- `read_request`, where the socket brings the replies; it keeps what it has read. `none` is a loop that
-- does not end.
unfoldable pub read_request : ℕ → Bytes → List Read → Client → Option Client
unfolding retry_request
read_request fuel peer replies c =
    after_process (record c { buf = some (read_buffer replies c.buf) })
      (process_request fuel peer replies c.buf c.request)

-- sockets.c, `closed_socket`, which also writes to the log.
abbrev closed_socket : Client → Bool
closed_socket c = c.closed

-- `client_poll` at a readable event.
unfoldable pub poll_read : ℕ → Bytes → List Read → Client → Option Client
unfolding read_request
poll_read fuel peer replies c =
    if closed_socket c then some (disconnect c) else read_request fuel peer replies c

-- Readable events one after another, as long as the process has not exited.
unfoldable pub poll_reads : ℕ → Bytes → List (List Read) → Client → Option Client
poll_reads fuel peer [] c = some c
poll_reads fuel peer (replies ∷ rest) c =
    if c.ended then some c else poll_read fuel peer replies c >>= λ c'. poll_reads fuel peer rest c'
