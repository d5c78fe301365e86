-- ===== src/Lib.antt =====
-- Jawas is a web server written in C. A server process accepts connections and hands each to a process
-- of its own, which reads a request, finds a page for it, and answers with a status line, header
-- fields and a body in chunks. This library models the parts that decide what a request says and what
-- an answer is, each translated from its source, and proves what those parts do.
--
-- The parts, from the bottom up, each with the files that model it:
--   memory.c -> Memory: the region that all objects are carved from (`new_region`, `advance`,
--     `reserve`). An address is an offset into the region.
--   str.c -> Str, with Str/Buffers, Str/Compare, Str/Order, Str/Search and Str/Fields: the counted strings. A `str`
--     is the list of its bytes, a `str` that may be NULL an `Option` of it, and a view that `ref` or
--     `from` makes is the bytes that it shows. `append` is told where its second argument stands, since
--     it reserves no memory for one that stands just behind the first. `char` is signed, and `lesser` compares by that.
--   str.c -> Numbers, with Numbers/Print and Numbers/Read: `int_str`, `hex_str`, `str_int`, `str_hex`. A
--     `reg` has 64 bits and an `int` 32, with the wrap-around written out.
--   str.c -> Format, with Format/Pieces: `new_str`, over a list of the arguments with their types.
--   headers.c, headers.h -> Headers, with Headers/Table, Headers/Refinement, Headers/Sort,
--     Headers/Print and Headers/Parse:
--     the table of header fields, which holds 250, its search, its exchange sort, its printers, and
--     `parse_headers`, one round of whose loop is `scan_step`. A table with no room is `none`, where
--     the source stops for good.
--   uri.c -> Uri, with Uri/Coding and Uri/Query: percent coding and the fields of a query string.
--   sockets.c -> Sockets, with Sockets/Chunks, Sockets/Whole, Sockets/Coded and Sockets/Reads: what is written to a
--     socket, whole or in chunks of at most 1460 bytes, what is read, and `send_headers` of headers.c.
--   files.c -> Files, with Files/Loading and Files/Segments: the cache of files, how a directory fills
--     it, the paths in it, and the segments that
--     `parse_file` cuts a page into.
--   status.c -> Status, with Status/Errors: the status lines and `error_handler`.
--   mime.c -> Mime, with Mime/Lookup: the type of a file by the ending of its name.
--   index.c -> Index, with Index/Token: the token that a path may begin with, and the index of a
--     directory.
--   requests.c -> Requests, with Requests/Line and Requests/Process: the request line, the host and
--     port, and `process_request`, which reads a request up to the end of its body.
--   transfer.c -> Transfer: the length of a body.
--   script.c, image.c, lws.c, mime.c -> Pages, with Pages/Static: the handlers that send a file of the
--     cache as a page, and `mimetype_handler`, which selects one. A `Site` is what an answer takes from
--     outside.
--   requests.c, client.c -> Requests/Sending, with its Head, Body and Whole: `send_request`, which sends a
--     request of a page to another server, over the events of `write_request`.
--   client.c, events.c -> Client, with Client/Retries, Client/Answer and Client/Refusal: the readable
--     events of a connection, up to the event that its answer may be written, and `send_response`.
--   responses.c -> Responses, with Responses/Answer and Responses/Reading: the fields of every answer,
--     its end, and `process_response`, which reads the answer of another server.
--   methods.c -> Methods, with Methods/Dispatch, Methods/Post and Methods/Get: the handler that a method
--     selects, the form that `post_method` reads, and the way from a request to its page.
--   forms.c -> Forms, with Forms/Ends: the boundary and the parts of a form in several parts.
--   lua_json.c -> Lua/Json, with Lua/Json/Total, Lua/Json/Values and Lua/Json/RoundTrip: the reader
--     of JSON texts. Lua is a record of operations, with what its manual says of the height of its stack
--     as a record of laws; that `lua_settable` raises an error for a key nil is not modelled.
--   lws.c -> Lua/Pages, with Lua/Pages/Rendering: pages of text and scripts; Lua/Functions, with
--     Lua/Functions/Balance: the functions that scripts call; Lua/Files: the files that they use or include.
--   lws.c, lua_db.c -> Lua/Queries, with Lua/Queries/Text and Lua/Queries/Results: the statements that
--     scripts send, and what the answers leave.
--   database.c -> Database: a statement and its result. auth.c -> Auth: `hex`.
--   client.c, responses.c -> Client/Replies, with Client/Replies/Handed, on Responses/Reading and
--     Responses/Reading/Message: the answer of another server is read and handed to the page that asked.
--   requests.c, lws.c -> Requests/Building, with Requests/Building/Posted: `PostHTTPLua`, and the functions
--     by which it makes a request, which is connected and, as the source stands, never written.
--   usage.c -> Usage, with Usage/Average: the time of requests; requests.c -> Requests/Log, with Requests/Log/Lookup: the list
--     of them.
--   server.c -> Server, with Server/Bound and Server/Polling: the processes that a server starts and
--     reaps, as a step relation, and its events.
-- Base holds what all of them share. Each part has a module Tests with runs on small inputs and an
-- instance of each of its results that has hypotheses.
--
-- Calls of the operating system are parameters: the replies of `write` by the number of the call, the
-- replies of `read` as a list, and `stat` as a function of the path. A result about what reaches the
-- peer has the hypothesis that every write is accepted whole.
--
-- Loops that the source ends by an index are structural recursion on the bytes that are left. The others
-- run on fuel. The second loop of `parse_headers` and the loop of `parse_uri_encoded` pass over a byte
-- at least in each round, and have a round more than there are bytes; the decimal and hexadecimal
-- widths have 64 rounds, since a division by 10 or 16 halves a 64-bit number at least;
-- `find_status_code` calls itself once at most; `parse_multipart_body` and `parse_file` move on
-- in each round, but where the former fills the table of fields, and so comes to a loop without an end; `write_chunked_socket` has a round for each byte, and the reader
-- of JSON has two for each byte; `write_requests` has an event for each byte of a body, and two.
-- `skip_headers`, the loop of `chunked_length` and the loop that sends a file take the fuel as an
-- argument.
--
-- Not modelled: what is only calls of Lua, PostgreSQL, OpenSSL and the operating system (tls.c, bsd.c,
-- daemon.c, signals.c, timers.c, hostnames.c, dates.c, log.c, the digests of auth.c); and so far what a
-- page does on its own sockets, `reload`, and the four kinds of event of `client_poll` as
-- one machine.
pub mod Auth
pub mod Base
pub mod Client
pub mod Database
pub mod Files
pub mod Format
pub mod Forms
pub mod Headers
pub mod Index
pub mod Lua
pub mod Memory
pub mod Methods
pub mod Mime
pub mod Numbers
pub mod Pages
pub mod Requests
pub mod Responses
pub mod Server
pub mod Sockets
pub mod Status
pub mod Str
pub mod Transfer
pub mod Uri
pub mod Usage
