-- ===== src/Requests/Process.antt =====
-- requests.c, `process_request`: what one readable event of a connection does to its request.
use jawas.Base.{
  ℕ, ◌+◌, ◌-◌, ◌%◌, ◌<◌, Bool, true, false, List, [], ◌∷◌, ◌++◌, Option, none, some, ◌≡◌, refl, sym,
  ap, ◌∙◌, arith, ◌==◌, leb, if◌then◌else◌, length, Bytes, Str, text, codes, ◌>>=◌, length-drop,
  All, ◌≢◌,
}
use jawas.Str.{from}
use jawas.Numbers.{int_mod, str_int}
use jawas.Headers.{Headers, new_headers, append_header, max_headers, find_header}
use jawas.Headers.Parse.{Parsed, null, parsed, running, parse_headers}
use jawas.Headers.Parse.RoundTrip.{
  Line, IsLine, NoBreak, filled, message, body_at, parse_headers-message,
}
use jawas.Sockets.{Read, again, read_socket}
use jawas.Sockets.Reads.{joined, pieces_before, read_socket-pieces_before}
use jawas.Transfer.{is_chunked, dechunk, inbound_content_length}

-- The fields of `request_struct` that reading uses. A body at 0 is one that is not known yet.
pub record Request : Type 0 where
  pub contents : Str
  pub headers : Option Headers
  pub body : ℕ
  pub done : Bool
  pub retries : ℕ

-- `open_request`: what `new_request` leaves in these fields.
unfoldable pub open_request : Request
unfolding new_headers
open_request = record {
  contents = none;
  headers = some new_headers;
  body = 0;
  done = false;
  retries = 0;
}

-- `process_request` returns -1 or 0, or a loop in it does not end.
pub data Progress : Type 0 where
  failed : Request → Progress
  continues : Request → Progress
  stuck : Progress

-- `a >= b` for two numbers as `int`s, by their bit patterns.
abbrev pub int_ge : ℕ → ℕ → Bool
int_ge a b = leb ((b + 2147483648) % int_mod) ((a + 2147483648) % int_mod)

-- The position of the body, which `parse_headers` may leave as it was.
abbrev body_or : Option ℕ → ℕ → ℕ
body_or (some b) old = b
body_or none old = old

abbrev with_headers : Request → Option ℕ → Option Headers → Progress
with_headers req body none = stuck
with_headers req body (some h) =
    continues (record req { headers = some h; body = body_or body req.body })

-- `process_request_contents`, which adds the address of the peer to the fields.
abbrev after_parse : Bytes → Request → Parsed → Progress
after_parse peer req null = failed (record req { headers = none })
after_parse peer req (parsed h body) =
    with_headers req body (append_header (some h) (some (codes "peer")) (some peer))
after_parse peer req running = stuck

unfoldable pub process_request_contents : Bytes → Request → Progress
process_request_contents peer req = after_parse peer req (parse_headers req.contents)

-- `request_done`, by the length that the fields give.
abbrev done_by : Request → ℕ → Request
done_by req wanted = record req { done = int_ge (length (text req.contents) - req.body) wanted }

unfoldable pub request_done : ℕ → Request → Option Request
request_done fuel req =
    let known = inbound_content_length fuel req.contents req.headers >>= λ wanted.
    some (done_by req wanted) in
    if req.body == 0 then some req else known

-- `dechunk_request`.
unfoldable pub dechunk_request : ℕ → Request → Option Request
dechunk_request fuel req =
    let short = dechunk fuel (text req.contents) >>= λ con.
    some (record req { contents = some (from (text req.contents) 0 req.body ++ con) }) in
    if is_chunked req.headers then short else some req

abbrev settled : Option Request → Progress
settled none = stuck
settled (some req) = continues req

abbrev finish : ℕ → Progress → Progress
finish fuel (continues req) = settled (
    request_done fuel req >>= λ r.
    let short = dechunk_request fuel r in if r.done then short else some r)
finish fuel p = p

abbrev received : ℕ → Bytes → Request → Str → Progress
received fuel peer req none = failed (record req { contents = none; retries = req.retries + 1 })
received fuel peer req (some c) =
    let contents = process_request_contents peer (record req { contents = some c }) in
    finish fuel (if req.body == 0 then contents else continues (record req { contents = some c }))

-- `buf` is what the socket has read before.
unfoldable pub process_request : ℕ → Bytes → List Read → Str → Request → Progress
process_request fuel peer replies buf req = received fuel peer req (read_socket replies buf)

-- A request whose header fields are read.
abbrev pub read_up : Bytes → Headers → ℕ → Bool → ℕ → Request
read_up c h b d r = record { contents = some c; headers = some h; body = b; done = d; retries = r }

-- The length that the field `Content-Length` gives.
abbrev pub stated_length : Headers → ℕ
stated_length h = str_int (find_header (some h) (some (codes "Content-Length")))

request_done-plain :
    (fuel : ℕ) (c : Bytes) (h : Headers) (b : ℕ) (d : Bool) (r : ℕ)
    → (b == 0) ≡ false
    → is_chunked (some h) ≡ false
    → request_done fuel (read_up c h b d r)
      ≡ some (read_up c h b (int_ge (length c - b) (stated_length h)) r)
unfolding request_done inbound_content_length
request_done-plain fuel c h b d r eb plain = rw (eb, plain) refl

dechunk_request-plain :
    (fuel : ℕ) (c : Bytes) (h : Headers) (b : ℕ) (d : Bool) (r : ℕ)
    → is_chunked (some h) ≡ false
    → dechunk_request fuel (read_up c h b d r) ≡ some (read_up c h b d r)
unfolding dechunk_request
dechunk_request-plain fuel c h b d r plain = rw plain refl

either : {A : Type 0} (b : Bool) (x : A) → (if b then x else x) ≡ x
either true x = refl
either false x = refl

finish-plain :
    (fuel : ℕ) (c : Bytes) (h : Headers) (b : ℕ) (d : Bool) (r : ℕ)
    → (b == 0) ≡ false
    → is_chunked (some h) ≡ false
    → finish fuel (continues (read_up c h b d r))
      ≡ continues (read_up c h b (int_ge (length c - b) (stated_length h)) r)
finish-plain fuel c h b d r eb plain =
    let done = int_ge (length c - b) (stated_length h) in
    ap (λ o. settled (o >>= λ q. if q.done then dechunk_request fuel q else some q))
      (request_done-plain fuel c h b d r eb plain)
    ∙ ap (λ o. settled (if done then o else some (read_up c h b done r)))
        (dechunk_request-plain fuel c h b done r plain)
    ∙ ap settled (either done (some (read_up c h b done r)))

contents-message :
    (peer first body : Bytes) (l : Line) (ls : List Line) (req : Request) (h : Headers)
    → All NoBreak first
    → All IsLine (l ∷ ls)
    → length (l ∷ ls) < max_headers
    → append_header (some (filled (l ∷ ls))) (some (codes "peer")) (some peer) ≡ some h
    → process_request_contents peer (record req { contents = some (message first body l ls) })
      ≡ continues
          (read_up (message first body l ls) h (body_at first body l ls) req.done req.retries)
unfolding process_request_contents
contents-message peer first body l ls req h hf ok lt set =
    let whole = record req { contents = some (message first body l ls) } in
    ap (after_parse peer whole) (parse_headers-message first body l ls hf ok lt).0
    ∙ ap (with_headers whole (some (body_at first body l ls))) set

received-first :
    (fuel : ℕ) (peer c : Bytes) (req : Request)
    → req.body ≡ 0
    → received fuel peer req (some c)
      ≡ finish fuel (process_request_contents peer (record req { contents = some c }))
received-first fuel peer c req e =
    ap
      (λ b. finish fuel (
        if b == 0
        then process_request_contents peer (record req { contents = some c })
        else continues (record req { contents = some c })))
      e

-- A message that arrives whole, in any pieces behind what was read before, on a request whose body is
-- not known yet: its header fields are read, with the peer's address behind them, its body begins
-- behind the empty line, and unless the fields say that it is chunked the request is done exactly if
-- the body has the length that `Content-Length` gives, or more, as `int`s.
pub process_request-message :
    (fuel : ℕ) (peer first body : Bytes) (l : Line) (ls : List Line) (req : Request) (h : Headers)
    (ds : List Bytes) (rest : List Read) (buf : Str)
    → All NoBreak first
    → All IsLine (l ∷ ls)
    → length (l ∷ ls) < max_headers
    → append_header (some (filled (l ∷ ls))) (some (codes "peer")) (some peer) ≡ some h
    → is_chunked (some h) ≡ false
    → All (λ d. d ≢ []) ds
    → text buf ++ joined ds ≡ message first body l ls
    → req.body ≡ 0
    → process_request fuel peer (pieces_before ds (again ∷ rest)) buf req
      ≡ continues (
          read_up
            (message first body l ls)
            h
            (body_at first body l ls)
            (int_ge (length body) (stated_length h))
            req.retries)
unfolding process_request
process_request-message fuel peer first body l ls req h ds rest buf hf ok lt set plain pieces whole
      start =
    ap (received fuel peer req)
      (read_socket-pieces_before ds again rest buf pieces tt ∙ ap some whole)
    ∙ received-first fuel peer m req start
    ∙ ap (finish fuel) (contents-message peer first body l ls req h hf ok lt set)
    ∙ finish-plain fuel m h b req.done req.retries (ground arith) plain
    ∙ ap (λ n. continues (read_up m h b (int_ge n (stated_length h)) req.retries)) size
  where
    m : Bytes
    m = message first body l ls

    b : ℕ
    b = body_at first body l ls

    size : length m - b ≡ length body
    size = sym (length-drop b m) ∙ ap length (parse_headers-message first body l ls hf ok lt).2
