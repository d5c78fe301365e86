-- ===== src/Responses/Reading/Message.antt =====
-- responses.c, `process_response`: an answer of another server that arrives whole.
use jawas.Base.{
  ℕ, ◌-◌, ◌<◌, Bool, true, false, List, [], ◌∷◌, ◌++◌, some, ◌≡◌, ◌≢◌, refl, sym, ap, ◌∙◌, arith,
  ◌==◌, if◌then◌else◌, length, length-drop, Bytes, Str, text, All, ◌>>=◌,
}
use jawas.Headers.{Headers, max_headers}
use jawas.Headers.Parse.{Parsed, parse_headers}
use jawas.Headers.Parse.RoundTrip.{
  Line, IsLine, NoBreak, filled, message, body_at, parse_headers-message,
}
use jawas.Sockets.{Read, again}
use jawas.Sockets.Reads.{joined, pieces_before, read_socket-pieces_before}
use jawas.Transfer.{is_chunked, inbound_content_length}
use jawas.Requests.Process.{int_ge, stated_length}
use jawas.Responses.Reading.{
  Incoming, continues, dechunk_response, response_done, finish, settled, after_parse, received,
  process_response,
}

-- An answer whose header fields are read.
abbrev pub come : Bytes → Headers → ℕ → Bool → Incoming
come c h b d = record { contents = some c; headers = some h; body = b; done = d }

response_done-plain :
    (fuel : ℕ) (c : Bytes) (h : Headers) (b : ℕ) (d : Bool)
    → (b == 0) ≡ false
    → is_chunked (some h) ≡ false
    → response_done fuel (come c h b d)
      ≡ some (come c h b (int_ge (length c - b) (stated_length h)))
unfolding response_done inbound_content_length
response_done-plain fuel c h b d eb plain = rw (eb, plain) refl

dechunk_response-plain :
    (fuel : ℕ) (c : Bytes) (h : Headers) (b : ℕ) (d : Bool)
    → is_chunked (some h) ≡ false
    → dechunk_response fuel (come c h b d) ≡ some (come c h b d)
unfolding dechunk_response
dechunk_response-plain fuel c h b d plain = rw plain refl

either : {A : Type 0} (b : Bool) (x : A) → (if b then x else x) ≡ x
either true x = refl
either false x = refl

finish-plain :
    (fuel : ℕ) (c : Bytes) (h : Headers) (b : ℕ) (d : Bool)
    → (b == 0) ≡ false
    → is_chunked (some h) ≡ false
    → finish fuel (continues (come c h b d))
      ≡ continues (come c h b (int_ge (length c - b) (stated_length h)))
finish-plain fuel c h b d eb plain =
    let done = int_ge (length c - b) (stated_length h) in
    ap (λ o. settled (o >>= λ q. if q.done then dechunk_response fuel q else some q))
      (response_done-plain fuel c h b d eb plain)
    ∙ ap (λ o. settled (if done then o else some (come c h b done)))
        (dechunk_response-plain fuel c h b done plain)
    ∙ ap settled (either done (some (come c h b done)))

received-first :
    (fuel : ℕ) (c : Bytes) (r : Incoming) (p : Parsed)
    → r.body ≡ 0
    → parse_headers (some c) ≡ p
    → received fuel r (some c) ≡ finish fuel (after_parse (record r { contents = some c }) p)
received-first fuel c r p e parse =
    ap
      (λ b. finish fuel (
        if b == 0
        then after_parse (record r { contents = some c }) (parse_headers (some c))
        else continues (record r { contents = some c })))
      e
    ∙ ap (λ q. finish fuel (after_parse (record r { contents = some c }) q)) parse

-- An answer that arrives whole, in any pieces behind what was read before, and whose fields do not say that
-- it is chunked, is done exactly if its body has the length that `Content-Length` gives, or more, as `int`s.
pub process_response-message :
    (fuel : ℕ) (first body : Bytes) (l : Line) (ls : List Line) (r : Incoming) (ds : List Bytes)
    (rest : List Read) (buf : Str)
    → All NoBreak first
    → All IsLine (l ∷ ls)
    → length (l ∷ ls) < max_headers
    → is_chunked (some (filled (l ∷ ls))) ≡ false
    → All (λ d. d ≢ []) ds
    → text buf ++ joined ds ≡ message first body l ls
    → r.body ≡ 0
    → process_response fuel (pieces_before ds (again ∷ rest)) buf r
      ≡ continues (
          come
            (message first body l ls)
            (filled (l ∷ ls))
            (body_at first body l ls)
            (int_ge (length body) (stated_length (filled (l ∷ ls)))))
unfolding process_response
process_response-message fuel first body l ls r ds rest buf hf ok lt plain pieces whole start =
    let m = message first body l ls in
    let b = body_at first body l ls in
    let h = filled (l ∷ ls) in
    let (parse, fields, behind) = parse_headers-message first body l ls hf ok lt in
    let size : length m - b ≡ length body = sym (length-drop b m) ∙ ap length behind in
    ap (received fuel r) (read_socket-pieces_before ds again rest buf pieces tt ∙ ap some whole)
    ∙ received-first fuel m r _ start parse
    ∙ finish-plain fuel m h b r.done (ground arith) plain
    ∙ ap (λ n. continues (come m h b (int_ge n (stated_length h)))) size
