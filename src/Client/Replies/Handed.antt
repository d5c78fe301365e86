-- ===== src/Client/Replies/Handed.antt =====
-- client.c: what the page that asked another server finds in the fields of its answer.
use jawas.Base.{
  ℕ, ◌+◌, ◌-◌, ◌≤◌, ◌<◌, true, false, List, [], ◌∷◌, ◌++◌, some, ◌≡◌, ◌≢◌, refl, sym, ap, ◌∙◌,
  arith, length, length-drop, take, drop, take-append, drop-append, append_assoc, append-nil,
  length-append, map, Bytes, Str, text, codes, All,
}
use jawas.Str.{from}
use jawas.Headers.{Slot, Headers, max_headers, over, connection}
use jawas.Headers.Table.{IsValid, append_header_room, length-over}
use jawas.Headers.Print.{Field, slot_of}
use jawas.Headers.Parse.RoundTrip.{
  Line, IsLine, NoBreak, filled, message, body_at, lines_before, parse_headers-message,
}
use jawas.Sockets.{Read, again, read_buffer}
use jawas.Sockets.Reads.{joined, pieces_before}
use jawas.Transfer.{is_chunked}
use jawas.Requests.Process.{int_ge, stated_length}
use jawas.Responses.Answer.{func_room}
use jawas.Responses.Reading.{Incoming, continues}
use jawas.Responses.Reading.Message.{come, process_response-message}
use jawas.Client.Replies.{
  Exchange, for_write, browser, upstream, hand_over, after_process, read_response,
}

abbrev pub handed_fields : Bytes → Bytes → List Field
handed_fields body code =
    record { key = codes "data"; value = body }
    ∷ record { key = codes "status"; value = code }
    ∷ record { key = codes "Connection"; value = codes "close" }
    ∷ []

-- The exchange after a whole answer.
abbrev pub handed : Exchange → Str → Incoming → Headers → Exchange
handed x buf r h = record {
  waits = for_write browser;
  ended = x.ended;
  current = upstream;
  buf = buf;
  incoming = r;
  answer = h;
}

from-behind : (a b c : Bytes) → from (a ++ (b ++ c)) (length a) (length b) ≡ b
from-behind a b c =
    ap (take (length b)) (drop-append a (b ++ c) (length a) refl) ∙ take-append b c (length b) refl

from-rest : (m : Bytes) (k : ℕ) → from m k (length m - k) ≡ drop k m
from-rest m k =
    ap (λ n. take n (drop k m)) (sym (length-drop k m))
    ∙ ap (take (length (drop k m))) (sym (append-nil (drop k m)))
    ∙ take-append (drop k m) [] (length (drop k m)) refl

one_more :
    (h h' : Headers) (s : Slot)
    → IsValid h
    → IsValid h'
    → over h' ≡ over h ++ s ∷ []
    → h'.nslots ≡ h.nslots + 1
one_more h h' s v v' o =
    omega (arith, length-over h v, length-over h' v', ap length o, length-append (over h) (s ∷ []))

hand_over-fields :
    (x : Exchange) (m : Bytes) (r : Incoming) (body code : Bytes)
    → IsValid x.answer
    → x.answer.nslots + 3 ≤ max_headers
    → r.contents ≡ some m
    → from m r.body (length m - r.body) ≡ body
    → from m 9 3 ≡ code
    → (h : Headers) × (hand_over r x ≡ some (handed x x.buf r h))
      × (over h ≡ over x.answer ++ map slot_of (handed_fields body code))
unfolding hand_over connection
hand_over-fields x m r body code v room c b s =
    let (h₁, set₁, v₁, o₁) =
      append_header_room x.answer (some (codes "data")) (some body) v (omega arith) in
    let n₁ : h₁.nslots ≡ x.answer.nslots + 1 = one_more x.answer h₁ _ v v₁ o₁ in
    let (h₂, set₂, v₂, o₂) =
      append_header_room h₁ (some (codes "status")) (some code) v₁ (omega arith) in
    let n₂ : h₂.nslots ≡ h₁.nslots + 1 = one_more h₁ h₂ _ v₁ v₂ o₂ in
    let (h₃, set₃, v₃, o₃, n₃) =
      func_room h₂ (codes "Connection") (codes "close") v₂ (omega arith) in
    (h₃, rw (c, b, s, set₁, set₂, set₃) refl, o₃ ∙ rw (o₂, o₁) (simp append_assoc))

-- The whole answer of another server, in any pieces, not chunked and with a body of the stated length or
-- more, is handed over if the answer of the page has room for three fields: they are the body, the three bytes of
-- the status behind nine, and `Connection`, in this order behind those before; and the connection waits for its
-- client to be writable.
pub read_response-handed :
    (fuel : ℕ) (start code reason body : Bytes) (l : Line) (ls : List Line) (x : Exchange)
    (ds : List Bytes) (rest : List Read)
    → length start ≡ 9
    → length code ≡ 3
    → All NoBreak (start ++ (code ++ reason))
    → All IsLine (l ∷ ls)
    → length (l ∷ ls) < max_headers
    → is_chunked (some (filled (l ∷ ls))) ≡ false
    → int_ge (length body) (stated_length (filled (l ∷ ls))) ≡ true
    → All (λ d. d ≢ []) ds
    → text x.buf ++ joined ds ≡ message (start ++ (code ++ reason)) body l ls
    → x.incoming.body ≡ 0
    → IsValid x.answer
    → x.answer.nslots + 3 ≤ max_headers
    → (r : Incoming) × (h : Headers) × (read_response fuel (pieces_before ds (again ∷ rest)) x
        ≡ some (handed x (some (read_buffer (pieces_before ds (again ∷ rest)) x.buf)) r h))
      × (over h ≡ over x.answer ++ map slot_of (handed_fields body code))
unfolding read_response
read_response-handed fuel start code reason body l ls x ds rest nine three hf ok lt plain full
      pieces whole new v room =
    let first = start ++ (code ++ reason) in
    let m = message first body l ls in
    let b = body_at first body l ls in
    let buf' = some (read_buffer (pieces_before ds (again ∷ rest)) x.buf) in
    let x' : Exchange = record x { buf = buf' } in
    let r = come m (filled (l ∷ ls)) b true in
    let tail = 13 ∷ 10 ∷ lines_before (l ∷ ls) (13 ∷ 10 ∷ body) in
    let status : from m 9 3 ≡ code =
      ap (λ t. from t 9 3)
        (append_assoc start (code ++ reason) tail
          ∙ ap (λ t. start ++ t) (append_assoc code reason tail))
      ∙ ap (λ n. from (start ++ (code ++ (reason ++ tail))) n 3) (sym nine)
      ∙ ap (λ n. from (start ++ (code ++ (reason ++ tail))) (length start) n) (sym three)
      ∙ from-behind start code (reason ++ tail) in
    let (parse, fields, behind) = parse_headers-message first body l ls hf ok lt in
    let (h, set, o) =
      hand_over-fields x' m r body code v room refl (from-rest m b ∙ behind) status in
    (
      r,
      h,
      ap (after_process x') (
            process_response-message fuel first body l ls x.incoming ds rest x.buf hf ok lt plain
              pieces whole new
            ∙ ap (λ d. continues (come m (filled (l ∷ ls)) b d)) full)
          ∙ set,
      o,
    )
