-- ===== src/Requests/Sending/Whole.antt =====
-- requests.c: a request to another server is sent whole.
use jawas.Base.{
  ℕ, Bool, suc, ◌<◌, false, List, ◌++◌, Option, none, some, ◌≡◌, refl, sym, ap, ◌∙◌, arith, length,
  map, Bytes, Str, append_assoc, append-nil,
}
use jawas.Headers.{Headers, max_headers, over}
use jawas.Headers.Table.{IsValid}
use jawas.Headers.Print.{Field, slot_of}
use jawas.Files.{File}
use jawas.Sockets.{Socket, Write, AllAccepted, write_to_socket}
use jawas.Sockets.Whole.{to_socket}
use jawas.Transfer.{is_chunked, outbound_content_length}
use jawas.Requests.Sending.{Outgoing, write_requests}
use jawas.Requests.Sending.Head.{outgoing, head_of, body_of, IsHead, send_request-IsHead}
use jawas.Requests.Sending.Body.{
  IsSent, file-IsSent, contents_step, write_requests_last, write_requests_more,
}

module _ (write : Write) (all : AllAccepted write) (connect : Str → ℕ → Bool → Option Socket)
    (port : ℕ) where
  -- A request whose fields have room for the host and do not ask for chunks is sent whole on a socket that
  -- takes every write: after at most two events more than the body has bytes, the next event waits
  -- for the answer, and behind the bytes before are the request line, the fields with the host, and the body.
  pub write_requests-IsSent :
      (m host p : Bytes) (hd : Headers) (c : Str) (f : Option File) (sc : Socket) (fs : List Field)
      → sc.closed ≡ false
      → IsValid hd
      → hd.nslots < max_headers
      → over hd ≡ map slot_of fs
      → is_chunked (some hd) ≡ false
      → IsSent sc (head_of m host p fs ++ body_of c f) (
          write_requests write connect
            (suc (suc (length (body_of c f))))
            (outgoing port (some m) (some host) (some p) hd c f none 0 sc))
  unfolding outbound_content_length
  write_requests-IsSent m host p hd c f sc fs open_now v room o whole =
      body_sent c f
        (send_request-IsHead write all connect port m host p hd c f sc fs open_now v room o whole)
    where
      behind_head :
          (sc₁ : Socket) (bytes : Bytes) (o o' : Option Outgoing)
          → o ≡ o'
          → sc₁.sent ≡ sc.sent ++ head_of m host p fs
          → IsSent sc₁ bytes o'
          → IsSent sc (head_of m host p fs ++ bytes) o
      behind_head sc₁ bytes o o' e before s = record {
        left = s.left;
        left_socket = s.left_socket;
        run = e ∙ s.run;
        same = s.same;
        still_open = s.still_open;
        bytes_sent =
            s.bytes_sent
            ∙ ap (λ t. t ++ bytes) before
            ∙ append_assoc sc.sent (head_of m host p fs) bytes;
      }

      body_sent :
          (c : Str) (f : Option File)
          → IsHead write all connect port m host p hd c f sc fs
          → IsSent sc (head_of m host p fs ++ body_of c f) (
              write_requests write connect
                (suc (suc (length (body_of c f))))
                (outgoing port (some m) (some host) (some p) hd c f none 0 sc))
      body_sent (some c) f i =
          let d = to_socket write all i.behind c i.still_open in
          behind_head i.behind c _ _
            (write_requests_more write all connect port (suc (length c)) _ _ i.step) i.bytes_sent
            (record {
              left =
                  outgoing port (some m) (some host) (some p) i.table (some c) f (some (length c))
                    (length c) (write_to_socket write i.behind c).1;
              left_socket = (write_to_socket write i.behind c).1;
              run = write_requests_last write all connect port (length c) _ _ (
                  contents_step write all connect port (some m) (some host) (some p) i.table c f
                    i.behind i.whole d.count);
              same = refl;
              still_open = d.still_open;
              bytes_sent = d.bytes_sent;
            })
      body_sent none (some f) i =
          behind_head i.behind f.contents _ _
            (write_requests_more write all connect port (suc (length f.contents)) _ _ i.step)
            i.bytes_sent
            (file-IsSent write all connect port (suc (length f.contents)) (some m) (some host)
              (some p) i.table f 0 i.behind f.contents i.whole i.still_open (omega arith) refl
              (omega arith))
      body_sent none none i = record {
        left = outgoing port (some m) (some host) (some p) i.table none none (some 0) 0 i.behind;
        left_socket = i.behind;
        run = write_requests_last write all connect port 1 _ _ i.step;
        same = refl;
        still_open = i.still_open;
        bytes_sent = i.bytes_sent ∙ ap (λ t. sc.sent ++ t) (sym (append-nil (head_of m host p fs)));
      }
