-- ===== src/Client/Retries.antt =====
-- client.c: a connection whose reads fail is given up after as many failures as the bound says.
use jawas.Base.{
  ℕ, zero, suc, ◌+◌, ◌≤◌, ◌<◌, Bool, true, false, List, [], ◌∷◌, Option, none, some, ◌≡◌, sym,
  subst, ap, ◌∙◌, arith, leb, if◌then◌else◌, Bytes, text, ◌>>=◌, replicate,
}
use native.Mathlib.Decide.{dec_lt}
use jawas.Sockets.{Read, failed, read_socket, read_buffer}
use jawas.Requests.Process.{process_request}
use jawas.Client.{to_read, Client, max_retries, retry_request, read_request, poll_read, poll_reads}

-- The client after a failed read that was counted.
abbrev counted : Client → Client
counted c = record c {
  buf = some (text c.buf);
  request = record c.request { contents = none; retries = c.request.retries + 1 };
}

read_failed :
    (fuel : ℕ) (peer : Bytes) (c : Client)
    → c.closed ≡ false
    → poll_read fuel peer (failed ∷ []) c ≡ some (retry_request (counted c))
unfolding poll_read read_request process_request read_socket read_buffer
read_failed fuel peer c h =
    ap (λ b. if b then some (record c { ended = true }) else some (retry_request (counted c))) h

retry_request_room :
    (c : Client) → c.request.retries < max_retries → retry_request c ≡ record c { event = to_read }
unfolding retry_request
retry_request_room c lt =
    let e : leb max_retries c.request.retries ≡ false = ground arith in
    ap (λ b. if b then record c { ended = true } else record c { event = to_read }) e

retry_request_full :
    (c : Client) → max_retries ≤ c.request.retries → retry_request c ≡ record c { ended = true }
unfolding retry_request
retry_request_full c le =
    let e : leb max_retries c.request.retries ≡ true = ground arith in
    ap (λ b. if b then record c { ended = true } else record c { event = to_read }) e

poll_reads_next :
    (fuel : ℕ) (peer : Bytes) (replies : List Read) (rest : List (List Read)) (c c' : Client)
    → c.ended ≡ false
    → poll_read fuel peer replies c ≡ some c'
    → poll_reads fuel peer (replies ∷ rest) c ≡ poll_reads fuel peer rest c'
unfolding poll_reads
poll_reads_next fuel peer replies rest c c' h e =
    ap
      (λ b.
        if b then some c else poll_read fuel peer replies c >>= λ d. poll_reads fuel peer rest d)
      h
    ∙ ap (λ o. o >>= λ d. poll_reads fuel peer rest d) e

-- A client with some failed reads behind it, after more of them.
abbrev pub HasEnded : ℕ → Bool → Option Client → Type 0
HasEnded k over none = ⊥
HasEnded k over (some c) = (c.request.retries ≡ k) × (c.ended ≡ over)

-- On a connection that is open and has not ended, with fewer failed reads counted than the bound,
-- further reads that fail are counted, and it has ended exactly if they reach the bound.
pub poll_reads-HasEnded :
    (n fuel : ℕ) (peer : Bytes) (c : Client)
    → c.closed ≡ false
    → c.ended ≡ false
    → c.request.retries < max_retries
    → c.request.retries + n ≤ max_retries
    → HasEnded
        (c.request.retries + n)
        (leb max_retries (c.request.retries + n))
        (poll_reads fuel peer (replicate n (failed ∷ [])) c)
unfolding poll_reads
poll_reads-HasEnded zero fuel peer c open_now going lt le = (omega arith, going ∙ ground arith)
poll_reads-HasEnded (suc n) fuel peer c open_now going lt le =
    elim (dec_lt (c.request.retries + 1) max_retries) [
      | yes room ↦
          let c' : Client = record (counted c) { event = to_read } in
          subst (HasEnded (c.request.retries + suc n) (leb max_retries (c.request.retries + suc n)))
            (sym (
              poll_reads_next fuel peer (failed ∷ []) (replicate n (failed ∷ [])) c c' going
                (read_failed fuel peer c open_now ∙ ap some (retry_request_room (counted c) room))))
            (subst
              (λ k.
                HasEnded k (leb max_retries k)
                  (poll_reads fuel peer (replicate n (failed ∷ [])) c'))
              (omega arith) (poll_reads-HasEnded n fuel peer c' open_now going room (omega arith)))
      | no full ↦
          let c' : Client = record (counted c) { ended = true } in
          let z : n ≡ zero = omega arith in
          let last : leb max_retries (c.request.retries + suc n) ≡ true = ground arith in
          subst (HasEnded (c.request.retries + suc n) (leb max_retries (c.request.retries + suc n)))
            (sym (
              poll_reads_next fuel peer (failed ∷ []) (replicate n (failed ∷ [])) c c' going (
                read_failed fuel peer c open_now
                ∙ ap some (retry_request_full (counted c) (omega arith)))
              ∙ ap (λ m. poll_reads fuel peer (replicate m (failed ∷ [])) c') z))
            (omega arith, sym last)
    ]
