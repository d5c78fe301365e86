-- ===== src/Client/Refusal.antt =====
-- client.c, `send_response`: a request that names no host or no method.
use jawas.Base.{
  ℕ, suc, List, ◌+◌, ◌≤◌, false, ◌++◌, none, some, ◌≡◌, refl, ap, ◌∙◌, ◌⊎◌, inl, inr, length, map,
  Bytes, Str, codes, sym, ◌>>=◌,
}
use mathlib.Core.List.{map-append}
use jawas.Str.{crlf}
use jawas.Headers.{Headers, max_headers, over, find_header}
use jawas.Headers.Table.{IsValid}
use jawas.Headers.Print.{Field, slot_of, header_lines}
use jawas.Format.{new_str}
use jawas.Files.{File, load}
use jawas.Requests.{parse_host, parse_method}
use jawas.Responses.{Response, end_response}
use jawas.Responses.Answer.{answer_fields, begin_headers-answer_fields, begin_response-headers}
use jawas.Sockets.{Socket, AllAccepted, write_chunk}
use jawas.Sockets.Chunks.{chunks_of, last_chunk, decode_chunks}
use jawas.Sockets.Whole.{chunk_none}
use jawas.Status.{find_status_code, status_line}
use jawas.Status.Errors.{error_handler, error_handler-page}
use jawas.Pages.{Site, refused}
use jawas.Methods.Get.{Asked}
use jawas.Client.Answer.{answered, send_response, send_response-answered}

module _ (site : Site) where
  answered_without :
      (fuel : ℕ) (temp_file : Bytes) (host method : Str) (req : Asked) (h : Headers) (sc : Socket)
      → (host ≡ none) ⊎ (method ≡ none)
      → answered site fuel temp_file host method req h sc ≡ (
          error_handler site.write site.cwd site.cache fuel 400 sc (some h) >>= λ out.
          some (refused out))
  answered_without fuel temp_file none method req h sc e = refl
  answered_without fuel temp_file (some host) none req h sc e = refl
  answered_without fuel temp_file (some host) (some method) req h sc (inl e) = absurd (cc e)
  answered_without fuel temp_file (some host) (some method) req h sc (inr e) = absurd (cc e)

  -- A request that has no host or no method, on an open socket that accepts every write whole, with room for the
  -- fields of an answer and the page in the cache under the name that `error_handler` looks for: `send_response`
  -- returns 400, and what is sent is exactly the status line, the lines of the response's own fields and of those
  -- that every answer has, the empty line, the chunks of the page, and once the last chunk, by which they are decoded to
  -- the page.
  pub send_response-refusal :
      (all : AllAccepted site.write) (temp_file : Bytes) (req : Asked) (r : Response) (h : Headers)
      (fs : List Field) (fc : File) (host method : Str) (port : ℕ) (sc : Socket)
      → parse_host (find_header (some req.headers) (some (codes "Host"))) ≡ (host, port)
      → parse_method (some req.contents) ≡ some method
      → (host ≡ none) ⊎ (method ≡ none)
      → sc.closed ≡ false
      → r.headers ≡ some h
      → IsValid h
      → h.nslots + 3 ≤ max_headers
      → over h ≡ map slot_of fs
      → load site.cache (some (site.cwd ++ codes "/errors")) ≡ some fc
      → (sc' : Socket) × (coded : Bytes) × (send_response site
            (suc (length fc.contents))
            temp_file
            req
            r
            sc
          ≡ some (400, sc'))
        × (sc'.sent
            ≡ sc.sent
              ++ (codes "HTTP/1.1 400 Bad Request\r\n"
                  ++ (header_lines (fs ++ answer_fields) ++ (crlf ++ coded))))
        × (coded ≡ chunks_of (length fc.contents) fc.contents ++ last_chunk)
        × (decode_chunks (suc (length fc.contents)) coded ≡ some fc.contents)
  unfolding end_response find_status_code status_line new_str
  send_response-refusal all temp_file req r h fs fc host method port sc eh em without open_now er v
        room o cached =
      let (h', set, v', o') = begin_headers-answer_fields h v room in
      let (sc', coded, run, sent, decoded, still, chunks) =
        error_handler-page site.write all site.cwd site.cache sc 400 h' (fs ++ answer_fields)
          (codes "HTTP/1.1 400 Bad Request\r\n") (codes "/400.html")
          (record {
            code = 400;
            reason = codes "400 Bad Request\r\n";
            filename = some (codes "/400.html");
          })
          fc open_now
          (o'
            ∙ ap (λ t. t ++ map slot_of answer_fields) o
            ∙ sym (map-append slot_of fs answer_fields))
          refl refl refl cached in
      let last = chunk_none site.write all sc' still in
      (
        (write_chunk site.write sc' none).1,
        coded,
        send_response-answered site (suc (length fc.contents)) temp_file req r
            (record r { headers = some h' }) _ h' host method port 400 sc sc' eh em
            (begin_response-headers r h h' er set) refl
            (answered_without (suc (length fc.contents)) temp_file host method req h' sc without
              ∙ ap (λ p. p >>= λ out. some (refused out)) run),
        last.bytes_sent ∙ sent,
        chunks,
        decoded,
      )
