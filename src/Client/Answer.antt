-- ===== src/Client/Answer.antt =====
-- client.c, `send_response`: the whole answer to a request, from its first line to its last chunk.
use jawas.Base.{
  ℕ, suc, ◌+◌, ◌≤◌, Bool, false, true, length-append, List, ◌++◌, Option, none, some, ◌≡◌, ◌≢◌,
  refl, sym, ap, ◌∙◌, arith, map, length, Bytes, Str, codes, ◌>>=◌,
}
use mathlib.Core.List.{map-append}
use jawas.Str.{crlf}
use jawas.Headers.{Headers, max_headers, over, find_header}
use jawas.Headers.Table.{IsValid, length-over}
use jawas.Headers.Print.{Field, slot_of, header_lines}
use jawas.Files.{File, load}
use jawas.Index.{is_directory, is_file, path_of}
use jawas.Mime.{lws_handler, lookup_mimetype}
use jawas.Requests.{parse_host, parse_method}
use jawas.Responses.{Response, headers_or_new, begin_response, end_response}
use jawas.Responses.Answer.{answer_fields, begin_headers-answer_fields, begin_response-headers}
use jawas.Sockets.{Socket, AllAccepted, write_chunk}
use jawas.Sockets.Chunks.{decode_chunks}
use jawas.Sockets.Whole.{chunk_none}
use jawas.Status.Errors.{error_handler}
use jawas.Pages.{Site, Answered, refused, mimetype_handler}
use jawas.Pages.Static.{page_fields, mimetype_handler-IsPage}
use jawas.Methods.{dispatch_method}
use jawas.Methods.Dispatch.{letters, dispatch_method-get}
use jawas.Methods.Get.{Asked, perform, get_method, get_method-load}

module _ (site : Site) where
  -- `host && method ? dispatch_method(method) : error_handler(400)`.
  abbrev pub answered : ℕ → Bytes → Str → Str → Asked → Headers → Socket → Option Answered
  answered fuel temp_file (some host) (some method) req headers sc =
      perform site fuel temp_file (dispatch_method method) (record req { host = some host }) headers
        sc
  answered fuel temp_file _ _ req headers sc =
      error_handler site.write site.cwd site.cache fuel 400 sc (some headers) >>= λ out.
      some (refused out)

  -- `send_response`, up to `disconnect`. `none` is a loop that has not ended within the fuel, or that
  -- never ends, as that of a table with no room.
  unfoldable pub send_response : ℕ → Bytes → Asked → Response → Socket → Option Answered
  send_response fuel temp_file req r sc =
      let (host, _) = parse_host (find_header (some req.headers) (some (codes "Host"))) in
      parse_method (some req.contents) >>= λ method. begin_response r >>= λ (_, r').
      answered fuel temp_file host method req (headers_or_new r'.headers) sc >>= λ (status, sc').
      some (status, end_response site.write sc')

  pub send_response-answered :
      (fuel : ℕ) (temp_file : Bytes) (req : Asked) (r r' : Response) (b : Bool) (h : Headers)
      (host method : Str) (port status : ℕ) (sc sc' : Socket)
      → parse_host (find_header (some req.headers) (some (codes "Host"))) ≡ (host, port)
      → parse_method (some req.contents) ≡ some method
      → begin_response r ≡ some (b, r')
      → headers_or_new r'.headers ≡ h
      → answered fuel temp_file host method req h sc ≡ some (status, sc')
      → send_response fuel temp_file req r sc ≡ some (status, end_response site.write sc')
  unfolding send_response
  send_response-answered fuel temp_file req r r' b h host method port status sc sc' eh em eb hh ea =
      ap
        (λ x. parse_method (some req.contents) >>= λ m. begin_response r >>= λ (_, q).
          answered fuel temp_file x.0 m req (headers_or_new q.headers) sc >>= λ (s, t).
          some (s, end_response site.write t))
        eh
      ∙ ap
          (λ o. o >>= λ m. begin_response r >>= λ (_, q).
            answered fuel temp_file host m req (headers_or_new q.headers) sc >>= λ (s, t).
            some (s, end_response site.write t))
          em
      ∙ ap
          (λ o. o >>= λ (_, q).
            answered fuel temp_file host method req (headers_or_new q.headers) sc >>= λ (s, t).
            some (s, end_response site.write t))
          eb
      ∙ ap
          (λ k. answered fuel temp_file host method req k sc >>= λ (s, t).
            some (s, end_response site.write t))
          hh
      ∙ ap (λ o. o >>= λ (s, t). some (s, end_response site.write t)) ea

  -- A request whose method has the letters of GET, from a host, for a path that is that of a file and
  -- whose file is in the cache and has no scripts, on an open socket that accepts every write whole,
  -- with room for the fields: the answer is the status 200, the fields of the response, those of every
  -- answer and those of the page, the empty line, and a body in chunks that is decoded to the file.
  pub send_response-page :
      (all : AllAccepted site.write) (temp_file : Bytes) (req : Asked) (r : Response) (h : Headers)
      (fs : List Field) (fc : File) (host method path : Bytes) (port : ℕ) (sc : Socket)
      → parse_host (find_header (some req.headers) (some (codes "Host"))) ≡ (some host, port)
      → parse_method (some req.contents) ≡ some (some method)
      → letters method ≡ codes "GET"
      → req.path ≡ some path
      → is_directory site.stat (path_of site.cwd host path) ≡ false
      → is_file site.stat (path_of site.cwd host path) ≡ true
      → load site.cache (some (path_of site.cwd host path)) ≡ some fc
      → (lookup_mimetype fc.name).handler ≢ lws_handler
      → sc.closed ≡ false
      → r.headers ≡ some h
      → IsValid h
      → h.nslots + 7 ≤ max_headers
      → over h ≡ map slot_of fs
      → (sc' : Socket) × (coded : Bytes) × (send_response
            (suc (length fc.contents))
            temp_file
            req
            r
            sc
          ≡ some (200, sc'))
        × (sc'.sent
            ≡ sc.sent
              ++ (codes "HTTP/1.1 200 OK\r\n"
                  ++ (header_lines ((fs ++ answer_fields) ++ page_fields site all fc)
                      ++ (crlf ++ coded))))
        × (decode_chunks (suc (length fc.contents)) coded ≡ some fc.contents)
  unfolding end_response perform
  send_response-page all temp_file req r h fs fc host method path port sc eh em get_it ep dir file
        cached plain open_now er v room o =
      let (h', set, v', o') = begin_headers-answer_fields h v (omega arith) in
      let page =
        mimetype_handler-IsPage site all sc h' (fs ++ answer_fields) fc (some host) req.query_vars
          plain open_now v'
          (omega (
            arith,
            length-over h v,
            length-over h' v',
            ap length o',
            length-append (over h) (map slot_of answer_fields),
          ))
          (o'
            ∙ ap (λ t. t ++ map slot_of answer_fields) o
            ∙ sym (map-append slot_of fs answer_fields)) in
      let last = chunk_none site.write all page.left page.still_open in
      (
        (write_chunk site.write page.left none).1,
        page.coded,
        send_response-answered (suc (length fc.contents)) temp_file req r
            (record r { headers = some h' }) _ h' (some host) (some method) port 200 sc page.left eh
            em (begin_response-headers r h h' er set) refl (performed h' ∙ page.run),
        last.bytes_sent ∙ page.bytes_sent,
        page.decoded,
      )
    where
      performed :
          (k : Headers)
          → answered (suc (length fc.contents)) temp_file (some host) (some method) req k sc
            ≡ mimetype_handler site
                (suc (length fc.contents))
                (some host)
                req.query_vars
                (some fc)
                k
                sc
      performed k =
          ap
            (λ a.
              perform site (suc (length fc.contents)) temp_file a (record req { host = some host })
                k sc)
            ((dispatch_method-get method).1 get_it)
          ∙ ap
              (λ p.
                get_method site (suc (length fc.contents))
                  (record req { host = some host; path = p }) k sc)
              ep
          ∙ get_method-load site (suc (length fc.contents)) host path req k sc fc dir file cached
