-- ===== src/Pages/Static.antt =====
-- script.c, image.c and mime.c: a page with no scripts, as it is sent.
use jawas.Base.{
  suc, ◌+◌, ◌≤◌, false, List, [], ◌∷◌, ◌++◌, Option, some, ◌≡◌, ◌≢◌, refl, sym, ap, ◌∙◌, arith, map,
  length, Bytes, Str, codes, append_assoc, append-nil, subst, ◌>>=◌,
}
use mathlib.Core.List.{map-append}
use jawas.Str.{crlf}
use jawas.Headers.{Headers, max_headers, over, cache_control, date_field, expires, content_type}
use jawas.Headers.Table.{IsValid}
use jawas.Headers.Print.{Field, slot_of, header_lines}
use jawas.Format.{new_str}
use jawas.Files.{File}
use jawas.Mime.{Handler, script_handler, img_handler, lws_handler, lookup_mimetype}
use jawas.Sockets.{Socket, AllAccepted, send_headers}
use jawas.Sockets.Chunks.{chunks_of, last_chunk, decode_chunks, decode_chunks-chunks_of}
use jawas.Sockets.Whole.{send_headers-header_lines}
use jawas.Status.{status_line}
use jawas.Status.Errors.{send_file-chunks_of, send_status-Delivered}
use jawas.Responses.Answer.{func_room}
use jawas.Pages.{Site, Answered, script_page, img_page, handle, mimetype_handler}

abbrev pub field : Bytes → Bytes → Field
field k v = record { key = k; value = v }

-- What was sent: the head of the answer, and a body that with the last chunk behind it is decoded to
-- the file; the socket is open.
pub record IsPage (fs : List Field) (contents : Bytes) (sc : Socket) (r : Option Answered)
    : Type 0 where
  pub left : Socket
  pub coded : Bytes
  pub run : r ≡ some (200, left)
  pub still_open : left.closed ≡ false
  pub bytes_sent :
      left.sent ++ last_chunk
      ≡ sc.sent ++ (codes "HTTP/1.1 200 OK\r\n" ++ (header_lines fs ++ (crlf ++ coded)))
  pub decoded : decode_chunks (suc (length contents)) coded ≡ some contents

module _ (site : Site) (all : AllAccepted site.write) where
  script_page-IsPage :
      (sc : Socket) (h : Headers) (fs : List Field) (fc : File)
      → sc.closed ≡ false
      → over h ≡ map slot_of fs
      → IsPage fs fc.contents sc (script_page site (suc (length fc.contents)) fc h sc)
  unfolding script_page status_line new_str
  script_page-IsPage sc h fs fc open_now o =
      let (r₁, run₁, d₁) =
        send_status-Delivered site.write all sc 200 (codes "HTTP/1.1 200 OK\r\n") open_now refl in
      let d₂ = send_headers-header_lines site.write all r₁.1 h fs d₁.still_open o in
      let sc₂ = (send_headers site.write r₁.1 (some h)).1 in
      let (sc', run, sent, still) =
        send_file-chunks_of site.write all (length fc.contents) sc₂ fc 0 fc.contents d₂.still_open
          (omega arith) refl (omega arith) in
      record {
        left = sc';
        coded = chunks_of (length fc.contents) fc.contents ++ last_chunk;
        run = rw (run₁, run) refl;
        still_open = still;
        bytes_sent =
            ap (λ t. t ++ last_chunk)
              (sent
                ∙ ap (λ t. t ++ chunks_of (length fc.contents) fc.contents)
                    (d₂.bytes_sent ∙ ap (λ t. t ++ (header_lines fs ++ crlf)) d₁.bytes_sent))
            ∙ simp append_assoc;
        decoded = decode_chunks-chunks_of (length fc.contents) fc.contents (omega arith);
      }

  -- The fields of a picture.
  abbrev pub cached_fields : List Field
  cached_fields =
      field (codes "Cache-Control") (codes "max-age=86400, public")
      ∷ field (codes "Date") site.now
      ∷ field (codes "Expires") site.tomorrow
      ∷ []

  img_page-IsPage :
      (sc : Socket) (h : Headers) (fs : List Field) (fc : File)
      → sc.closed ≡ false
      → IsValid h
      → h.nslots + 3 ≤ max_headers
      → over h ≡ map slot_of fs
      → IsPage
          (fs ++ cached_fields)
          fc.contents
          sc
          (img_page site (suc (length fc.contents)) fc h sc)
  unfolding img_page script_page cache_control date_field expires
  img_page-IsPage sc h fs fc open_now v room o =
      let (h₁, set₁, v₁, o₁, n₁) =
        func_room h (codes "Cache-Control") (codes "max-age=86400, public") v (omega arith) in
      let (h₂, set₂, v₂, o₂, n₂) = func_room h₁ (codes "Date") site.now v₁ (omega arith) in
      let (h₃, set₃, v₃, o₃, n₃) = func_room h₂ (codes "Expires") site.tomorrow v₂ (omega arith) in
      rw (set₁, set₂, set₃)
        (script_page-IsPage sc h₃ (fs ++ cached_fields) fc open_now
          (o₃ ∙ rw (o₂, o₁, o) (simp append_assoc) ∙ sym (map-append slot_of fs cached_fields)))

  -- The fields that a handler adds for a file that is sent as it is.
  abbrev pub handler_fields : Handler → List Field
  handler_fields script_handler = []
  handler_fields img_handler = cached_fields
  handler_fields lws_handler = []

  handle-IsPage :
      (k : Handler) (host : Str) (query_vars : Option Headers) (sc : Socket) (h : Headers)
      (fs : List Field) (fc : File)
      → k ≢ lws_handler
      → sc.closed ≡ false
      → IsValid h
      → h.nslots + 3 ≤ max_headers
      → over h ≡ map slot_of fs
      → IsPage
          (fs ++ handler_fields k)
          fc.contents
          sc
          (handle site k (suc (length fc.contents)) host query_vars fc h sc)
  unfolding handle
  handle-IsPage script_handler host query_vars sc h fs fc ne open_now v room o =
      script_page-IsPage sc h (fs ++ []) fc open_now (o ∙ ap (map slot_of) (sym (append-nil fs)))
  handle-IsPage img_handler host query_vars sc h fs fc ne open_now v room o =
      img_page-IsPage sc h fs fc open_now v room o
  handle-IsPage lws_handler host query_vars sc h fs fc ne open_now v room o = absurd (ne refl)

  -- The fields of a file's page: its type, and those of its handler.
  abbrev pub page_fields : File → List Field
  page_fields fc =
      let mime = lookup_mimetype fc.name in
      field (codes "Content-Type") mime.name ∷ handler_fields mime.handler

  -- A file whose handler is not that of scripts, on a valid table with room for four more fields and an open socket that
  -- accepts every write whole, is sent behind the status 200, the fields of the table, and the file's
  -- own: its type, and for a picture those that let it be cached; the body is decoded to the file.
  pub mimetype_handler-IsPage :
      (sc : Socket) (h : Headers) (fs : List Field) (fc : File) (host : Str)
      (query_vars : Option Headers)
      → (lookup_mimetype fc.name).handler ≢ lws_handler
      → sc.closed ≡ false
      → IsValid h
      → h.nslots + 4 ≤ max_headers
      → over h ≡ map slot_of fs
      → IsPage
          (fs ++ page_fields fc)
          fc.contents
          sc
          (mimetype_handler site (suc (length fc.contents)) host query_vars (some fc) h sc)
  unfolding mimetype_handler content_type
  mimetype_handler-IsPage sc h fs fc host query_vars ne open_now v room o =
      let mime = lookup_mimetype fc.name in
      let typed = field (codes "Content-Type") mime.name in
      let (h₁, set₁, v₁, o₁, n₁) = func_room h (codes "Content-Type") mime.name v (omega arith) in
      let page =
        handle-IsPage mime.handler host query_vars sc h₁ (fs ++ typed ∷ []) fc ne open_now v₁
          (omega arith)
          (o₁
            ∙ ap (λ t. t ++ map slot_of (typed ∷ [])) o
            ∙ sym (map-append slot_of fs (typed ∷ []))) in
      subst
        (λ o.
          IsPage (fs ++ page_fields fc) fc.contents sc (
            o >>= λ k. handle site mime.handler (suc (length fc.contents)) host query_vars fc k sc))
        (sym set₁)
        (subst
          (λ gs.
            IsPage gs fc.contents sc
              (handle site mime.handler (suc (length fc.contents)) host query_vars fc h₁ sc))
          (append_assoc fs (typed ∷ []) (handler_fields mime.handler)) page)
