-- ===== src/Mime.antt =====
-- mime.c: the type of a file, looked up by the ending of its name.
pub mod Lookup
mod Tests
use jawas.Base.{
  ℕ, zero, suc, ◌+◌, ◌-◌, ◌≤◌, ◌<◌, Bool, true, false, ◌&&◌, List, [], ◌∷◌, ◌++◌, Option, none,
  some, ◌≡◌, ◌≢◌, refl, sym, ap, ◌∙◌, arith, ◌==◌, ltb, if◌then◌else◌, length, length-append,
  get_or, take, drop, drop-append, drop-append_past, take-length, All, Bytes, Str, codes,
  Bool-cases, inl, inr,
}
use jawas.Str.{ncmp}
use jawas.Str.Fields.{Passes, other_than}

-- The handlers that the table names.
pub data Handler : Type 0 where
  script_handler : Handler
  img_handler : Handler
  lws_handler : Handler

pub record MimeType : Type 0 where
  pub ending : Bytes
  pub name : Bytes
  pub handler : Handler

abbrev mime : Bytes → Bytes → Handler → MimeType
mime e n h = record { ending = e; name = n; handler = h }

-- The rows of `mime_types` before the last.
abbrev pub mime_types : List MimeType
mime_types =
    mime (codes "html") (codes "text/html") script_handler
    ∷ mime (codes "shtml") (codes "text/html") img_handler
    ∷ mime (codes "lws") (codes "text/html") lws_handler
    ∷ mime (codes "lws") (codes "text/html") lws_handler
    ∷ mime (codes "xml") (codes "text/xml") lws_handler
    ∷ mime (codes "txt") (codes "text/plain") script_handler
    ∷ mime (codes "svg") (codes "image/svg+xml") lws_handler
    ∷ mime (codes "css") (codes "text/css") script_handler
    ∷ mime (codes "js") (codes "application/x-javascript") script_handler
    ∷ mime (codes "ico") (codes "image/x-icon") img_handler
    ∷ mime (codes "jpg") (codes "image/jpeg") img_handler
    ∷ mime (codes "png") (codes "image/png") img_handler
    ∷ mime (codes "gif") (codes "image/gif") img_handler
    ∷ mime (codes "mpg") (codes "video/mpeg") img_handler
    ∷ mime (codes "mp4") (codes "video/mp4") img_handler
    ∷ mime (codes "mp3") (codes "audio/mp3") img_handler
    ∷ mime (codes "mov") (codes "video/quicktime") img_handler
    ∷ mime (codes "pdf") (codes "application/pdf") img_handler
    ∷ mime (codes "zip") (codes "application/zip") img_handler
    ∷ mime (codes "ps") (codes "application/postscript") img_handler
    ∷ mime (codes "eps") (codes "application/postscript") img_handler
    ∷ mime (codes "swf") (codes "application/x-shockwave-flash") img_handler
    ∷ mime (codes "ttf") (codes "application/octet-stream") img_handler
    ∷ mime (codes "otf") (codes "application/octet-stream") img_handler
    ∷ []

-- The last row, where the search ends.
abbrev pub any_type : MimeType
any_type = record { ending = []; name = codes "application/octet-stream"; handler = img_handler }

-- The loop `for (i = l - 1; i > 0; --i) if (filename[i-1] == '.') break;`, from `i` downward.
pub ending_start : Bytes → ℕ → ℕ
ending_start filename zero = zero
ending_start filename (suc i) =
    let rest = ending_start filename i in if get_or filename i 0 == b'.' then suc i else rest

-- The loop over the rows: `ending` is the part of the name from `i` on.
pub find_type : List MimeType → Bytes → MimeType
find_type [] ending = any_type
find_type (mt ∷ rest) ending =
    let next = find_type rest ending in
    if length ending == length mt.ending && ncmp (some mt.ending) (some ending) (length ending)
    then mt
    else next

-- On the empty name `i` is -1, and `l - i` is 1: no row has an ending of one byte.
unfoldable pub lookup_mimetype : Bytes → MimeType
unfolding ending_start find_type
lookup_mimetype [] = any_type
lookup_mimetype (c ∷ rest) =
    find_type mime_types (drop (ending_start (c ∷ rest) (length rest)) (c ∷ rest))

-- Is the file one whose text is parsed for scripts?
abbrev pub is_lws : Handler → Bool
is_lws lws_handler = true
is_lws _ = false

unfoldable pub parseable_file : Bytes → Bool
unfolding lookup_mimetype
parseable_file name = is_lws (lookup_mimetype name).handler
