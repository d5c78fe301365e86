-- ===== src/Methods/Post.antt =====
-- methods.c, `post_method`: how the contents of a request become its form.
use jawas.Base.{
  ℕ, ◌-◌, Bool, false, Option, none, some, if◌then◌else◌, length, Bytes, Str, codes, [],
}
use jawas.Str.{from, ncmp}
use jawas.Headers.{Headers, append_header}
use jawas.Uri.{Form, parse_uri_encoded}
use jawas.Forms.{Parts, parse_multipart_body}

-- The contents behind `pos` as one field; `none` is a table with no room.
unfoldable pub parse_json : Option Headers → Bytes → ℕ → Option Headers
parse_json hd buf pos =
    append_header hd (some (codes "json")) (some (from buf pos (length buf - pos)))

-- The form, by the reader that the content type selects.
pub data Posted : Type 0 where
  multipart : Parts → Posted
  json : Option Headers → Posted
  encoded : Form → Posted

-- `enctype && ncmp(enctype, name, l)`.
abbrev pub has_type : Str → Bytes → Bool
has_type none name = false
has_type (some enctype) name = ncmp (some enctype) (some name) (length name)

abbrev type_text : Str → Bytes
type_text none = []
type_text (some enctype) = enctype

unfoldable pub posted_form : Bytes → Option Headers → Str → Bytes → ℕ → Posted
posted_form temp_file query_vars enctype contents body =
    if has_type enctype (codes "multipart/form-data")
    then multipart (parse_multipart_body temp_file contents body query_vars (type_text enctype))
    else if has_type enctype (codes "text/json")
    then json (parse_json query_vars contents body)
    else encoded (parse_uri_encoded query_vars (some contents) body)
