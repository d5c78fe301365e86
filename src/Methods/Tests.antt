-- ===== src/Methods/Tests.antt =====
-- Runs of methods.c, and the instance of its theorem.
use jawas.Base.{Option, none, some, ◌>>=◌, ◌≡◌, ◌↔◌, refl, codes}
use jawas.Str.{fncmp, ncmp}
use jawas.Headers.{Headers, append_header, value_at}
use jawas.Methods.Post.{Posted, json, parse_json, posted_form}
use jawas.Methods.{dispatch_method, get, refuse}
use jawas.Methods.Dispatch.{letters, dispatch_method-letters, dispatch_method-get}

put_runs : dispatch_method (codes "put") ≡ refuse 405
unfolding dispatch_method fncmp
put_runs = refl

unknown_runs : dispatch_method (codes "BREW") ≡ refuse 400
unfolding dispatch_method fncmp
unknown_runs = refl

letters_runs : dispatch_method (codes "pOsT") ≡ dispatch_method (codes "POST")
letters_runs = dispatch_method-letters (codes "pOsT") (codes "POST") refl

dispatch_method-get_example :
    (dispatch_method (codes "Get") ≡ get) ↔ (letters (codes "Get") ≡ codes "GET")
dispatch_method-get_example = dispatch_method-get (codes "Get")

abbrev is_json : Posted → Option Headers
is_json (json h) = h
is_json _ = none

-- A content type may go on behind its name.
json_runs :
    (is_json (
        posted_form
          (codes "/tmp/1")
          none
          (some (codes "text/json; charset=utf-8"))
          (codes "ab{}")
          2)
      >>= λ h. value_at h 0)
    ≡ some (codes "{}")
unfolding posted_form parse_json ncmp fncmp append_header
json_runs = refl
