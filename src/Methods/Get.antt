-- ===== src/Methods/Get.antt =====
-- methods.c: `get_method` and `post_method`, from the request to the page.
use jawas.Base.{
  ℕ, true, false, Option, none, some, ◌≡◌, refl, ap, ◌∙◌, if◌then◌else◌, Bytes, Str, codes, ◌>>=◌,
}
use jawas.Headers.{Headers, find_header}
use jawas.Files.{File, load}
use jawas.Index.{is_directory, is_file, path_of, deauth_path, get_index}
use jawas.Uri.{Form, form}
use jawas.Forms.{parts}
use jawas.Sockets.{Socket}
use jawas.Status.Errors.{error_handler}
use jawas.Pages.{Site, Answered, refused, mimetype_handler}
use jawas.Methods.{Action, get, post, refuse}
use jawas.Methods.Post.{Posted, multipart, json, encoded, posted_form}

-- The fields of the request that a method reads.
pub record Asked : Type 0 where
  pub host : Str
  pub path : Str
  pub headers : Headers
  pub query_vars : Option Headers
  pub contents : Bytes
  pub body : ℕ

-- The table that a form was read into; `none` is a loop that halts or has not ended.
abbrev form_of : Posted → Option (Option Headers)
form_of (multipart (parts h)) = some h
form_of (multipart _) = none
form_of (json none) = none
form_of (json (some h)) = some (some h)
form_of (encoded Form.null) = some none
form_of (encoded (form h)) = some (some h)
form_of (encoded _) = none

module _ (site : Site) where
  -- `is_directory(filename) ? get_index(filename) : load(filename)`.
  unfoldable pub found_file : Bytes → Option File
  found_file filename =
      if is_directory site.stat filename
      then get_index site.cache filename
      else load site.cache (some filename)

  -- `get_method`, whose first test is that the request has a host and a path.
  unfoldable pub get_method : ℕ → Asked → Headers → Socket → Option Answered
  get_method fuel req headers sc = elim req.host [
    | none ↦ error_handler site.write site.cwd site.cache fuel 404 sc (some headers) >>= λ out.
        some (refused out)
    | some host ↦ elim req.path [
      | none ↦ error_handler site.write site.cwd site.cache fuel 404 sc (some headers) >>= λ out.
          some (refused out)
      | some path ↦ deauth_path site.stat site.cwd host path req.headers >>= λ (filename, _).
          mimetype_handler site fuel (some host) req.query_vars (found_file filename) headers sc
    ]
  ]

  unfoldable pub post_method : ℕ → Bytes → Asked → Headers → Socket → Option Answered
  unfolding get_method
  post_method fuel temp_file req headers sc =
      let enctype = find_header (some req.headers) (some (codes "Content-Type")) in
      form_of (posted_form temp_file req.query_vars enctype req.contents req.body) >>= λ form.
      get_method fuel (record req { query_vars = form }) headers sc

  -- The handler that `dispatch_method` calls.
  unfoldable pub perform : ℕ → Bytes → Action → Asked → Headers → Socket → Option Answered
  unfolding get_method post_method
  perform fuel temp_file get req headers sc = get_method fuel req headers sc
  perform fuel temp_file post req headers sc = post_method fuel temp_file req headers sc
  perform fuel temp_file (refuse code) req headers sc =
      error_handler site.write site.cwd site.cache fuel code sc (some headers) >>= λ out.
      some (refused out)

  found_file-load :
      (filename : Bytes) (fc : File)
      → is_directory site.stat filename ≡ false
      → load site.cache (some filename) ≡ some fc
      → found_file filename ≡ some fc
  unfolding found_file
  found_file-load filename fc dir cached =
      ap (λ b. if b then get_index site.cache filename else load site.cache (some filename)) dir
      ∙ cached

  deauth_path_file :
      (host path : Bytes) (headers : Headers)
      → is_directory site.stat (path_of site.cwd host path) ≡ false
      → is_file site.stat (path_of site.cwd host path) ≡ true
      → deauth_path site.stat site.cwd host path headers
        ≡ some (path_of site.cwd host path, headers)
  unfolding deauth_path
  deauth_path_file host path headers dir file = rw (dir, file) refl

  -- The file of the cache that stands under the path of the request, where the path is that of a file.
  pub get_method-load :
      (fuel : ℕ) (host path : Bytes) (req : Asked) (headers : Headers) (sc : Socket) (fc : File)
      → is_directory site.stat (path_of site.cwd host path) ≡ false
      → is_file site.stat (path_of site.cwd host path) ≡ true
      → load site.cache (some (path_of site.cwd host path)) ≡ some fc
      → get_method fuel (record req { host = some host; path = some path }) headers sc
        ≡ mimetype_handler site fuel (some host) req.query_vars (some fc) headers sc
  unfolding get_method
  get_method-load fuel host path req headers sc fc dir file cached =
      ap
        (λ o. o >>= λ (filename, _).
          mimetype_handler site fuel (some host) req.query_vars (found_file filename) headers sc)
        (deauth_path_file host path req.headers dir file)
      ∙ ap (λ f. mimetype_handler site fuel (some host) req.query_vars f headers sc)
          (found_file-load (path_of site.cwd host path) fc dir cached)
