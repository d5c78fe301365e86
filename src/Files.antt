-- ===== src/Files.antt =====
-- files.c: the cache of files that a server loads once and every request looks its pages up in. What
-- the operating system maps for a file is its contents.
pub mod Loading
pub mod Segments
mod Tests
use jawas.Base.{
  ℕ, Bool, true, false, List, [], ◌∷◌, ◌++◌, Option, none, some, ◌≡◌, refl, ap, ◌∙◌, if◌then◌else◌,
  Bytes, Str, codes, append_assoc, append-nil, Bool-cases, ◌⊎◌, inl, inr,
}
use jawas.Str.{cmp}
use jawas.Str.Compare.{cmp_iff}
use jawas.Format.{Arg, str, new_str}
use jawas.Format.Pieces.{new_str-pieces, plain, string}

-- The name and the mapped data of a `struct file_cache_struct`; `st.st_size` is the data's length.
pub record File : Type 0 where
  pub name : Bytes
  pub contents : Bytes

-- The files of `server.files` up to `file_index`.
abbrev pub Cache : Type 0
Cache = List File

unfoldable pub query_cache : Cache → Bytes → Option File
query_cache [] filename = none
query_cache (f ∷ rest) filename =
    if cmp (some filename) (some f.name) then some f else query_cache rest filename

unfoldable pub load : Cache → Str → Option File
unfolding query_cache
load cache none = none
load cache (some filename) = query_cache cache filename

-- `file_path(h, f)`, behind the working directory; `none` is a NULL part, which the formatter reads
-- through.
unfoldable pub file_path : Bytes → Str → Str → Option Bytes
file_path cwd h f = new_str (codes "%s/%s%s") (str (some cwd) ∷ str h ∷ str f ∷ [])

-- The path of a file of a host.
pub file_path_lem :
    (cwd h f : Bytes) → file_path cwd (some h) (some f) ≡ some (cwd ++ b'/' ∷ (h ++ f))
unfolding file_path
file_path_lem cwd h f =
    new_str-pieces (string cwd ∷ plain b'/' ∷ string h ∷ string f ∷ [])
      (tt, ((λ e. cc e), (tt, (tt, tt))))
    ∙ ap some (simp append-nil)

query_cache-append :
    (before : Cache) (f : File) (behind : Cache) (filename : Bytes)
    → query_cache before filename ≡ none
    → query_cache (before ++ f ∷ behind) filename ≡ query_cache (f ∷ behind) filename
unfolding query_cache
query_cache-append [] f behind filename e = refl
query_cache-append (g ∷ before) f behind filename e =
    elim (Bool-cases (cmp (some filename) (some g.name))) [
      | inl hit ↦ absurd (cc (e' hit))
      | inr miss ↦ rw miss (query_cache-append before f behind filename (rest miss))
    ]
  where
    hit_case : cmp (some filename) (some g.name) ≡ true → query_cache (g ∷ before) filename ≡ some g
    hit_case h = rw h refl

    e' : cmp (some filename) (some g.name) ≡ true → some g ≡ none
    e' h = rw (← hit_case h) e

    miss_case :
        cmp (some filename) (some g.name) ≡ false
        → query_cache (g ∷ before) filename ≡ query_cache before filename
    miss_case h = rw h refl

    rest : cmp (some filename) (some g.name) ≡ false → query_cache before filename ≡ none
    rest h = rw (← miss_case h) e

-- `load` returns the first file of the cache that has the name.
pub load_first :
    (before : Cache) (f : File) (behind : Cache)
    → load before (some f.name) ≡ none
    → load (before ++ f ∷ behind) (some f.name) ≡ some f
unfolding load query_cache
load_first before f behind e =
    query_cache-append before f behind f.name e
    ∙ rw ((cmp_iff (some f.name) (some f.name)).1 refl) refl
