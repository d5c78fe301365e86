-- ===== src/Index.antt =====
-- index.c: how the path of a request becomes the name of a file. What `stat` says of a path is a
-- parameter.
pub mod Token
mod Tests
use jawas.Base.{
  ℕ, zero, suc, ◌+◌, ◌-◌, ◌≤◌, ◌<◌, Bool, true, false, ◌&&◌, ◌||◌, List, [], ◌∷◌, ◌++◌, Option,
  none, some, ◌≡◌, ◌==◌, if◌then◌else◌, length, get_or, take, drop, Bytes, Str, codes, ◌>>=◌,
}
use jawas.Str.{from}
use jawas.Format.{Arg, str, chars, new_str}
use jawas.Files.{File, Cache, load, file_path}
use jawas.Headers.{Headers, append_header}

abbrev pub indexes : List Bytes
indexes =
    codes "index.html"
    ∷ codes "index.shtml"
    ∷ codes "index.lws"
    ∷ codes "index.svg"
    ∷ codes "index.jws"
    ∷ codes "index.xml"
    ∷ []

-- What `stat` finds under a path.
pub data Kind : Type 0 where
  missing : Kind
  directory : Kind
  regular : Kind
  link : Kind
  block : Kind
  character : Kind
  socket : Kind
  fifo : Kind

abbrev pub Stat : Type 0
Stat = Bytes → Kind

-- `st_mode & S_IFDIR`: the bit is also set in the modes of block devices and sockets.
abbrev has_directory_bit : Kind → Bool
has_directory_bit directory = true
has_directory_bit block = true
has_directory_bit socket = true
has_directory_bit _ = false

-- `st_mode & (S_IFREG|S_IFLNK)`: one of the two bits is also set for devices and sockets.
abbrev has_file_bit : Kind → Bool
has_file_bit regular = true
has_file_bit link = true
has_file_bit block = true
has_file_bit character = true
has_file_bit socket = true
has_file_bit _ = false

abbrev pub is_directory : Stat → Bytes → Bool
is_directory stat path = has_directory_bit (stat path)

abbrev pub is_file : Stat → Bytes → Bool
is_file stat path = has_file_bit (stat path)

-- What `file_path(host, filename)` yields, behind the working directory.
abbrev pub path_of : Bytes → Bytes → Bytes → Bytes
path_of cwd host filename = cwd ++ b'/' ∷ (host ++ filename)

module _ (stat : Stat) (cwd host : Bytes) where
  -- The loop of `deauth_path`, at index `i`, over the `k` indices that are left: where the token ends.
  unfoldable pub token_end : Bytes → ℕ → ℕ → Option ℕ
  token_end filename zero i = none
  token_end filename (suc k) i =
      let rest = token_end filename k (i + 1) in
      if get_or filename i 0 == b'/' && is_directory stat (path_of cwd host (drop i filename))
      then some i
      else rest

  -- The path, and the headers of the request, to which a token is added; `none` is a table with no
  -- room.
  unfoldable pub deauth_path : Bytes → Headers → Option (Bytes × Headers)
  unfolding token_end
  deauth_path filename headers =
      if is_directory stat (path_of cwd host filename) || is_file stat (path_of cwd host filename)
      then some (path_of cwd host filename, headers)
      else elim (token_end filename (length filename - 1) 1) [
        | none ↦ some (path_of cwd host filename, headers)
        | some i ↦
            append_header (some headers) (some (codes "Token")) (some (from filename 1 (i - 1)))
            >>= λ h. some (path_of cwd host (drop i filename), h)
      ]

-- The loop of `get_index`: each index is tried behind the name, and behind the name and a slash.
pub index_from : Cache → Bytes → List Bytes → Option File
index_from cache filename [] = none
index_from cache filename (index ∷ rest) = elim (load cache (some (filename ++ index))) [
  | some f ↦ some f
  | none ↦ elim (load cache (some (filename ++ b'/' ∷ index))) [
    | some f ↦ some f
    | none ↦ index_from cache filename rest
  ]
]

unfoldable pub get_index : Cache → Bytes → Option File
unfolding index_from
get_index cache filename = index_from cache filename indexes
