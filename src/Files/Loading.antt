-- ===== src/Files/Loading.antt =====
-- files.c, `load_directory`: how the cache is filled when the server starts.
mod Tests
use jawas.Base.{
  ℕ, ◌+◌, ◌<◌, ◌≤◌, ◌/◌, ◌%◌, ltb, lt→ltb, length, length-append, length-map, arith, Bool, true,
  false, ◌&&◌, not, List, [], ◌∷◌, ◌++◌, Option, none, some, ◌≡◌, ◌≢◌, refl, sym, ap, ◌∙◌, ◌==◌,
  if◌then◌else◌, Bytes, Str, codes, map, All, append_assoc, append-nil, Bool-cases, inl, inr, ◌>>=◌,
}
use mathlib.Core.List.{map-append}
use jawas.Str.{cmp}
use jawas.Str.Compare.{cmp_iff}
use jawas.Format.{str, number, new_str}
use jawas.Files.{File, Cache, query_cache, load}

-- An entry of a directory as `fts_read` gives it: its name, its path, and what it is as a number.
pub record Entry : Type 0 where
  pub name : Bytes
  pub path : Bytes
  pub fts_info : ℕ

abbrev pub fts_f : ℕ
fts_f = 8

-- `fts_info & FTS_F`: the bit of the value 8, which an entry without a status (10) and a link that leads
-- nowhere (13) have too.
abbrev pub has_fts_f : Entry → Bool
has_fts_f e = (e.fts_info / fts_f) % 2 == 1

-- What opening and mapping a path gives.
abbrev pub Disk : Type 0
Disk = Bytes → Option Bytes

-- `temp_file`, by the number of files and the time.
unfoldable pub temp_file : ℕ → ℕ → Option Bytes
temp_file file_index time = new_str (codes "/tmp/%i%i") (number file_index ∷ number time ∷ [])

abbrev pub max_files : ℕ
max_files = 1024

abbrev starts_dotted : Bytes → Bool
starts_dotted [] = false
starts_dotted (c ∷ rest) = c == b'.'

-- Not hidden, and with the bit of a file.
abbrev pub listed : Entry → Bool
listed e = not (starts_dotted e.name) && has_fts_f e

module _ (disk : Disk) where
  -- `none` is NULL.
  unfoldable pub open_file : Bytes → Option File
  open_file filename = disk filename >>= λ c. some (record { name = filename; contents = c })

  -- `server.files`, with the file of each entry that is listed; `none` is a write behind the array.
  unfoldable pub load_directory : List Entry → List (Option File) → Option (List (Option File))
  unfolding open_file
  load_directory [] files = some files
  load_directory (e ∷ es) files =
      let added = load_directory es (files ++ open_file e.path ∷ []) in
      let skipped = load_directory es files in
      if starts_dotted e.name
      then skipped
      else if not (has_fts_f e)
      then skipped
      else if ltb (length files) max_files
      then added
      else none

  -- The files that are listed and can be read, as they are on the disk.
  abbrev pub on_disk : List Entry → Cache
  on_disk [] = []
  on_disk (e ∷ es) =
      if listed e
      then elim (disk e.path) [
        | none ↦ on_disk es
        | some c ↦ record { name = e.path; contents = c } ∷ on_disk es
      ]
      else on_disk es

  abbrev pub AllOpen : List Entry → Type 0
  AllOpen = All (λ e. listed e ≡ true → (c : Bytes) × (disk e.path ≡ some c))

  first_open : (before rest : List Entry) → AllOpen (before ++ rest) → AllOpen before
  first_open [] rest open_all = tt
  first_open (e ∷ before) rest (o, open_all) = (o, first_open before rest open_all)

  abbrev pub mapped : Bytes → Bytes → File
  mapped path c = record { name = path; contents = c }

  on_disk-listed :
      (e : Entry) (es : List Entry) (c : Bytes)
      → listed e ≡ true
      → disk e.path ≡ some c
      → on_disk (e ∷ es) ≡ mapped e.path c ∷ on_disk es
  on_disk-listed e es c l o = rw (l, o) refl

  on_disk_skipped : (e : Entry) (es : List Entry) → listed e ≡ false → on_disk (e ∷ es) ≡ on_disk es
  on_disk_skipped e es l = rw l refl

  load_directory_skipped :
      (e : Entry) (es : List Entry) (files : List (Option File))
      → listed e ≡ false
      → load_directory (e ∷ es) files ≡ load_directory es files
  unfolding load_directory
  load_directory_skipped e es files l = elim (Bool-cases (starts_dotted e.name)) [
    | inl hidden ↦ rw hidden refl
    | inr shown ↦
        let other : has_fts_f e ≡ false = ap (λ b. not b && has_fts_f e) (sym shown) ∙ l in
        rw (shown, other) refl
  ]

  load_directory-listed :
      (e : Entry) (es : List Entry) (files : List (Option File)) (c : Bytes)
      → listed e ≡ true
      → disk e.path ≡ some c
      → length files < max_files
      → load_directory (e ∷ es) files ≡ load_directory es (files ++ some (mapped e.path c) ∷ [])
  unfolding load_directory open_file
  load_directory-listed e es files c l o lt = elim (Bool-cases (starts_dotted e.name)) [
    | inl hidden ↦ absurd (cc (sym l ∙ ap (λ b. not b && has_fts_f e) hidden))
    | inr shown ↦
        let file : has_fts_f e ≡ true = ap (λ b. not b && has_fts_f e) (sym shown) ∙ l in
        let small : ltb (length files) max_files ≡ true = lt→ltb _ _ lt in
        rw (shown, file, small, o) refl
  ]

  loaded-on_disk :
      (es : List Entry) (cs : Cache)
      → AllOpen es
      → length cs + length (on_disk es) ≤ max_files
      → load_directory es (map some cs) ≡ some (map some (cs ++ on_disk es))
  unfolding load_directory
  loaded-on_disk [] cs open_all le = ap (λ t. some (map some t)) (sym (append-nil cs))
  loaded-on_disk (e ∷ es) cs (opens, open_all) le = elim (Bool-cases (listed e)) [
    | inl l ↦
        let (c, open_one) = opens l in
        let here = on_disk-listed e es c l open_one in
        let f = mapped e.path c in
        let room : length (cs ++ f ∷ []) + length (on_disk es) ≤ max_files =
          omega (arith, le, ap length here, length-append cs (f ∷ [])) in
        load_directory-listed e es (map some cs) c l open_one
          (omega (arith, le, ap length here, length-map cs some))
        ∙ ap (load_directory es) (sym (map-append some cs (f ∷ [])))
        ∙ loaded-on_disk es (cs ++ f ∷ []) open_all room
        ∙ ap (λ t. some (map some t))
            (append_assoc cs (f ∷ []) (on_disk es) ∙ ap (λ t. cs ++ t) (sym here))
    | inr l ↦
        let here = on_disk_skipped e es l in
        load_directory_skipped e es (map some cs) l
        ∙ loaded-on_disk es cs open_all (omega (arith, le, ap length here))
        ∙ ap (λ t. some (map some (cs ++ t))) (sym here)
  ]

  found_or_next :
      (f : File) (cs : Cache) (path c : Bytes)
      → disk path ≡ some c
      → disk f.name ≡ some f.contents
      → query_cache cs path ≡ some (mapped path c)
      → query_cache (f ∷ cs) path ≡ some (mapped path c)
  unfolding query_cache
  found_or_next f cs path c there here next = elim (Bool-cases (cmp (some path) (some f.name))) [
    | inl hit ↦
        let same : path ≡ f.name = (cmp_iff (some path) (some f.name)).0 hit in
        let contents : c ≡ f.contents = cc (there, same, here) in
        rw hit (
          ap (λ n. some (mapped n f.contents)) (sym same)
          ∙ ap (λ d. some (mapped path d)) (sym contents))
    | inr miss ↦ rw miss next
  ]

  on_disk-found :
      (before : List Entry) (e : Entry) (behind : List Entry) (c : Bytes)
      → AllOpen before
      → listed e ≡ true
      → disk e.path ≡ some c
      → query_cache (on_disk (before ++ e ∷ behind)) e.path ≡ some (mapped e.path c)
  unfolding query_cache
  on_disk-found [] e behind c open_all l o =
      let own : cmp (some e.path) (some e.path) ≡ true =
        (cmp_iff (some e.path) (some e.path)).1 refl in
      ap (λ t. query_cache t e.path) (on_disk-listed e behind c l o) ∙ rw own refl
  on_disk-found (d ∷ before) e behind c (opens, open_all) l o =
      let next = on_disk-found before e behind c open_all l o in
      elim (Bool-cases (listed d)) [
        | inl shown ↦
            let (c', open_one) = opens shown in
            ap (λ t. query_cache t e.path)
              (on_disk-listed d (before ++ e ∷ behind) c' shown open_one)
            ∙ found_or_next (mapped d.path c') (on_disk (before ++ e ∷ behind)) e.path c o open_one
                next
        | inr hidden ↦
            ap (λ t. query_cache t e.path) (on_disk_skipped d (before ++ e ∷ behind) hidden) ∙ next
      ]

  -- A directory whose listed files, at most 1024, can all be read fills the cache with
  -- them, and `load` then finds every one of them under its path, with what is on the disk, also where a path
  -- comes twice.
  pub load_directory-load :
      (before : List Entry) (e : Entry) (behind : List Entry) (c : Bytes)
      → AllOpen (before ++ e ∷ behind)
      → length (on_disk (before ++ e ∷ behind)) ≤ max_files
      → listed e ≡ true
      → disk e.path ≡ some c
      → (load_directory (before ++ e ∷ behind) []
          ≡ some (map some (on_disk (before ++ e ∷ behind))))
        × (load (on_disk (before ++ e ∷ behind)) (some e.path) ≡ some (mapped e.path c))
  unfolding load
  load_directory-load before e behind c open_all le l o = (
    loaded-on_disk (before ++ e ∷ behind) [] open_all (omega (arith, le)),
    on_disk-found before e behind c (first_open before (e ∷ behind) open_all) l o,
  )
