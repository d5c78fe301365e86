-- ===== src/Index/Token.antt =====
-- index.c, `deauth_path`: a path that exists is kept, and the token in front of one that does not is cut
-- off at the first slash behind which a directory stands.
use jawas.Base.{
  ℕ, zero, suc, ◌+◌, ◌-◌, ◌≤◌, ◌<◌, Bool, true, false, ◌&&◌, ◌||◌, [], ◌∷◌, ◌++◌, some, ◌≡◌, refl,
  sym, ap, ◌∙◌, arith, ◌==◌, length, length-append, get_or, get_or-append, take-append, drop,
  drop-append, Bytes, codes, ◌>>=◌,
}
use native.Mathlib.Decide.{dec_lt}
use jawas.Str.{from}
use jawas.Headers.{Headers, max_headers, over, append_header}
use jawas.Headers.Table.{IsValid, append_header_room}
use jawas.Index.{Stat, is_directory, is_file, path_of, token_end, deauth_path}

-- Would the loop stop at index `i`?
abbrev pub stops : Stat → Bytes → Bytes → Bytes → ℕ → Bool
stops stat cwd host filename i =
    get_or filename i 0 == b'/' && is_directory stat (path_of cwd host (drop i filename))

module _ (stat : Stat) (cwd host : Bytes) where
  token_end_lem :
      (filename : Bytes) (k i j : ℕ)
      → i ≤ j
      → j < i + k
      → ((n : ℕ) → i ≤ n → n < j → stops stat cwd host filename n ≡ false)
      → stops stat cwd host filename j ≡ true
      → token_end stat cwd host filename k i ≡ some j
  unfolding token_end
  token_end_lem filename zero i j le lt before hit = absurd (omega arith)
  token_end_lem filename (suc k) i j le lt before hit = elim (dec_lt i j) [
    | yes more ↦
        let miss = before i (omega arith) more in
        rw miss (
          token_end_lem filename k (i + 1) j (omega arith) (omega arith)
            (λ n l m. before n (omega arith) m) hit)
    | no here ↦
        let e : j ≡ i = omega arith in
        let hit' : stops stat cwd host filename i ≡ true = rw (← e) hit in rw hit' (ap some (sym e))
  ]

  deauth_path-token_end :
      (filename : Bytes) (headers : Headers) (j : ℕ)
      → (is_directory stat (path_of cwd host filename) || is_file stat (path_of cwd host filename))
        ≡ false
      → token_end stat cwd host filename (length filename - 1) 1 ≡ some j
      → deauth_path stat cwd host filename headers ≡ (
          append_header (some headers) (some (codes "Token")) (some (from filename 1 (j - 1)))
          >>= λ h. some (path_of cwd host (drop j filename), h))
  unfolding deauth_path
  deauth_path-token_end filename headers j absent e = rw (absent, e) refl

  -- A path that is no directory and no file, made of one byte, a token, and a rest that begins with a
  -- slash and is the path of a directory, where no slash in the token stands before the path of one:
  -- on a valid table with room the rest is the path, and the token is added to the request's fields.
  pub deauth_path-token :
      (c : ℕ) (token rest : Bytes) (headers : Headers)
      → IsValid headers
      → headers.nslots < max_headers
      → (is_directory stat (path_of cwd host (c ∷ token ++ b'/' ∷ rest))
          || is_file stat (path_of cwd host (c ∷ token ++ b'/' ∷ rest)))
        ≡ false
      → ((n : ℕ)
          → 1 ≤ n
          → n < suc (length token)
          → stops stat cwd host (c ∷ token ++ b'/' ∷ rest) n ≡ false)
      → is_directory stat (path_of cwd host (b'/' ∷ rest)) ≡ true
      → (h' : Headers) × (deauth_path stat cwd host (c ∷ token ++ b'/' ∷ rest) headers
          ≡ some (path_of cwd host (b'/' ∷ rest), h'))
        × IsValid h'
        × (over h' ≡ over headers ++ record { key = some (codes "Token"); value = some token } ∷ [])
  deauth_path-token c token rest headers v room absent before dir =
      let (h', set, v', o') =
        append_header_room headers (some (codes "Token")) (some token) v room in
      (
        h',
        deauth_path-token_end filename headers j absent (
              token_end_lem filename (length filename - 1) 1 j (omega arith)
                (omega (arith, length-append token (b'/' ∷ rest))) before hit)
            ∙ ap
                (λ t. append_header (some headers) (some (codes "Token")) (some t) >>= λ h.
                  some (path_of cwd host (drop j filename), h))
                (take-append token (b'/' ∷ rest) (j - 1) (omega arith))
            ∙ ap (λ o. o >>= λ h. some (path_of cwd host (drop j filename), h)) set
            ∙ ap (λ t. some (path_of cwd host t, h')) behind,
        v',
        o',
      )
    where
      filename : Bytes
      filename = c ∷ token ++ b'/' ∷ rest

      j : ℕ
      j = suc (length token)

      behind : drop j filename ≡ b'/' ∷ rest
      behind = drop-append token (b'/' ∷ rest) (length token) refl

      slash : get_or filename j 0 ≡ b'/'
      slash = get_or-append token (b'/' ∷ rest) 0 (length token) 0 (omega arith)

      hit : stops stat cwd host filename j ≡ true
      hit = rw (slash, behind) dir
