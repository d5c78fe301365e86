-- ===== src/Index/Tests.antt =====
-- Runs of index.c on a small tree of files, and the instance of its theorem.
use jawas.Base.{
  ℕ, zero, suc, ◌≤◌, ◌<◌, false, [], ◌∷◌, ◌++◌, some, ◌≡◌, refl, arith, codes, if◌then◌else◌,
}
use jawas.Str.{cmp}
use jawas.Headers.{Headers, new_headers, over}
use jawas.Headers.Table.{IsValid, new_headers-IsValid}
use jawas.Files.{Cache, load}
use jawas.Index.{missing, directory, Stat, deauth_path, get_index}
use jawas.Index.Token.{stops, deauth_path-token}

-- One directory, `/w/h/p`.
abbrev tree : Stat
unfolding cmp
tree path = if cmp (some path) (some (codes "/w/h/p")) then directory else missing

abbrev cache : Cache
cache = record { name = codes "/w/h/p/index.lws"; contents = codes "x" } ∷ []

get_index_runs :
    get_index cache (codes "/w/h/p")
    ≡ some (record { name = codes "/w/h/p/index.lws"; contents = codes "x" })
unfolding get_index load cmp
get_index_runs = refl

-- No slash stands in the token.
tree_clear : (n : ℕ) → 1 ≤ n → n < 3 → stops tree (codes "/w") (codes "h") (codes "/ab/p") n ≡ false
unfolding tree
tree_clear zero le lt = absurd (omega arith)
tree_clear (suc zero) le lt = refl
tree_clear (suc (suc zero)) le lt = refl
tree_clear (suc (suc (suc n))) le lt = absurd (omega arith)

deauth_path-token_example :
    (h' : Headers) × (deauth_path tree (codes "/w") (codes "h") (codes "/ab/p") new_headers
      ≡ some (codes "/w/h/p", h'))
    × IsValid h'
    × (over h'
        ≡ over new_headers ++ record { key = some (codes "Token"); value = some (codes "ab") } ∷ [])
unfolding tree new_headers
deauth_path-token_example =
    deauth_path-token tree (codes "/w") (codes "h") b'/' (codes "ab") (codes "p") new_headers
      new_headers-IsValid (omega arith) refl tree_clear refl
