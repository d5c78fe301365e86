-- ===== src/Files/Loading/Tests.antt =====
-- Loading files: runs, and the instance of the theorem.
use jawas.Base.{
  [], ◌∷◌, ◌++◌, none, some, ◌≡◌, refl, arith, codes, map, if◌then◌else◌, ◌==◌, length,
}
use jawas.Files.{load}
use jawas.Files.Loading.{Entry, Disk, load_directory, on_disk, mapped, load_directory-load}

abbrev disk : Disk
disk path = if length path == 2 then some (codes "hi") else none

abbrev dotted : Entry
dotted = record { name = codes ".a"; path = codes ".a"; fts_info = 8 }

abbrev page : Entry
page = record { name = codes "b"; path = codes "/b"; fts_info = 8 }

abbrev missing : Entry
missing = record { name = codes "abc"; path = codes "abc"; fts_info = 8 }

abbrev lost_link : Entry
lost_link = record { name = codes "abc"; path = codes "abc"; fts_info = 13 }

abbrev folder : Entry
folder = record { name = codes "ab"; path = codes "ab"; fts_info = 1 }

-- A link that leads nowhere counts as a file, a directory does not.
lost_link_runs : load_directory disk (folder ∷ lost_link ∷ []) [] ≡ some (none ∷ [])
unfolding load_directory
lost_link_runs = refl

-- A file that cannot be opened stands in the array as NULL.
missing_runs :
    load_directory disk (dotted ∷ missing ∷ page ∷ []) []
    ≡ some (none ∷ some (mapped disk (codes "/b") (codes "hi")) ∷ [])
unfolding load_directory
missing_runs = refl

load_directory-load_example :
    (load_directory disk ((dotted ∷ []) ++ page ∷ []) []
      ≡ some (map some (on_disk disk ((dotted ∷ []) ++ page ∷ []))))
    × (load (on_disk disk ((dotted ∷ []) ++ page ∷ [])) (some (codes "/b"))
        ≡ some (mapped disk (codes "/b") (codes "hi")))
load_directory-load_example =
    load_directory-load disk (dotted ∷ []) page [] (codes "hi")
      ((λ l. (codes "hi", refl)), ((λ l. (codes "hi", refl)), tt)) (omega arith) refl refl
