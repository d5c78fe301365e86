-- ===== src/Files/Tests.antt =====
-- Runs of files.c on a small cache.
use jawas.Base.{[], ◌∷◌, ◌++◌, some, ◌≡◌, refl, codes}
use jawas.Str.{cmp, ncmp}
use jawas.Files.Segments.{text_segment, script_segment, parse_file}
use jawas.Files.{File, Cache, load}

abbrev front : Cache
front = record { name = codes "/a"; contents = [] } ∷ []

abbrev page : File
page = record { name = codes "/b"; contents = codes "hi" }

load_runs : load (front ++ page ∷ []) (some (codes "/b")) ≡ some page
unfolding load cmp
load_runs = refl

abbrev script_page : File
script_page = record { name = codes "/p.lws"; contents = codes "ab<? x ?>c" }

segment_runs :
    parse_file script_page
    ≡ some (
        record { kind = text_segment; offset = 0; size = 2 }
        ∷ record { kind = script_segment; offset = 5; size = 2 }
        ∷ record { kind = text_segment; offset = 9; size = 1 }
        ∷ [])
unfolding parse_file ncmp
segment_runs = refl

-- No space follows the mark, so nothing is cut out.
emit_runs :
    parse_file (record { name = codes "/p.lws"; contents = codes "a<?= x =?>c" })
    ≡ some (record { kind = text_segment; offset = 0; size = 11 } ∷ [])
unfolding parse_file ncmp
emit_runs = refl
