-- ===== src/Mime/Tests.antt =====
-- Runs of mime.c, and the instance of its theorem.
use jawas.Base.{true, ◌≡◌, refl, codes}
use jawas.Str.{ncmp}
use jawas.Mime.{lookup_mimetype, mime_types, parseable_file}
use jawas.Mime.Lookup.{IsFirst, lookup_mimetype-IsFirst}

css_runs : (lookup_mimetype (codes "/www/a.b.css")).name ≡ codes "text/css"
unfolding lookup_mimetype ncmp
css_runs = refl

-- A name with no dot is its own ending.
bare_runs : (lookup_mimetype (codes "html")).name ≡ codes "text/html"
unfolding lookup_mimetype ncmp
bare_runs = refl

parseable_runs : parseable_file (codes "index.lws") ≡ true
unfolding parseable_file ncmp
parseable_runs = refl

lookup_mimetype-IsFirst_example :
    IsFirst mime_types (codes "svg") (lookup_mimetype (codes "/www/a.svg"))
lookup_mimetype-IsFirst_example =
    lookup_mimetype-IsFirst (codes "/www/a") (codes "vg") b's' (refl, (refl, (refl, tt)))
