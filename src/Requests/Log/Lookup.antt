-- ===== src/Requests/Log/Lookup.antt =====
-- requests.c, `end_request`: what the list says of every request behind the end of one.
use jawas.Base.{Bool, ◌&&◌, List, [], ◌∷◌, Option, none, some, if◌then◌else◌, Str}
use jawas.Str.{cmp}
use jawas.Usage.{Usage}
use jawas.Requests.Log.{RequestInfo, of_request, hit}

-- The first entry of a host and a path.
abbrev pub lookup : Str → Str → List RequestInfo → Option RequestInfo
lookup host path [] = none
lookup host path (i ∷ ri) = if of_request host path i then some i else lookup host path ri

-- The entry behind one more request: a first one has the hits and the time of its usage.
abbrev pub renewed : Str → Str → Usage → Option RequestInfo → RequestInfo
renewed host path u none = record { host = host; path = path; time = u.time; hits = u.hits }
renewed host path u (some i) = hit u.time i

abbrev pub same_request : (host path h p : Str) → Bool
same_request host path h p = cmp host h && cmp path p

-- What a list says of a request, behind one more of `host` and `path`.
abbrev after :
    (host path : Str) (u : Usage) (ri : List RequestInfo) (h p : Str) → Option RequestInfo
after host path u ri h p =
    if same_request host path h p
    then some (renewed host path u (lookup host path ri))
    else lookup h p ri
