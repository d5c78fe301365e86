-- ===== src/Requests/Log/Tests.antt =====
-- The list of requests: a run, and the instance of its theorem.
use jawas.Base.{[], ◌∷◌, some, none, ◌≡◌, refl, codes, map, ℕ, List}
use jawas.Str.{cmp}
use jawas.Usage.{new_usage, stop_usage}
use jawas.Requests.Log.{RequestInfo, end_request}

abbrev made : List RequestInfo
made = record { host = some (codes "h"); path = some (codes "/"); time = 0; hits = 1 } ∷ []

abbrev hits_of : List RequestInfo → List ℕ
hits_of = map (λ i. i.hits)

again_runs :
    hits_of (end_request none (some (codes "h")) (some (codes "/")) new_usage made).0 ≡ 2 ∷ []
unfolding end_request cmp
again_runs = refl

other_runs :
    hits_of (end_request none (some (codes "g")) (some (codes "/")) new_usage made).0 ≡ 1 ∷ 1 ∷ []
unfolding end_request stop_usage new_usage cmp
other_runs = refl
