-- ===== src/Requests/Log.antt =====
-- requests.c, `end_request`: the list of the requests that were made, each with its hits and their average
-- time.
pub mod Lookup
mod Tests
use jawas.Base.{
  ℕ, ◌+◌, ◌-◌, ◌*◌, ◌%◌, Bool, true, false, ◌&&◌, List, [], ◌∷◌, Option, none, some, if◌then◌else◌,
  ◌≡◌, refl, sym, ap, ◌∙◌, Str, All, map, Bool-cases, Bool_ext, inl, inr, ◌>>=◌,
}
use jawas.Str.{cmp}
use jawas.Str.Compare.{cmp_iff}
use jawas.Numbers.{int_mod}
use jawas.Usage.{Usage, Rusage, int_div, start_usage, stop_usage}

pub record RequestInfo : Type 0 where
  pub host : Str
  pub path : Str
  pub time : ℕ
  pub hits : ℕ

abbrev pub of_request : Str → Str → RequestInfo → Bool
of_request host path i = cmp i.host host && cmp i.path path

-- One more hit, whose time is `time`.
unfoldable pub hit : ℕ → RequestInfo → RequestInfo
hit time i =
    let hits = (i.hits + 1) % int_mod in
    record i { hits = hits; time = int_div ((time + (hits - 1) * i.time) % int_mod) hits }

-- The loop: `none` is that the request is not in the list.
unfoldable pub hit_in : Str → Str → ℕ → List RequestInfo → Option (List RequestInfo)
unfolding hit
hit_in host path time [] = none
hit_in host path time (i ∷ ri) =
    let rest = hit_in host path time ri >>= λ ri'. some (i ∷ ri') in
    if of_request host path i then some (hit time i ∷ ri) else rest

-- The list behind the request, and the usage that the request is left with.
unfoldable pub end_request :
    Option Rusage → Str → Str → Usage → List RequestInfo → List RequestInfo × Usage
unfolding hit_in
end_request now host path usage ri =
    let u = stop_usage now usage in
    (
      elim (hit_in host path u.time ri) [
        | none ↦ record { host = host; path = path; time = u.time; hits = u.hits } ∷ ri
        | some ri' ↦ ri'
      ],
      u,
    )

abbrev pub start_request : Option Rusage → Usage → Usage
start_request = start_usage

-- No request is in the list twice.
abbrev pub Distinct : List RequestInfo → Type 0
Distinct [] = Unit
Distinct (i ∷ ri) = All (λ j. of_request i.host i.path j ≡ false) ri × Distinct ri

abbrev pub is_listed : Str → Str → List RequestInfo → Bool
is_listed host path [] = false
is_listed host path (i ∷ ri) = if of_request host path i then true else is_listed host path ri

-- What holds of the list, if there is one.
unfoldable pub Kept : (List RequestInfo → Type 0) → Option (List RequestInfo) → Type 0
Kept P none = Unit
Kept P (some ri) = P ri

pub Kept-if :
    (P : List RequestInfo → Type 0) (b : Bool) (x y : Option (List RequestInfo))
    → (b ≡ true → Kept P x)
    → (b ≡ false → Kept P y)
    → Kept P (if b then x else y)
Kept-if P true x y hx hy = hx refl
Kept-if P false x y hx hy = hy refl

pub Kept-behind :
    (P Q : List RequestInfo → Type 0) (i : RequestInfo) (o : Option (List RequestInfo))
    → ((ri : List RequestInfo) → P ri → Q (i ∷ ri))
    → Kept P o
    → Kept Q (o >>= λ ri. some (i ∷ ri))
unfolding Kept
Kept-behind P Q i none f k = tt
Kept-behind P Q i (some ri) f k = f ri k

Kept-both :
    (P Q : List RequestInfo → Type 0) (o : Option (List RequestInfo))
    → Kept P o
    → Kept Q o
    → Kept (λ ri. P ri × Q ri) o
unfolding Kept
Kept-both P Q none p q = tt
Kept-both P Q (some ri) p q = (p, q)

hit_in-All :
    (h p host path : Str) (t : ℕ) (ri : List RequestInfo)
    → All (λ j. of_request h p j ≡ false) ri
    → Kept (All (λ j. of_request h p j ≡ false)) (hit_in host path t ri)
unfolding hit_in hit Kept
hit_in-All h p host path t [] a = tt
hit_in-All h p host path t (i ∷ ri) (a, as') =
    Kept-if (All (λ j. of_request h p j ≡ false)) (of_request host path i) _ _ (λ e. (a, as'))
      (λ e.
        Kept-behind (All (λ j. of_request h p j ≡ false)) (All (λ j. of_request h p j ≡ false)) i _
          (λ q b. (a, b)) (hit_in-All h p host path t ri as'))

hit_in-Distinct :
    (host path : Str) (t : ℕ) (ri : List RequestInfo)
    → Distinct ri
    → Kept Distinct (hit_in host path t ri)
unfolding hit_in hit Kept
hit_in-Distinct host path t [] d = tt
hit_in-Distinct host path t (i ∷ ri) (a, d) =
    Kept-if Distinct (of_request host path i) _ _ (λ e. (a, d))
      (λ e.
        Kept-behind (λ q. All (λ j. of_request i.host i.path j ≡ false) q × Distinct q) Distinct i _
          (λ q b. b)
          (Kept-both _ Distinct _ (hit_in-All i.host i.path host path t ri a)
            (hit_in-Distinct host path t ri d)))

hit_in-is_listed :
    (host path : Str) (t : ℕ) (ri : List RequestInfo)
    → Kept (λ q. is_listed host path q ≡ true) (hit_in host path t ri)
unfolding hit_in hit Kept
hit_in-is_listed host path t [] = tt
hit_in-is_listed host path t (i ∷ ri) =
    let listed = λ (q : List RequestInfo). is_listed host path q ≡ true in
    Kept-if listed (of_request host path i) _ _ (λ e. rw e refl)
      (λ e. Kept-behind listed listed i _ (λ q b. rw (e, b) refl) (hit_in-is_listed host path t ri))

missed :
    (o : Option (List RequestInfo)) (i : RequestInfo)
    → (o >>= λ ri. some (i ∷ ri)) ≡ none
    → o ≡ none
missed none i e = refl
missed (some ri) i e = absurd (cc e)

pub hit_in_missed :
    (host path : Str) (t : ℕ) (ri : List RequestInfo)
    → hit_in host path t ri ≡ none
    → All (λ j. of_request host path j ≡ false) ri
unfolding hit_in
hit_in_missed host path t [] e = tt
hit_in_missed host path t (i ∷ ri) e = elim (Bool-cases (of_request host path i)) [
  | inl yes' ↦ absurd (
      cc (
        sym (
          ap (λ b. if b then some (hit t i ∷ ri) else (hit_in host path t ri >>= λ q. some (i ∷ q)))
            yes')
        ∙ e))
  | inr other ↦
      let rest =
        sym (
          ap (λ b. if b then some (hit t i ∷ ri) else (hit_in host path t ri >>= λ q. some (i ∷ q)))
            other)
        ∙ e in
      (other, hit_in_missed host path t ri (missed (hit_in host path t ri) i rest))
]

recorded :
    (new : RequestInfo) (ri : List RequestInfo) (o : Option (List RequestInfo))
    → Distinct ri
    → (o ≡ none → All (λ j. of_request new.host new.path j ≡ false) ri)
    → Kept Distinct o
    → Kept (λ q. is_listed new.host new.path q ≡ true) o
    → Distinct (elim o [ none ↦ new ∷ ri | some q ↦ q ])
      × (is_listed new.host new.path (elim o [ none ↦ new ∷ ri | some q ↦ q ]) ≡ true)
unfolding Kept
recorded new ri none d miss k l =
    let own_host : cmp new.host new.host ≡ true = (cmp_iff new.host new.host).1 refl in
    let own_path : cmp new.path new.path ≡ true = (cmp_iff new.path new.path).1 refl in
    ((miss refl, d), rw (own_host, own_path) refl)
recorded new ri (some q) d miss k l = (k, l)

-- A list with no request twice stays one, and it holds the request that ended.
pub end_request-Distinct :
    (now : Option Rusage) (host path : Str) (u : Usage) (ri : List RequestInfo)
    → Distinct ri
    → Distinct (end_request now host path u ri).0
      × (is_listed host path (end_request now host path u ri).0 ≡ true)
unfolding end_request
end_request-Distinct now host path u ri d =
    let u' = stop_usage now u in
    recorded (record { host = host; path = path; time = u'.time; hits = u'.hits }) ri
      (hit_in host path u'.time ri) d (hit_in_missed host path u'.time ri)
      (hit_in-Distinct host path u'.time ri d) (hit_in-is_listed host path u'.time ri)
