-- ===== src/Methods/Dispatch.antt =====
-- methods.c: a method is told from the others by its letters, whatever their case.
use jawas.Base.{
  Bool, true, false, ◌&&◌, List, [], ◌∷◌, none, some, ◌≡◌, ◌≢◌, ◌↔◌, refl, sym, ap, ◌∙◌, ◌==◌,
  if◌then◌else◌, Bool-cases, inl, inr, length, map, All, drop, Bool_ext, Bytes, codes,
}
use jawas.Str.{icmp, upper}
use jawas.Str.Compare.{icmp_iff}
use jawas.Methods.{
  get_method, MethodDispatch, gdispatch, same_letters, find_method, Action, get, action_or,
  dispatch_method,
}

-- The row's test is `icmp`.
row_icmp :
    (a b : Bytes) → (length a == length b && same_letters a b (length a)) ≡ icmp (some a) (some b)
unfolding same_letters icmp
row_icmp a b = elim (Bool-cases (length a == length b)) [
  | inl e ↦ simp e refl
  | inr e ↦ simp e refl
]

find_method-step :
    (r : MethodDispatch) (rest : List MethodDispatch) (m : Bytes)
    → find_method (r ∷ rest) m
      ≡ (if icmp (some r.name) (some m) then some r.handler else find_method rest m)
unfolding find_method
find_method-step r rest m =
    ap (λ b. if b then some r.handler else find_method rest m) (row_icmp r.name m)

-- The letters of a method, in upper case.
abbrev pub letters : Bytes → Bytes
letters m = map upper m

icmp-letters :
    (n a b : Bytes) → letters a ≡ letters b → icmp (some n) (some a) ≡ icmp (some n) (some b)
icmp-letters n a b e =
    Bool_ext _ _ (λ h. (icmp_iff (some n) (some b)).1 ((icmp_iff (some n) (some a)).0 h ∙ e))
      (λ h. (icmp_iff (some n) (some a)).1 ((icmp_iff (some n) (some b)).0 h ∙ sym e))

find_method-letters :
    (rows : List MethodDispatch) (a b : Bytes)
    → letters a ≡ letters b
    → find_method rows a ≡ find_method rows b
unfolding find_method
find_method-letters [] a b e = refl
find_method-letters (r ∷ rest) a b e =
    find_method-step r rest a
    ∙ ap (λ t. if t then some r.handler else find_method rest a) (icmp-letters r.name a b e)
    ∙ ap (λ t. if icmp (some r.name) (some b) then some r.handler else t)
        (find_method-letters rest a b e)
    ∙ sym (find_method-step r rest b)

-- Two methods with the same letters, whatever their case, are answered in the same way.
pub dispatch_method-letters :
    (a b : Bytes) → letters a ≡ letters b → dispatch_method a ≡ dispatch_method b
unfolding dispatch_method
dispatch_method-letters a b e = ap action_or (find_method-letters gdispatch a b e)

-- Rows whose handlers answer otherwise never give the action.
find_method-never :
    (act : Action) (rows : List MethodDispatch) (m : Bytes)
    → action_or none ≢ act
    → All (λ r. action_or (some r.handler) ≢ act) rows
    → action_or (find_method rows m) ≢ act
unfolding find_method
find_method-never act [] m last h = last
find_method-never act (r ∷ rest) m last (hr, h) = elim (Bool-cases (icmp (some r.name) (some m))) [
  | inl hit ↦ λ e. hr (
      sym (
        ap action_or (
          find_method-step r rest m
          ∙ ap (λ t. if t then some r.handler else find_method rest m) hit))
      ∙ e)
  | inr miss ↦ λ e. find_method-never act rest m last h (
      sym (
        ap action_or (
          find_method-step r rest m
          ∙ ap (λ t. if t then some r.handler else find_method rest m) miss))
      ∙ e)
]

gdispatch_get :
    (m : Bytes)
    → dispatch_method m ≡ (
        if icmp (some (codes "GET")) (some m)
        then get
        else action_or (find_method (drop 1 gdispatch) m))
unfolding dispatch_method
gdispatch_get m =
    ap action_or
      (find_method-step (record { name = codes "GET"; handler = get_method }) (drop 1 gdispatch) m)
    ∙ moved (icmp (some (codes "GET")) (some m))
  where
    moved :
        (b : Bool)
        → action_or (if b then some get_method else find_method (drop 1 gdispatch) m)
          ≡ (if b then get else action_or (find_method (drop 1 gdispatch) m))
    moved true = refl
    moved false = refl

-- The page is asked for with no form before it exactly if the method's letters are those of GET.
pub dispatch_method-get : (m : Bytes) → (dispatch_method m ≡ get) ↔ (letters m ≡ codes "GET")
dispatch_method-get m = elim (Bool-cases (icmp (some (codes "GET")) (some m))) [
  | inl hit ↦ (
    (λ e. sym ((icmp_iff (some (codes "GET")) (some m)).0 hit)),
    (λ e.
        gdispatch_get m
        ∙ ap (λ b. if b then get else action_or (find_method (drop 1 gdispatch) m)) hit),
  )
  | inr miss ↦ (
    (λ e. absurd (
        others (
          sym (
            gdispatch_get m
            ∙ ap (λ b. if b then get else action_or (find_method (drop 1 gdispatch) m)) miss)
          ∙ e))),
    (λ e. absurd (cc (miss, (icmp_iff (some (codes "GET")) (some m)).1 (sym e)))),
  )
]
  where
    others : action_or (find_method (drop 1 gdispatch) m) ≢ get
    others =
        find_method-never get (drop 1 gdispatch) m (λ e. cc e)
          (
            (λ e. cc e),
            ((λ e. cc e), ((λ e. cc e), ((λ e. cc e), ((λ e. cc e), ((λ e. cc e), tt))))),
          )
