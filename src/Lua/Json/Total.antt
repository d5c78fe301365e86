-- ===== src/Lua/Json/Total.antt =====
-- lua_json.c: the reader ends, whatever the text is.
use jawas.Base.{
  ℕ, zero, suc, ◌+◌, ◌-◌, Str, ◌*◌, ◌≤◌, Bool, true, false, not, [], ◌∷◌, Option, none, some, ◌≡◌,
  refl, ap, ◌∙◌, arith, if◌then◌else◌, length, drop, length-drop, Bytes, ◌>>=◌,
}
use jawas.Str.{from}
use jawas.Lua.{Lua}
use jawas.Lua.Json.{
  array_end, bracket, space, array, object_end, colon, head, Cursor, cursor, quoted_from,
  token_from, skip_until, Read, quoted_string, token, string_or_token, field_key, array_from,
  object_from, parse_json_object, parse_string_from, parse_json_string, Found, found_at, returned,
  ends_element, ends_field,
}

quoted_from-le : (t : Bytes) → length (quoted_from t).1 ≤ length t
unfolding quoted_from
quoted_from-le [] = omega arith
quoted_from-le (c ∷ []) = ground arith
quoted_from-le (c ∷ d ∷ rest) = ground (arith, quoted_from-le rest, quoted_from-le (d ∷ rest))

token_from-le : (t : Bytes) → length (token_from t).1 ≤ length t
unfolding token_from
token_from-le [] = omega arith
token_from-le (c ∷ rest) = ground (arith, token_from-le rest)

skip_until-le :
    (stops : ℕ → Bool) (t : Bytes) (p : ℕ) → length (skip_until stops t p).rest ≤ length t
unfolding skip_until
skip_until-le stops [] p = omega arith
skip_until-le stops (c ∷ rest) p = ground (arith, skip_until-le stops rest (suc p))

module _ (lua : Lua) where
  -- A reader that ends, with at most `k` bytes left.
  abbrev pub Ends : ℕ → Option (Read lua) → Type 0
  Ends k none = ⊥
  Ends k (some (c, s)) = length c.rest ≤ k

  Ends-if :
      (k : ℕ) (b : Bool) (x y : Option (Read lua))
      → (b ≡ true → Ends k x)
      → (b ≡ false → Ends k y)
      → Ends k (if b then x else y)
  Ends-if k true x y f g = f refl
  Ends-if k false x y f g = g refl

  Ends->>= :
      (m k : ℕ) (o : Option (Read lua)) (f : Read lua → Option (Read lua))
      → Ends m o
      → ((c : Cursor) (s : lua.State) → length c.rest ≤ m → Ends k (f (c, s)))
      → Ends k (o >>= f)
  Ends->>= m k none f h g = absurd h
  Ends->>= m k (some (c, s)) f h g = g c s h

  Ends-le : (m k : ℕ) (o : Option (Read lua)) → Ends m o → m ≤ k → Ends k o
  Ends-le m k none h le = h
  Ends-le m k (some (c, s)) h le = omega arith

  string_or_token-le :
      (c : Cursor) (s : lua.State) → length (string_or_token lua c s).0.rest ≤ length c.rest
  unfolding string_or_token quoted_string token
  string_or_token-le c s = ground (
    arith,
    quoted_from-le c.rest,
    quoted_from-le (drop 1 c.rest),
    token_from-le c.rest,
    length-drop 1 c.rest,
  )

  field_key-le :
      (b : ℕ) (t : Bytes) (p : ℕ) (s : lua.State)
      → length (field_key lua (cursor (b ∷ t) p) s).0.rest ≤ length t
  unfolding field_key
  field_key-le b t p s =
      let (c, s') = string_or_token lua (cursor (b ∷ t) p) s in
      let c₂ = skip_until colon c.rest c.pos in
      omega (
        arith,
        skip_until-le (λ x. not (space x)) (drop 1 c₂.rest) (suc c₂.pos),
        length-drop 1 c₂.rest,
        skip_until-le colon c.rest c.pos,
        string_or_token-le (cursor (b ∷ t) p) s,
      )

  -- What stands behind a value, in both loops.
  behind-Ends :
      (k : ℕ) (stops : ℕ → Bool) (c : Cursor) (b : Bool) (s : lua.State) (again : Option (Read lua))
      → length c.rest ≤ suc k
      → Ends k again
      → Ends k (
          if b
          then some (
            cursor
                (drop 1 (skip_until stops c.rest c.pos).rest)
                (suc (skip_until stops c.rest c.pos).pos),
            s,
          )
          else again)
  behind-Ends k stops c true s again le h =
      omega (
        arith,
        length-drop 1 (skip_until stops c.rest c.pos).rest,
        skip_until-le stops c.rest c.pos,
      )
  behind-Ends k stops c false s again le h = h

  past_stop :
      (k : ℕ) (stops : ℕ → Bool) (c : Cursor)
      → length c.rest ≤ suc k
      → length (drop 1 (skip_until stops c.rest c.pos).rest) ≤ k
  past_stop k stops c le =
      omega (
        arith,
        length-drop 1 (skip_until stops c.rest c.pos).rest,
        skip_until-le stops c.rest c.pos,
      )

  mutual
    unfolding parse_json_object

    array_from-Ends :
        (fuel : ℕ) (t : Bytes) (p j n : ℕ) (s : lua.State)
        → 2 * length t + 1 ≤ fuel
        → Ends (length t) (array_from lua fuel t p j n s)
    array_from-Ends zero t p j n s le = absurd (omega arith)
    array_from-Ends (suc fuel) [] p j n s le = omega arith
    array_from-Ends (suc fuel) (b ∷ t) p j n s le =
        Ends-if _ (space b) _ _
          (λ _.
            Ends-le (length t) _ _ (array_from-Ends fuel t (suc p) j n s (omega arith))
              (omega arith))
          (λ _.
            Ends-if _ (array_end b) _ _ (λ _. omega arith)
              (λ _.
                Ends->>= (suc (length t)) _ _ _
                  (Ends-if _ (bracket b) _ _
                    (λ _.
                      Ends-le (length t) _ _
                        (parse_json_object-Ends fuel (b ∷ t) p (lua.push_number (suc j) s)
                          (omega arith) (omega arith))
                        (omega arith))
                    (λ _. string_or_token-le (cursor (b ∷ t) p) (lua.push_number (suc j) s)))
                  (λ c s₁ short.
                    Ends-le (length t) _ _
                      (behind-Ends (length t) (ends_element lua) c _ _ _ short (
                        let room = past_stop (length t) (ends_element lua) c short in
                        Ends-le _ _ _
                          (array_from-Ends fuel
                            (drop 1 (skip_until (ends_element lua) c.rest c.pos).rest) _ _ _ _
                            (omega arith))
                          room))
                      (omega arith))))

    object_from-Ends :
        (fuel : ℕ) (t : Bytes) (p n : ℕ) (s : lua.State)
        → 2 * length t + 1 ≤ fuel
        → Ends (length t) (object_from lua fuel t p n s)
    object_from-Ends zero t p n s le = absurd (omega arith)
    object_from-Ends (suc fuel) [] p n s le = omega arith
    object_from-Ends (suc fuel) (b ∷ t) p n s le =
        let (c₁, s₁) = field_key lua (cursor (b ∷ t) p) s in
        let near = field_key-le b t p s in
        Ends-if _ (space b) _ _
          (λ _.
            Ends-le (length t) _ _ (object_from-Ends fuel t (suc p) n s (omega arith))
              (omega arith))
          (λ _.
            Ends-if _ (object_end b) _ _ (λ _. omega arith)
              (λ _.
                Ends->>= (length t) _ _ _
                  (Ends-if _ (bracket (head c₁.rest)) _ _
                    (λ _.
                      Ends-le (length (drop 1 c₁.rest)) _ _
                        (parse_json_object-Ends fuel c₁.rest c₁.pos s₁ (omega arith) (omega arith))
                        (omega (arith, length-drop 1 c₁.rest)))
                    (λ _.
                      Ends-le (length c₁.rest) _ (some (string_or_token lua c₁ s₁))
                        (string_or_token-le c₁ s₁) near))
                  (λ c s₂ short.
                    Ends-le (length t) _ _
                      (behind-Ends (length t) (ends_field lua) c _ _ _ (omega arith) (
                        let room = past_stop (length t) (ends_field lua) c (omega arith) in
                        Ends-le _ _ _
                          (object_from-Ends fuel
                            (drop 1 (skip_until (ends_field lua) c.rest c.pos).rest) _ _ _
                            (omega arith))
                          room))
                      (omega arith))))

    parse_json_object-Ends :
        (fuel : ℕ) (t : Bytes) (p : ℕ) (s : lua.State)
        → 2 * length t ≤ fuel
        → 2 ≤ fuel
        → Ends (length (drop 1 t)) (parse_json_object lua fuel t p s)
    parse_json_object-Ends zero t p s le two = absurd (omega arith)
    parse_json_object-Ends (suc fuel) t p s le two =
        Ends-if _ (array (head t)) _ _
          (λ _. array_from-Ends fuel (drop 1 t) (suc p) 0 _ _ (omega (arith, length-drop 1 t)))
          (λ _. object_from-Ends fuel (drop 1 t) (suc p) _ _ (omega (arith, length-drop 1 t)))

  found_some :
      (k p : ℕ) (o : Option (Read lua))
      → Ends k o
      → (r : Found lua) × ((o >>= found_at lua p) ≡ some r)
  found_some k p none h = absurd h
  found_some k p (some (c, s)) h = ((some (p, c), s), refl)

  found_if :
      (b : Bool) (x y : Option (Found lua))
      → ((r : Found lua) × (x ≡ some r))
      → ((r : Found lua) × (y ≡ some r))
      → (r : Found lua) × ((if b then x else y) ≡ some r)
  found_if true x y f g = f
  found_if false x y f g = g

  parse_string_from-some :
      (fuel : ℕ) (t : Bytes) (p : ℕ) (s : lua.State)
      → 2 * length t ≤ fuel
      → (r : Found lua) × (parse_string_from lua fuel t p s ≡ some r)
  unfolding parse_string_from
  parse_string_from-some fuel [] p s le = ((none, s), refl)
  parse_string_from-some fuel (b ∷ t) p s le =
      let on = parse_string_from-some fuel t (suc p) s (omega arith) in
      let nested = parse_json_object-Ends fuel (b ∷ t) p s le (omega arith) in
      found_if (space b) _ _ on (found_if (bracket b) _ _ (found_some _ p _ nested) on)

  returned-some :
      (src : Bytes) (r : Found lua)
      → (t : Str) × (s : lua.State) × (returned lua src r ≡ some (t, s))
  returned-some src (none, s) = (none, s, refl)
  returned-some src (some (i, c), s) = (some (from src i (c.pos - i)), s, refl)

  -- Whatever the text is, well formed or not, and whatever Lua answers, the reader ends: fuel for two
  -- calls or rounds to a byte is enough.
  pub parse_json_string_ends :
      (src : Bytes) (s : lua.State)
      → (t : Str) × (s' : lua.State) × (parse_json_string lua (2 * length src) src s ≡ some (t, s'))
  unfolding parse_json_string
  parse_json_string_ends src s =
      let (r, e) = parse_string_from-some (2 * length src) src 0 s (omega arith) in
      let (t, s', e') = returned-some src r in (t, s', ap (λ o. o >>= returned lua src) e ∙ e')
