-- ===== src/Lua/Json/RoundTrip.antt =====
-- lua_json.c: what is shown in JSON's notation is read back.
use jawas.Base.{
  ℕ, zero, suc, ◌+◌, ◌*◌, ◌≤◌, Bool, true, false, ◌||◌, [], ◌∷◌, ◌++◌, Option, some, ◌≡◌, refl, ap,
  ◌∙◌, arith, if◌then◌else◌, length, length-append, append_assoc, drop, take, take-append, All,
  Bytes, ◌>>=◌,
}
use jawas.Lua.{Lua}
use jawas.Lua.Json.{
  array_end, bracket, space, object_end, quote, backslash, head, Cursor, cursor, advance,
  quoted_from, skip_until, Read, quoted_string, string_or_token, field_key, array_from, object_from,
  parse_json_object, parse_string_from, parse_json_string, found_at, returned, ends_element,
  ends_field,
}
use jawas.Lua.Json.Values.{
  Value, string, list, table, Items, no_items, item, Fields, no_fields, field, IsPlain, quoted,
  Plain, PlainItems, PlainFields, shown, shown_items, shown_fields, made, filled, assigned,
}

quoted_from-plain :
    (t rest : Bytes)
    → All (λ c. (quote c || backslash c) ≡ false) t
    → quoted_from (t ++ b'"' ∷ rest) ≡ (t, b'"' ∷ rest, length t)
unfolding quoted_from
quoted_from-plain [] [] h = refl
quoted_from-plain [] (d ∷ rest) h = refl
quoted_from-plain (c ∷ []) rest (hc, h) = let ih = quoted_from-plain [] rest h in ground arith
quoted_from-plain (c ∷ d ∷ t) rest (hc, h) =
    let ih = quoted_from-plain (d ∷ t) rest h in ground arith

module _ (lua : Lua) where
  string_or_token_quoted :
      (t rest : Bytes) (p : ℕ) (s : lua.State)
      → IsPlain t
      → string_or_token lua (cursor (b'"' ∷ t ++ b'"' ∷ rest) p) s
        ≡ (cursor (b'"' ∷ rest) (suc p + length t), lua.push_string t s)
  unfolding string_or_token quoted_string
  string_or_token_quoted [] rest p s h = absurd (h.0 refl)
  string_or_token_quoted (c ∷ t) rest p s h = rw (quoted_from-plain (c ∷ t) rest h.1) refl

  field_key_quoted :
      (t rest : Bytes) (b p : ℕ) (s : lua.State)
      → IsPlain t
      → space b ≡ false
      → field_key lua (cursor (b'"' ∷ t ++ b'"' ∷ b':' ∷ b ∷ rest) p) s
        ≡ (cursor (b ∷ rest) (p + length t + 3), lua.push_string t s)
  unfolding field_key skip_until
  field_key_quoted t rest b p s h hb =
      rw (string_or_token_quoted t (b':' ∷ b ∷ rest) p s h, hb)
        (ap (λ q. (cursor (b ∷ rest) q, lua.push_string t s)) (omega arith))

  -- A round of the loop of `parse_array` behind the value that it read.
  abbrev array_behind : ℕ → ℕ → ℕ → Read lua → Option (Read lua)
  array_behind fuel j n (c₁, s₁) =
      let c₂ = skip_until (ends_element lua) c₁.rest c₁.pos in
      let s₂ = lua.set_table n s₁ in
      let again = array_from lua fuel (drop 1 c₂.rest) (suc c₂.pos) (suc j) n s₂ in
      if array_end (head c₂.rest) then some (advance c₂, s₂) else again

  abbrev object_behind : ℕ → ℕ → Read lua → Option (Read lua)
  object_behind fuel n (c₂, s₂) =
      let c₃ = skip_until (ends_field lua) c₂.rest c₂.pos in
      let s₃ = lua.set_table n s₂ in
      let again = object_from lua fuel (drop 1 c₃.rest) (suc c₃.pos) n s₃ in
      if object_end (head c₃.rest) then some (advance c₃, s₃) else again

  -- The reader of a value, at its first byte.
  abbrev read_value : ℕ → Bytes → ℕ → lua.State → Option (Read lua)
  read_value fuel t p s =
      let nested = parse_json_object lua fuel t p s in
      if bracket (head t) then nested else some (string_or_token lua (cursor t p) s)

  array_from_value :
      (fuel : ℕ) (v : Value) (t : Bytes) (p j n : ℕ) (s : lua.State) (r : Read lua)
      → read_value fuel (shown v ++ t) p (lua.push_number (suc j) s) ≡ some r
      → array_from lua (suc fuel) (shown v ++ t) p j n s ≡ array_behind fuel j n r
  unfolding parse_json_object shown
  array_from_value fuel (string x) t p j n s r e = ap (λ o. o >>= array_behind fuel j n) e
  array_from_value fuel (list xs) t p j n s r e = ap (λ o. o >>= array_behind fuel j n) e
  array_from_value fuel (table fs) t p j n s r e = ap (λ o. o >>= array_behind fuel j n) e

  -- A reader that leaves the position just before `t`, up to a quote, and the state `s`.
  record IsRead (o : Option (Read lua)) (b : ℕ) (t : Bytes) (p : ℕ) (s : lua.State) : Type 0 where
    at : Cursor
    reads : o ≡ some (at, s)
    goes_on :
        (stops : ℕ → Bool)
        → stops b'"' ≡ false
        → stops b ≡ true
        → skip_until stops at.rest at.pos ≡ cursor (b ∷ t) p

  skip_until_here :
      (stops : ℕ → Bool) (b p : ℕ) (t : Bytes)
      → stops b ≡ true
      → skip_until stops (b ∷ t) p ≡ cursor (b ∷ t) p
  unfolding skip_until
  skip_until_here stops b p t h = rw h refl

  skip_until_quote :
      (stops : ℕ → Bool) (b p : ℕ) (t : Bytes)
      → stops b'"' ≡ false
      → stops b ≡ true
      → skip_until stops (b'"' ∷ b ∷ t) p ≡ cursor (b ∷ t) (suc p)
  unfolding skip_until
  skip_until_quote stops b p t h g = rw (h, g) refl

  string-IsRead :
      (fuel : ℕ) (x t : Bytes) (b p : ℕ) (s : lua.State)
      → IsPlain x
      → IsRead
          (read_value fuel (quoted x ++ b ∷ t) p s)
          b
          t
          (p + length (quoted x))
          (lua.push_string x s)
  string-IsRead fuel x t b p s h = record {
    at = cursor (b'"' ∷ b ∷ t) (suc p + length x);
    reads =
        ap (λ y. some (string_or_token lua (cursor (b'"' ∷ y) p) s))
          (append_assoc x (b'"' ∷ []) (b ∷ t))
        ∙ ap some (string_or_token_quoted x (b ∷ t) p s h);
    goes_on = λ stops no_quote there.
        skip_until_quote stops b (suc p + length x) t no_quote there
        ∙ ap (cursor (b ∷ t)) (omega (arith, length-append x (b'"' ∷ [])));
  }

  array_behind_last :
      (fuel j n p : ℕ) (o : Option (Read lua)) (t : Bytes) (s : lua.State) (r : IsRead o b']' t p s)
      → array_behind fuel j n (r.at, s) ≡ some (cursor t (suc p), lua.set_table n s)
  array_behind_last fuel j n p o t s r = rw (r.goes_on (ends_element lua) refl refl) refl

  array_behind_comma :
      (fuel j n p : ℕ) (o : Option (Read lua)) (t : Bytes) (s : lua.State) (r : IsRead o b',' t p s)
      → array_behind fuel j n (r.at, s)
        ≡ array_from lua fuel t (suc p) (suc j) n (lua.set_table n s)
  array_behind_comma fuel j n p o t s r = rw (r.goes_on (ends_element lua) refl refl) refl

  object_behind_last :
      (fuel n p : ℕ) (o : Option (Read lua)) (t : Bytes) (s : lua.State) (r : IsRead o b'}' t p s)
      → object_behind fuel n (r.at, s) ≡ some (cursor t (suc p), lua.set_table n s)
  object_behind_last fuel n p o t s r = rw (r.goes_on (ends_field lua) refl refl) refl

  object_behind_comma :
      (fuel n p : ℕ) (o : Option (Read lua)) (t : Bytes) (s : lua.State) (r : IsRead o b',' t p s)
      → object_behind fuel n (r.at, s) ≡ object_from lua fuel t (suc p) n (lua.set_table n s)
  object_behind_comma fuel n p o t s r = rw (r.goes_on (ends_field lua) refl refl) refl

  field_key-shown :
      (k : Bytes) (v : Value) (t : Bytes) (p : ℕ) (s : lua.State)
      → IsPlain k
      → field_key lua (cursor (quoted k ++ (b':' ∷ (shown v ++ t))) p) s
        ≡ (cursor (shown v ++ t) (p + length k + 3), lua.push_string k s)
  unfolding shown
  field_key-shown k v t p s h =
      ap (λ y. field_key lua (cursor (b'"' ∷ y) p) s)
        (append_assoc k (b'"' ∷ []) (b':' ∷ (shown v ++ t)))
      ∙ begun v
    where
      begun :
          (u : Value)
          → field_key lua (cursor (b'"' ∷ k ++ (b'"' ∷ b':' ∷ (shown u ++ t))) p) s
            ≡ (cursor (shown u ++ t) (p + length k + 3), lua.push_string k s)
      begun (string x) = field_key_quoted k _ b'"' p s h refl
      begun (list xs) = field_key_quoted k _ b'[' p s h refl
      begun (table fs) = field_key_quoted k _ b'{' p s h refl

  object_from_value :
      (fuel : ℕ) (k : Bytes) (v : Value) (t : Bytes) (p n : ℕ) (s : lua.State) (r : Read lua)
      → IsPlain k
      → read_value fuel (shown v ++ t) (p + length k + 3) (lua.push_string k s) ≡ some r
      → object_from lua (suc fuel) (quoted k ++ (b':' ∷ (shown v ++ t))) p n s
        ≡ object_behind fuel n r
  unfolding parse_json_object
  object_from_value fuel k v t p n s r h e =
      ap (λ x. read_value fuel x.0.rest x.0.pos x.1 >>= object_behind fuel n)
        (field_key-shown k v t p s h)
      ∙ ap (λ o. o >>= object_behind fuel n) e

  size_field : (k y : Bytes) → length (quoted k ++ (b':' ∷ y)) ≡ length k + 3 + length y
  size_field k y = omega (arith, length-append (quoted k) (b':' ∷ y), length-append k (b'"' ∷ []))

  regrouped :
      (k v y t : Bytes)
      → (quoted k ++ (b':' ∷ (v ++ y))) ++ t ≡ quoted k ++ (b':' ∷ (v ++ (y ++ t)))
  regrouped k v y t = simp append_assoc

  mutual
    unfolding parse_json_object shown Plain made

    value-IsRead :
        (v : Value) (fuel : ℕ) (t : Bytes) (b p : ℕ) (s : lua.State)
        → Plain v
        → 2 * length (shown v) ≤ fuel
        → IsRead (read_value fuel (shown v ++ b ∷ t) p s) b t (p + length (shown v)) (made lua v s)
    value-IsRead (string x) fuel t b p s h le = string-IsRead fuel x t b p s h
    value-IsRead (list xs) zero t b p s h le = absurd (omega arith)
    value-IsRead (list xs) (suc fuel) t b p s h le = record {
      at = cursor (b ∷ t) (p + suc (length (shown_items xs)));
      reads =
          items_read xs fuel (b ∷ t) (suc p) 0 (lua.get_top (lua.new_table s)) (lua.new_table s) h
            (omega arith)
          ∙ ap (λ q. some (cursor (b ∷ t) q, made lua (list xs) s)) (omega arith);
      goes_on = λ stops no_quote there. skip_until_here stops b _ t there;
    }
    value-IsRead (table fs) zero t b p s h le = absurd (omega arith)
    value-IsRead (table fs) (suc fuel) t b p s h le = record {
      at = cursor (b ∷ t) (p + suc (length (shown_fields fs)));
      reads =
          fields_read fs fuel (b ∷ t) (suc p) (lua.get_top (lua.new_table s)) (lua.new_table s) h
            (omega arith)
          ∙ ap (λ q. some (cursor (b ∷ t) q, made lua (table fs) s)) (omega arith);
      goes_on = λ stops no_quote there. skip_until_here stops b _ t there;
    }

    items_read :
        (xs : Items) (fuel : ℕ) (t : Bytes) (p j n : ℕ) (s : lua.State)
        → PlainItems xs
        → 2 * length (shown_items xs) + 1 ≤ fuel
        → array_from lua fuel (shown_items xs ++ t) p j n s
          ≡ some (cursor t (p + length (shown_items xs)), filled lua xs n (suc j) s)
    items_read xs zero t p j n s h le = absurd (omega arith)
    items_read no_items (suc fuel) t p j n s h le = ap (λ q. some (cursor t q, s)) (omega arith)
    items_read (item v no_items) (suc fuel) t p j n s h le =
        let r =
          value-IsRead v fuel t b']' p (lua.push_number (suc j) s) h.0
            (omega (arith, length-append (shown v) (b']' ∷ []))) in
        ap (λ y. array_from lua (suc fuel) y p j n s) (append_assoc (shown v) (b']' ∷ []) t)
        ∙ array_from_value fuel v (b']' ∷ t) p j n s _ r.reads
        ∙ array_behind_last fuel j n _ _ t _ r
        ∙ ap (λ q. some (cursor t q, lua.set_table n (made lua v (lua.push_number (suc j) s))))
            (omega (arith, length-append (shown v) (b']' ∷ [])))
    items_read (item v (item w ws)) (suc fuel) t p j n s h le =
        let others = shown_items (item w ws) in
        let r =
          value-IsRead v fuel (others ++ t) b',' p (lua.push_number (suc j) s) h.0
            (omega (arith, length-append (shown v) (b',' ∷ others))) in
        ap (λ y. array_from lua (suc fuel) y p j n s) (append_assoc (shown v) (b',' ∷ others) t)
        ∙ array_from_value fuel v (b',' ∷ others ++ t) p j n s _ r.reads
        ∙ array_behind_comma fuel j n _ _ (others ++ t) _ r
        ∙ items_read (item w ws) fuel t (suc (p + length (shown v))) (suc j) n _ h.1
            (omega (arith, length-append (shown v) (b',' ∷ others)))
        ∙ ap (λ q. some (cursor t q, filled lua (item v (item w ws)) n (suc j) s))
            (omega (arith, length-append (shown v) (b',' ∷ others)))

    fields_read :
        (fs : Fields) (fuel : ℕ) (t : Bytes) (p n : ℕ) (s : lua.State)
        → PlainFields fs
        → 2 * length (shown_fields fs) + 1 ≤ fuel
        → object_from lua fuel (shown_fields fs ++ t) p n s
          ≡ some (cursor t (p + length (shown_fields fs)), assigned lua fs n s)
    fields_read fs zero t p n s h le = absurd (omega arith)
    fields_read no_fields (suc fuel) t p n s h le = ap (λ q. some (cursor t q, s)) (omega arith)
    fields_read (field k v no_fields) (suc fuel) t p n s h le =
        let sizes = length-append (shown v) (b'}' ∷ []) in
        let r =
          value-IsRead v fuel t b'}' (p + length k + 3) (lua.push_string k s) h.1
            (omega (arith, sizes, size_field k (shown v ++ b'}' ∷ []))) in
        ap (λ y. object_from lua (suc fuel) y p n s) (regrouped k (shown v) (b'}' ∷ []) t)
        ∙ object_from_value fuel k v (b'}' ∷ t) p n s _ h.0 r.reads
        ∙ object_behind_last fuel n _ _ t _ r
        ∙ ap (λ q. some (cursor t q, lua.set_table n (made lua v (lua.push_string k s))))
            (omega (arith, sizes, size_field k (shown v ++ b'}' ∷ [])))
    fields_read (field k v (field l w ws)) (suc fuel) t p n s h le =
        let others = shown_fields (field l w ws) in
        let sizes = length-append (shown v) (b',' ∷ others) in
        let size = size_field k (shown v ++ b',' ∷ others) in
        let r =
          value-IsRead v fuel (others ++ t) b',' (p + length k + 3) (lua.push_string k s) h.1
            (omega (arith, sizes, size)) in
        ap (λ y. object_from lua (suc fuel) y p n s) (regrouped k (shown v) (b',' ∷ others) t)
        ∙ object_from_value fuel k v (b',' ∷ others ++ t) p n s _ h.0 r.reads
        ∙ object_behind_comma fuel n _ _ (others ++ t) _ r
        ∙ fields_read (field l w ws) fuel t (suc (p + length k + 3 + length (shown v))) n _ h.2
            (omega (arith, sizes, size))
        ∙ ap (λ q. some (cursor t q, assigned lua (field k v (field l w ws)) n s))
            (omega (arith, sizes, size))

  -- A list or a table, which stands in brackets.
  abbrev pub IsBracketed : Value → Type 0
  IsBracketed (string t) = ⊥
  IsBracketed (list xs) = Unit
  IsBracketed (table fs) = Unit

  parse_json_object-shown :
      (v : Value) (fuel : ℕ) (t : Bytes) (p : ℕ) (s : lua.State)
      → Plain v
      → IsBracketed v
      → 2 * length (shown v) ≤ fuel
      → parse_json_object lua fuel (shown v ++ t) p s
        ≡ some (cursor t (p + length (shown v)), made lua v s)
  unfolding parse_json_object shown Plain made
  parse_json_object-shown (string x) fuel t p s h b le = absurd b
  parse_json_object-shown (list xs) zero t p s h b le = absurd (omega arith)
  parse_json_object-shown (list xs) (suc fuel) t p s h b le =
      items_read xs fuel t (suc p) 0 (lua.get_top (lua.new_table s)) (lua.new_table s) h
        (omega arith)
      ∙ ap (λ q. some (cursor t q, made lua (list xs) s)) (omega arith)
  parse_json_object-shown (table fs) zero t p s h b le = absurd (omega arith)
  parse_json_object-shown (table fs) (suc fuel) t p s h b le =
      fields_read fs fuel t (suc p) (lua.get_top (lua.new_table s)) (lua.new_table s) h
        (omega arith)
      ∙ ap (λ q. some (cursor t q, made lua (table fs) s)) (omega arith)

  parse_string_from-shown :
      (v : Value) (fuel : ℕ) (t : Bytes) (s : lua.State)
      → IsBracketed v
      → parse_string_from lua fuel (shown v ++ t) 0 s
        ≡ (parse_json_object lua fuel (shown v ++ t) 0 s >>= found_at lua 0)
  unfolding parse_string_from shown
  parse_string_from-shown (string x) fuel t s b = absurd b
  parse_string_from-shown (list xs) fuel t s b = refl
  parse_string_from-shown (table fs) fuel t s b = refl

  -- A list or a table of plain strings, lists and tables, nested to any depth and shown in JSON's
  -- notation, is made on Lua's stack as it stands, whatever follows it, and its text is returned; fuel
  -- for two calls or rounds to a byte is enough.
  pub parse_json_string-shown :
      (v : Value) (t : Bytes) (s : lua.State)
      → Plain v
      → IsBracketed v
      → parse_json_string lua (2 * length (shown v ++ t)) (shown v ++ t) s
        ≡ some (some (shown v), made lua v s)
  unfolding parse_json_string
  parse_json_string-shown v t s h b =
      ap (λ o. o >>= returned lua (shown v ++ t))
        (parse_string_from-shown v _ t s b
          ∙ ap (λ o. o >>= found_at lua 0)
              (parse_json_object-shown v _ t 0 s h b (omega (arith, length-append (shown v) t))))
      ∙ ap (λ x. some (some x, made lua v s))
          (ap (λ k. take k (shown v ++ t)) (omega arith)
            ∙ take-append (shown v) t (length (shown v)) refl)
