-- ===== src/Uri/Query.antt =====
-- uri.c, `parse_uri_encoded`: the fields of a well-formed query string come back, and the scan of any
-- text ends.
use jawas.Base.{
  ℕ, zero, suc, ◌+◌, ◌-◌, ◌≤◌, ◌<◌, true, false, List, [], ◌∷◌, ◌++◌, some, ◌≡◌, refl, sym, ap, ◌∙◌,
  map, arith, ltb, leb, length, length-append, length-drop, get_or, take, take-append, drop,
  drop_behind, All, Bytes, is_space, append_assoc, append-nil,
}
use jawas.Str.Fields.{skip_while, skip_while_stop, skip_while_end}
use jawas.Str.{from, one_of, find, find_from}
use jawas.Str.Search.{Clear, find_from-Clear, find_from_hit, find_from-nil, delimiters}
use jawas.Headers.{Headers, max_headers, over, append_header}
use jawas.Headers.Table.{IsValid, append_header_room, length-over}
use jawas.Headers.Print.{Field, slot_of}
use jawas.Uri.{form, keep_on, pairs_from, parse_uri_encoded}

-- `key=value` fields joined by `&`.
abbrev pub query_of : Field → List Field → Bytes
query_of f [] = f.key ++ b'=' ∷ f.value
query_of f (g ∷ fs) = f.key ++ b'=' ∷ (f.value ++ b'&' ∷ query_of g fs)

-- A key holds no `=`, and a value no `&`.
pub record IsPair (f : Field) : Type 0 where
  pub key_clear : All (Clear (b'=' ∷ [])) f.key
  pub value_clear : All (Clear (b'&' ∷ [])) f.value

-- Where `find` stops on a text that goes on with `p` and a delimiter, or with `p` alone.
find_at :
    (buf : Bytes) (i : ℕ) (delim : Bytes) (dl : ℕ) (p rest : Bytes) (d : ℕ)
    → All (Clear (delimiters delim dl)) p
    → one_of (delimiters delim dl) d ≡ true
    → drop i buf ≡ p ++ d ∷ rest
    → find buf i delim dl ≡ i + length p
unfolding find
find_at buf i delim dl p rest d hp hd e =
    ap (λ t. find_from (delimiters delim dl) t i) e
    ∙ find_from-Clear (delimiters delim dl) p (d ∷ rest) i hp
    ∙ find_from_hit (delimiters delim dl) rest d _ hd

find_end :
    (buf : Bytes) (i : ℕ) (delim : Bytes) (dl : ℕ) (p : Bytes)
    → All (Clear (delimiters delim dl)) p
    → drop i buf ≡ p
    → find buf i delim dl ≡ i + length p
unfolding find
find_end buf i delim dl p hp e =
    ap (λ t. find_from (delimiters delim dl) t i) (e ∙ sym (append-nil p))
    ∙ find_from-Clear (delimiters delim dl) p [] i hp
    ∙ find_from-nil (delimiters delim dl) _

-- One round, by where its two searches stop.
pairs_round :
    (fuel : ℕ) (buf : Bytes) (i o end : ℕ) (h : Headers)
    → find buf i (b'=' ∷ []) 1 ≡ o
    → find buf (o + 1) (b'&' ∷ 13 ∷ 10 ∷ []) 1 ≡ end
    → i < length buf
    → o < length buf
    → end ≤ length buf
    → pairs_from (suc fuel) buf i h
      ≡ keep_on (pairs_from fuel buf (end + 1)) (
          append_header
            (some h)
            (some (from buf i (o - i)))
            (some (from buf (o + 1) (end - (o + 1)))))
unfolding pairs_from
pairs_round fuel buf i o end h eo ee hi ho he = rw (eo, ee, no_end, no_i, no_o) refl
  where
    no_end : ltb (length buf) end ≡ false
    no_end = ground arith

    no_i : leb (length buf) i ≡ false
    no_i = ground arith

    no_o : leb (length buf) o ≡ false
    no_o = ground arith

-- One round over `key=value`, by where the search for the value's end stops.
field_round :
    (fuel : ℕ) (buf : Bytes) (i : ℕ) (h : Headers) (f : Field) (rest : Bytes)
    → All (Clear (b'=' ∷ [])) f.key
    → drop i buf ≡ f.key ++ b'=' ∷ (f.value ++ rest)
    → find buf (i + length f.key + 1) (b'&' ∷ 13 ∷ 10 ∷ []) 1
      ≡ i + length f.key + 1 + length f.value
    → pairs_from (suc fuel) buf i h
      ≡ keep_on
          (pairs_from fuel buf (i + length f.key + 1 + length f.value + 1))
          (append_header (some h) (some f.key) (some f.value))
unfolding one_of
field_round fuel buf i h f rest kc e stop =
    pairs_round fuel buf i o (o + 1 + length f.value) h
      (find_at buf i (b'=' ∷ []) 1 f.key (f.value ++ rest) b'=' kc refl e) stop (omega (arith, len))
      (omega (arith, len)) (omega (arith, len))
    ∙ ap
        (λ k. keep_on (pairs_from fuel buf (o + 1 + length f.value + 1)) (
          append_header (some h) (some k)
            (some (from buf (o + 1) (o + 1 + length f.value - (o + 1))))))
        key
    ∙ ap
        (λ v.
          keep_on (pairs_from fuel buf (o + 1 + length f.value + 1))
            (append_header (some h) (some f.key) (some v)))
        value
  where
    o : ℕ
    o = i + length f.key

    len : length buf - i ≡ length f.key + suc (length f.value + length rest)
    len =
        sym (length-drop i buf)
        ∙ ap length e
        ∙ length-append f.key (b'=' ∷ (f.value ++ rest))
        ∙ ap (λ n. length f.key + suc n) (length-append f.value rest)

    key : from buf i (o - i) ≡ f.key
    key = ap (take (o - i)) e ∙ take-append f.key (b'=' ∷ (f.value ++ rest)) (o - i) (omega arith)

    value : from buf (o + 1) (o + 1 + length f.value - (o + 1)) ≡ f.value
    value =
        ap (take (o + 1 + length f.value - (o + 1)))
          (drop_behind f.key (f.value ++ rest) b'=' i (o + 1) buf e refl)
        ∙ take-append f.value rest _ (omega arith)

pairs_from-end :
    (fuel : ℕ) (buf : Bytes) (i : ℕ) (h : Headers)
    → length buf ≤ i
    → pairs_from (suc fuel) buf i h ≡ form h
unfolding pairs_from
pairs_from-end fuel buf i h le = ground arith

-- The scan of a text from where a query string begins, if the table has room for its fields.
pairs_query :
    (fs : List Field) (f : Field) (buf : Bytes) (i fuel : ℕ) (h : Headers)
    → All IsPair (f ∷ fs)
    → drop i buf ≡ query_of f fs
    → IsValid h
    → length (over h) + length (f ∷ fs) ≤ max_headers
    → length (f ∷ fs) < fuel
    → (h' : Headers) × (pairs_from fuel buf i h ≡ form h')
      × (over h' ≡ over h ++ map slot_of (f ∷ fs))
unfolding keep_on one_of
pairs_query fs f buf i zero h ok e v room enough = absurd (omega arith)
pairs_query [] f buf i (suc zero) h ok e v room enough = absurd (omega arith)
pairs_query [] f buf i (suc (suc fuel)) h (okf, ok) e v room enough =
    let o = i + length f.key in
    let behind = drop_behind f.key f.value b'=' i (o + 1) buf e refl in
    let (h', set, v', over') =
      append_header_room h (some f.key) (some f.value) v (omega (arith, length-over h v)) in
    let e' : drop i buf ≡ f.key ++ b'=' ∷ (f.value ++ []) = rw (append-nil f.value) e in
    (
      h',
      field_round (suc fuel) buf i h f [] okf.key_clear e'
            (find_end buf (o + 1) (b'&' ∷ 13 ∷ 10 ∷ []) 1 f.value okf.value_clear behind)
          ∙ ap (keep_on (pairs_from (suc fuel) buf (o + 1 + length f.value + 1))) set
          ∙ pairs_from-end fuel buf _ h' (omega (arith, length-drop (o + 1) buf, ap length behind)),
      over',
    )
pairs_query (g ∷ fs) f buf i (suc fuel) h (okf, ok) e v room enough =
    let o = i + length f.key in
    let behind = drop_behind f.key (f.value ++ b'&' ∷ query_of g fs) b'=' i (o + 1) buf e refl in
    let (h', set, v', over') =
      append_header_room h (some f.key) (some f.value) v (omega (arith, length-over h v)) in
    let (h'', run, over'') =
      pairs_query fs g buf (o + 1 + length f.value + 1) fuel h' ok
        (drop_behind f.value (query_of g fs) b'&' (o + 1) _ buf behind refl) v'
        (omega (arith, ap length over', length-append (over h) (slot_of f ∷ []))) (omega arith) in
    (
      h'',
      field_round fuel buf i h f (b'&' ∷ query_of g fs) okf.key_clear e (
            find_at buf (o + 1) (b'&' ∷ 13 ∷ 10 ∷ []) 1 f.value (query_of g fs) b'&' okf.value_clear
              refl behind)
          ∙ ap (keep_on (pairs_from fuel buf (o + 1 + length f.value + 1))) set
          ∙ run,
      over'' ∙ ap (λ t. t ++ map slot_of (g ∷ fs)) over' ∙ append_assoc (over h) (slot_of f ∷ []) _,
    )

length-query_of : (f : Field) (fs : List Field) → length (f ∷ fs) ≤ length (query_of f fs)
length-query_of f [] = omega (arith, length-append f.key (b'=' ∷ f.value))
length-query_of f (g ∷ fs) = omega (
  arith,
  length-append f.key (b'=' ∷ (f.value ++ b'&' ∷ query_of g fs)),
  length-append f.value (b'&' ∷ query_of g fs),
  length-query_of g fs,
)

-- A text that from `pos` on is a query string whose first byte is no space, on a valid table with room
-- for its fields: the scan ends, and the fields stand behind the table's own, in order.
pub parse_uri_encoded-query_of :
    (h : Headers) (buf : Bytes) (pos : ℕ) (f : Field) (fs : List Field)
    → IsValid h
    → length (over h) + length (f ∷ fs) ≤ max_headers
    → All IsPair (f ∷ fs)
    → is_space (get_or (query_of f fs) 0 0) ≡ false
    → drop pos buf ≡ query_of f fs
    → (h' : Headers) × (parse_uri_encoded (some h) (some buf) pos ≡ form h')
      × (over h' ≡ over h ++ map slot_of (f ∷ fs))
unfolding parse_uri_encoded
parse_uri_encoded-query_of h buf pos f fs v room ok starts e =
    let (h', run, o) =
      pairs_query fs f buf pos (suc (length buf)) h ok e v room
        (omega (arith, length-drop pos buf, ap length e, length-query_of f fs)) in
    (h', ap (λ i. pairs_from (suc (length buf)) buf i h) (stays (query_of f fs) starts e) ∙ run, o)
  where
    stays :
        (q : Bytes)
        → is_space (get_or q 0 0) ≡ false
        → drop pos buf ≡ q
        → skip_while is_space (drop pos buf) pos ≡ pos
    stays [] h e =
        ap (λ t. skip_while is_space t pos) e ∙ omega (arith, skip_while_end is_space [] pos tt)
    stays (c ∷ q) h e = ap (λ t. skip_while is_space t pos) e ∙ skip_while_stop is_space c q pos h
