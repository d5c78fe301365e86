-- ===== src/Requests/Line.antt =====
-- requests.c, the request line: `parse_method` and `parse_path` on a well-formed one.
use jawas.Base.{
  ℕ, suc, ◌+◌, ◌-◌, ◌≤◌, true, false, List, [], ◌∷◌, ◌++◌, none, some, ◌≡◌, refl, ap, ◌∙◌, arith,
  length, get_or, get_or-append, take, take-append, drop, drop-append, drop-append_past, All, map,
  Bytes, Str, is_space,
}
use native.Mathlib.Nat.{zero-add}
use jawas.Str.{from}
use jawas.Str.Fields.{skip_while, skip_while-append, skip_while_stop, Passes}
use jawas.Headers.{Headers, max_headers, new_headers, over}
use jawas.Headers.Table.{new_headers-IsValid}
use jawas.Headers.Print.{Field, slot_of}
use jawas.Uri.{form, parse_uri_encoded}
use jawas.Uri.Query.{query_of, IsPair, parse_uri_encoded-query_of}
use jawas.Requests.{until_space, in_word, in_path, parse_method, parse_path}

-- No byte is a space.
abbrev pub NoSpace : Bytes → Type 0
NoSpace = All (λ c. is_space c ≡ false)

until_space-NoSpace :
    (p rest : Bytes) (s i : ℕ)
    → NoSpace p
    → is_space s ≡ true
    → until_space (p ++ s ∷ rest) i ≡ some (i + length p)
unfolding until_space
until_space-NoSpace [] rest s i h hs = rw hs (ap some (omega arith))
until_space-NoSpace (c ∷ p) rest s i (hc, h) hs =
    rw hc (until_space-NoSpace p rest s (i + 1) h hs ∙ ap some (omega arith))

parse_method-at :
    (tmp : Bytes) (i stop : ℕ)
    → skip_while is_space tmp 0 ≡ i
    → until_space (drop (i + 1) tmp) (i + 1) ≡ some stop
    → parse_method (some tmp) ≡ some (some (from tmp i (stop - i)))
unfolding parse_method
parse_method-at tmp i stop e f = rw (e, f) refl

-- A first word is the method, whatever spaces stand before it.
pub parse_method_lem :
    (spaces method rest : Bytes) (c s : ℕ)
    → All (Passes is_space) spaces
    → NoSpace (c ∷ method)
    → is_space s ≡ true
    → parse_method (some (spaces ++ c ∷ (method ++ s ∷ rest))) ≡ some (some (c ∷ method))
parse_method_lem spaces method rest c s hs (hc, hm) h =
    parse_method-at tmp (length spaces) (length spaces + 1 + length method) start (
      ap (λ t. until_space t (length spaces + 1))
        (drop-append_past spaces (c ∷ (method ++ s ∷ rest)) 1 (length spaces + 1) refl)
      ∙ until_space-NoSpace method rest s (length spaces + 1) hm h)
    ∙ ap (λ t. some (some (take (length spaces + 1 + length method - length spaces) t)))
        (drop-append spaces (c ∷ (method ++ s ∷ rest)) (length spaces) refl)
    ∙ ap (λ t. some (some t)) (take-append (c ∷ method) (s ∷ rest) _ (omega arith))
  where
    tmp : Bytes
    tmp = spaces ++ c ∷ (method ++ s ∷ rest)

    start : skip_while is_space tmp 0 ≡ length spaces
    start =
        skip_while-append is_space spaces (c ∷ (method ++ s ∷ rest)) 0 hs
        ∙ skip_while_stop is_space c (method ++ s ∷ rest) _ hc
        ∙ zero-add (length spaces)

parse_path-at :
    (tmp : Bytes) (word i end stop : ℕ)
    → skip_while in_word tmp 0 ≡ word
    → skip_while is_space (drop word tmp) word ≡ i
    → skip_while in_path (drop i tmp) i ≡ end
    → get_or tmp end 0 ≡ b'?'
    → until_space (drop (end + 1) tmp) (end + 1) ≡ some stop
    → parse_path (some tmp)
      ≡ some (
        some (from tmp i (end - i)),
        some (parse_uri_encoded none (some (from tmp end (stop - end))) 1),
      )
unfolding parse_path
parse_path-at tmp word i end stop e₁ e₂ e₃ e₄ e₅ = rw (e₁, e₂, e₃, e₄, e₅) refl

new_form : (buf : Str) → parse_uri_encoded none buf 1 ≡ parse_uri_encoded (some new_headers) buf 1
unfolding parse_uri_encoded
new_form none = refl
new_form (some buf) = refl

in_path-is_space : (c : ℕ) → in_path c ≡ true → is_space c ≡ false
in_path-is_space c h = ground arith

-- A path begins with no space.
path_starts :
    (path rest : Bytes) (i : ℕ)
    → All (Passes in_path) path
    → skip_while is_space (path ++ b'?' ∷ rest) i ≡ i
path_starts [] rest i h = skip_while_stop is_space b'?' rest i refl
path_starts (c ∷ path) rest i (hc, h) =
    skip_while_stop is_space c (path ++ b'?' ∷ rest) i (in_path-is_space c hc)

module _ (method path query rest : Bytes) where
  -- A request line with a query string.
  abbrev pub request_line : Bytes
  request_line = method ++ 32 ∷ (path ++ b'?' ∷ (query ++ 32 ∷ rest))

  -- Where its parts lie.
  line_parts :
      All (Passes in_word) method
      → All (Passes in_path) path
      → NoSpace query
      → parse_path (some request_line)
        ≡ some (some path, some (parse_uri_encoded none (some (b'?' ∷ query)) 1))
  line_parts hm hp hq =
      parse_path-at request_line m i end stop word blank path_end mark (
        ap (λ t. until_space t (end + 1)) (behind 1 (end + 1) refl)
        ∙ until_space-NoSpace query rest 32 (end + 1) hq refl)
      ∙ ap
          (λ p.
            some
              (some p, some (parse_uri_encoded none (some (from request_line end (stop - end))) 1)))
          (ap (take (end - i)) path_on
            ∙ take-append path (b'?' ∷ (query ++ 32 ∷ rest)) (end - i) (omega arith))
      ∙ ap (λ q. some (some path, some (parse_uri_encoded none (some q) 1)))
          (ap (take (stop - end)) (behind 0 end (omega arith))
            ∙ take-append (b'?' ∷ query) (32 ∷ rest) (stop - end) (omega arith))
    where
      m : ℕ
      m = length method

      i : ℕ
      i = length method + 1

      end : ℕ
      end = length method + 1 + length path

      stop : ℕ
      stop = end + 1 + length query

      word : skip_while in_word request_line 0 ≡ m
      word =
          skip_while-append in_word method (32 ∷ (path ++ b'?' ∷ (query ++ 32 ∷ rest))) 0 hm
          ∙ skip_while_stop in_word 32 (path ++ b'?' ∷ (query ++ 32 ∷ rest)) _ refl
          ∙ zero-add m

      path_on : drop i request_line ≡ path ++ b'?' ∷ (query ++ 32 ∷ rest)
      path_on = drop-append_past method (32 ∷ (path ++ b'?' ∷ (query ++ 32 ∷ rest))) 1 i refl

      behind : (k n : ℕ) → end + k ≡ n → drop n request_line ≡ drop k (b'?' ∷ (query ++ 32 ∷ rest))
      behind k n e =
          drop-append_past method (32 ∷ (path ++ b'?' ∷ (query ++ 32 ∷ rest)))
            (suc (length path + k)) n (omega arith)
          ∙ drop-append_past path (b'?' ∷ (query ++ 32 ∷ rest)) k (length path + k) refl

      blank : skip_while is_space (drop m request_line) m ≡ i
      blank =
          ap (λ t. skip_while is_space t m)
            (drop-append method (32 ∷ (path ++ b'?' ∷ (query ++ 32 ∷ rest))) m refl)
          ∙ skip_while-append is_space (32 ∷ []) (path ++ b'?' ∷ (query ++ 32 ∷ rest)) m (refl, tt)
          ∙ path_starts path (query ++ 32 ∷ rest) i hp

      path_end : skip_while in_path (drop i request_line) i ≡ end
      path_end =
          ap (λ t. skip_while in_path t i) path_on
          ∙ skip_while-append in_path path (b'?' ∷ (query ++ 32 ∷ rest)) i hp
          ∙ skip_while_stop in_path b'?' (query ++ 32 ∷ rest) _ refl

      mark : get_or request_line end 0 ≡ b'?'
      mark =
          get_or-append method (32 ∷ (path ++ b'?' ∷ (query ++ 32 ∷ rest))) (suc (length path)) end
            0 (omega arith)
          ∙ get_or-append path (b'?' ∷ (query ++ 32 ∷ rest)) 0 (length path) 0 (omega arith)

-- A request line of a method, a path with no space and no question mark, and a query string with no
-- space: the path is found, and the fields of the query string are the form's, in order.
pub parse_path-query_of :
    (method path rest : Bytes) (f : Field) (fs : List Field)
    → All (Passes in_word) method
    → All (Passes in_path) path
    → NoSpace (query_of f fs)
    → length (f ∷ fs) ≤ max_headers
    → All IsPair (f ∷ fs)
    → (h : Headers) × (parse_path (some (request_line method path (query_of f fs) rest))
        ≡ some (some path, some (form h)))
      × (over h ≡ map slot_of (f ∷ fs))
unfolding new_headers
parse_path-query_of method path rest f fs hm hp hq room ok =
    let (h, run, o) =
      parse_uri_encoded-query_of new_headers (b'?' ∷ query_of f fs) 1 f fs new_headers-IsValid
        (omega arith) ok (first_plain (query_of f fs) hq) refl in
    (
      h,
      line_parts method path (query_of f fs) rest hm hp hq
          ∙ ap (λ r. some (some path, some r)) (new_form (some (b'?' ∷ query_of f fs)) ∙ run),
      o,
    )
  where
    first_plain : (q : Bytes) → NoSpace q → is_space (get_or q 0 0) ≡ false
    first_plain [] h = refl
    first_plain (c ∷ q) (hc, h) = hc
