-- ===== src/Lua/Queries/Text.antt =====
-- lws.c and lua_db.c: the text of the statements that scripts send to the database.
use jawas.Base.{
  take-beyond, ℕ, zero, suc, ◌+◌, ◌-◌, ◌≤◌, ◌⊎◌, All, append-nil, subst, true, false, List, [], ◌∷◌,
  ◌++◌, none, some, ◌≡◌, refl, sym, ap, ◌∙◌, arith, leb, ◌==◌, if◌then◌else◌, Bool-cases, inl, inr,
  length, length-append, length-drop, take, take-length, drop, take-append, drop-append, drop-drop,
  Bytes, Str, text, append_assoc, codes,
}
use jawas.Str.{apart, adjacent, append, from}
use jawas.Lua.Queries.{view_size, fill_from, fill_placeholders, closure_arguments, closure_query}

-- A text with each question mark replaced by the next value, as long as there are values: `values j` is
-- the value at `j`, and `k` are left.
abbrev pub substituted : (ℕ → Str) → ℕ → ℕ → Bytes → Bytes
substituted values zero j t = t
substituted values (suc k) j [] = []
substituted values (suc k) j (c ∷ t) =
    let filled = text (values j) ++ substituted values k (suc j) t in
    let plain = c ∷ substituted values (suc k) j t in if c == b'?' then filled else plain

-- What `QueryLua` makes of the loop's result.
abbrev closed : (ℕ → ℕ) → Bytes → Str × ℕ → Bytes
closed memory q (qry, o) = append (adjacent view_size memory) qry (from q o (length q - o))

append-text : (s : Str) (v : Bytes) → append apart s v ≡ text s ++ v
unfolding append
append-text none v = refl
append-text (some s) v = refl

-- A view of at most as many bytes as its struct has keeps them.
append_behind :
    (memory : ℕ → ℕ) (s : Str) (v : Bytes)
    → length v ≤ view_size
    → append (adjacent view_size memory) s v ≡ text s ++ v
unfolding append
append_behind memory none v le = refl
append_behind memory (some s) v le =
    let whole : take view_size v ≡ v = take-beyond view_size v le in
    let no_more : length v - view_size ≡ 0 = omega (arith, le) in
    rw (whole, no_more) (ap (λ t. s ++ t) (append-nil v))

-- The text behind the last question mark that is replaced, where `p` stands before the text and behind the mark
-- before.
abbrev pub text_behind : ℕ → Bytes → Bytes → Bytes
text_behind zero p t = p ++ t
text_behind (suc k) p [] = p ++ []
text_behind (suc k) p (c ∷ t) =
    let filled = text_behind k [] t in
    let plain = text_behind (suc k) (p ++ c ∷ []) t in if c == b'?' then filled else plain

fill_from_end :
    (values : ℕ → Str) (n : ℕ) (q rest : Bytes) (i j o : ℕ) (qry : Str)
    → leb j n ≡ false
    → fill_from values n q rest i j o qry ≡ (qry, o)
unfolding fill_from
fill_from_end values n q [] i j o qry h = refl
fill_from_end values n q (c ∷ rest) i j o qry h = rw h refl

fill_from_nil :
    (values : ℕ → Str) (n : ℕ) (q : Bytes) (i j o : ℕ) (qry : Str)
    → fill_from values n q [] i j o qry ≡ (qry, o)
unfolding fill_from
fill_from_nil values n q i j o qry = refl

fill_from_hit :
    (values : ℕ → Str) (n : ℕ) (q rest : Bytes) (c i j o : ℕ) (qry : Str)
    → leb j n ≡ true
    → (c == b'?') ≡ true
    → fill_from values n q (c ∷ rest) i j o qry
      ≡ fill_from values n q rest
          (suc i)
          (suc j)
          (suc i)
          (some (append apart qry (append apart (some (from q o (i - o))) (text (values (suc j))))))
unfolding fill_from
fill_from_hit values n q rest c i j o qry h hit = rw (h, hit) refl

fill_from_miss :
    (values : ℕ → Str) (n : ℕ) (q rest : Bytes) (c i j o : ℕ) (qry : Str)
    → leb j n ≡ true
    → (c == b'?') ≡ false
    → fill_from values n q (c ∷ rest) i j o qry ≡ fill_from values n q rest (suc i) j o qry
unfolding fill_from
fill_from_miss values n q rest c i j o qry h miss = rw (h, miss) refl

closed_pending :
    (memory : ℕ → ℕ) (q p : Bytes) (o : ℕ) (qry : Str)
    → drop o q ≡ p
    → length p ≤ view_size
    → closed memory q (qry, o) ≡ text qry ++ p
closed_pending memory q p o qry e le =
    let rest : from q o (length q - o) ≡ p =
      ap (λ t. take (length q - o) t) e
      ∙ ap (λ n. take n p) (omega (arith, length-drop o q, ap length e))
      ∙ take-length p in
    ap (append (adjacent view_size memory) qry) rest ∙ append_behind memory qry p le

dropped_past :
    (q p rest : Bytes) (c i o : ℕ)
    → drop o q ≡ p ++ c ∷ rest
    → i ≡ o + length p
    → drop (suc i) q ≡ rest
dropped_past q p rest c i o e ei =
    let far : suc i ≡ o + (length p + 1) = omega arith in
    ap (λ n. drop n q) far
    ∙ sym (drop-drop (length p + 1) o q)
    ∙ ap (drop (length p + 1)) (e ∙ sym (append_assoc p (c ∷ []) rest))
    ∙ drop-append (p ++ c ∷ []) rest (length p + 1) (omega (arith, length-append p (c ∷ [])))

-- The bytes `p` stand between the last value and the index.
fill_from-substituted :
    (memory : ℕ → ℕ) (values : ℕ → Str) (n k : ℕ) (q p rest : Bytes) (i j o : ℕ) (qry : Str)
    → drop o q ≡ p ++ rest
    → i ≡ o + length p
    → j + k ≡ n + 1
    → length (text_behind k p rest) ≤ view_size
    → closed memory q (fill_from values n q rest i j o qry)
      ≡ text qry ++ (p ++ substituted values k (suc j) rest)
fill_from-substituted memory values n zero q p rest i j o qry e ei ej le =
    ap (closed memory q) (fill_from_end values n q rest i j o qry (ground arith))
    ∙ closed_pending memory q (p ++ rest) o qry e le
fill_from-substituted memory values n (suc k) q p [] i j o qry e ei ej le =
    ap (closed memory q) (fill_from_nil values n q i j o qry)
    ∙ closed_pending memory q (p ++ []) o qry e le
fill_from-substituted memory values n (suc k) q p (c ∷ rest) i j o qry e ei ej le =
    let inside : leb j n ≡ true = ground arith in
    elim (Bool-cases (c == b'?')) [
      | inl hit ↦
          let v = text (values (suc j)) in
          let piece : from q o (i - o) ≡ p =
            ap (take (i - o)) e ∙ take-append p (c ∷ rest) (i - o) (omega arith) in
          rw hit (
            ap (closed memory q) (fill_from_hit values n q rest c i j o qry inside hit)
            ∙ fill_from-substituted memory values n k q [] rest (suc i) (suc j) (suc i)
                (some (append apart qry (append apart (some (from q o (i - o))) v)))
                (dropped_past q p rest c i o e ei) (omega arith) (omega arith)
                (subst
                  (λ b.
                    length
                      (if b then text_behind k [] rest else text_behind (suc k) (p ++ c ∷ []) rest)
                    ≤ view_size)
                  hit le)
            ∙ ap (λ t. t ++ substituted values k (suc (suc j)) rest)
                (append-text qry _
                  ∙ ap (λ t. text qry ++ t)
                      (append-text (some (from q o (i - o))) v ∙ ap (λ t. t ++ v) piece))
            ∙ simp append_assoc)
      | inr miss ↦ rw miss (
          ap (closed memory q) (fill_from_miss values n q rest c i j o qry inside miss)
          ∙ fill_from-substituted memory values n (suc k) q (p ++ c ∷ []) rest (suc i) j o qry
              (e ∙ sym (append_assoc p (c ∷ []) rest)) (omega (arith, length-append p (c ∷ []))) ej
              (subst
                (λ b.
                  length
                    (if b then text_behind k [] rest else text_behind (suc k) (p ++ c ∷ []) rest)
                  ≤ view_size)
                miss le)
          ∙ ap (λ t. text qry ++ t)
              (append_assoc p (c ∷ []) (substituted values (suc k) (suc j) rest)))
    ]

-- No question mark.
abbrev pub NoMark : Bytes → Type 0
NoMark = All (λ c. (c == b'?') ≡ false)

substituted-NoMark :
    (values : ℕ → Str) (k j : ℕ) (t : Bytes) → NoMark t → substituted values k j t ≡ t
substituted-NoMark values zero j t a = refl
substituted-NoMark values (suc k) j [] a = refl
substituted-NoMark values (suc k) j (c ∷ t) (a, as') =
    rw a (ap (λ u. c ∷ u) (substituted-NoMark values (suc k) j t as'))

fill_from-NoMark :
    (values : ℕ → Str) (n : ℕ) (q rest : Bytes) (i j o : ℕ) (qry : Str)
    → NoMark rest
    → fill_from values n q rest i j o qry ≡ (qry, o)
fill_from-NoMark values n q [] i j o qry a = fill_from_nil values n q i j o qry
fill_from-NoMark values n q (c ∷ rest) i j o qry (a, as') = elim (Bool-cases (leb j n)) [
  | inl inside ↦
      fill_from_miss values n q rest c i j o qry inside a
      ∙ fill_from-NoMark values n q rest (suc i) j o qry as'
  | inr past ↦ fill_from_end values n q (c ∷ rest) i j o qry past
]

-- The statement that `QueryLua` sends is the text that a script gave, where behind its first byte each
-- question mark is replaced by the next value, the first by that of the second argument, as long as
-- fewer are replaced than there are arguments, if no question mark stands there, or if at most 16 bytes stand behind
-- the last one that is replaced. With `n` arguments the last value may be that at `n + 1`, behind the last
-- argument.
pub fill_placeholders-substituted :
    (memory : ℕ → ℕ) (values : ℕ → Str) (n c : ℕ) (rest : Bytes)
    → NoMark rest ⊎ (length (text_behind n (c ∷ []) rest) ≤ view_size)
    → fill_placeholders memory values n (c ∷ rest) ≡ c ∷ substituted values n 2 rest
unfolding fill_placeholders append
fill_placeholders-substituted memory values n c rest (inl plain) =
    let all_left : length (c ∷ rest) - 0 ≡ length (c ∷ rest) = omega arith in
    ap (closed memory (c ∷ rest)) (fill_from-NoMark values n (c ∷ rest) rest 1 1 0 none plain)
    ∙ ap (λ k. take k (c ∷ rest)) all_left
    ∙ take-length (c ∷ rest)
    ∙ ap (λ t. c ∷ t) (sym (substituted-NoMark values n 2 rest plain))
fill_placeholders-substituted memory values n c rest (inr short) =
    fill_from-substituted memory values n n (c ∷ rest) (c ∷ []) rest 1 1 0 none refl refl
      (omega arith) short

-- Arguments of a stored procedure are not escaped: one that holds a quote, a comma and a quote is sent
-- as two, whatever stands before and behind.
pub closure_query-quote :
    (base a b : Bytes) (rest : List Bytes)
    → closure_query base ((a ++ codes "','" ++ b) ∷ rest) ≡ closure_query base (a ∷ b ∷ rest)
unfolding closure_query
closure_query-quote base a b rest = ap (λ t. t ++ codes ")") (arguments rest)
  where
    arguments :
        (r : List Bytes)
        → closure_arguments base ((a ++ codes "','" ++ b) ∷ r) ≡ closure_arguments base (a ∷ b ∷ r)
    arguments [] = simp append_assoc
    arguments (d ∷ r) = ap (λ t. closure_arguments t (d ∷ r)) (simp append_assoc)
