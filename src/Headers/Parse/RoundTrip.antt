-- ===== src/Headers/Parse/RoundTrip.antt =====
-- headers.c, `parse_headers`, a whole message: the fields of its header lines come back, and the
-- position of its body.
use jawas.Base.{
  ℕ, zero, suc, ◌+◌, ◌-◌, ◌<◌, true, false, not, List, [], ◌∷◌, ◌++◌, Option, some, ◌≡◌, ◌≢◌, refl,
  sym, ap, ◌∙◌, arith, ltb, lt→ltb, All, map, append_assoc, length, length-append, length-map, drop,
  drop-append, drop-append_past, take-append, replicate, Bytes, is_space,
}
use native.Mathlib.Nat.{add_comm, add_assoc, zero-add, add-zero, suc-add}
use jawas.Str.Fields.{skip_while, Passes, NoColon, skip_while-append, skip_while_stop}
use jawas.Headers.{Slot, empty, Headers, max_headers, new_headers, over}
use jawas.Headers.Parse.{
  is_break, Scan, Next, done, more, Parsed, null, parsed, running, onward, scan_step, resume,
  scan_from, started, parse_headers,
}
use jawas.Headers.Parse.Total.{Ends, parse_headers-Ends}
use jawas.Headers.Parse.Lines.{scan, table, key_step, value_step, step_break, step_body}

-- A header line: a key of one or more bytes, a gap behind the colon, and a value of one or more bytes.
pub record Line : Type 0 where
  pub key : ℕ
  pub key_rest : Bytes
  pub gap : Bytes
  pub value : ℕ
  pub value_rest : Bytes

abbrev pub field_of : Line → Slot
field_of l = record { key = some (l.key ∷ l.key_rest); value = some (l.value ∷ l.value_rest) }

-- The line's bytes, with its CR and LF, before the bytes `rest`.
abbrev pub line_before : Line → Bytes → Bytes
line_before l rest =
    l.key ∷ (l.key_rest ++ b':' ∷ (l.gap ++ l.value ∷ (l.value_rest ++ 13 ∷ 10 ∷ rest)))

abbrev pub lines_before : List Line → Bytes → Bytes
lines_before [] rest = rest
lines_before (l ∷ ls) rest = line_before l (lines_before ls rest)

abbrev pub line_length : Line → ℕ
line_length l = length l.key_rest + length l.gap + length l.value_rest + 5

-- The key does not begin with a line break and holds no colon, the gap is of spaces of any kind, line
-- breaks among them, and the value does not begin with a space and holds no line break.
pub record IsLine (l : Line) : Type 0 where
  pub key_starts : is_break l.key ≡ false
  pub key_plain : NoColon (l.key ∷ l.key_rest)
  pub gap_spaces : All (Passes is_space) l.gap
  pub value_starts : is_space l.value ≡ false
  pub value_plain : All (λ x. is_break x ≡ false) (l.value ∷ l.value_rest)

scan_from_more :
    (fuel : ℕ) (s s' : Scan) → scan_step s ≡ more s' → scan_from (suc fuel) s ≡ scan_from fuel s'
unfolding scan_from resume
scan_from_more fuel s s' h = rw h

scan_from_done :
    (fuel : ℕ) (s : Scan) (h : Headers) (body : Option ℕ)
    → scan_step s ≡ done h body
    → scan_from (suc fuel) s ≡ parsed h body
unfolding scan_from resume
scan_from_done fuel s h body e = rw e

table-append :
    (fields : List Slot) (s : Slot) (n : ℕ)
    → record { nslots = length fields + 1; slots = fields ++ s ∷ replicate n empty }
      ≡ table (fields ++ s ∷ []) n
table-append fields s n = rw (append_assoc, length-append)

-- The round at a line feed that follows a value.
feed_step :
    (rest : Bytes) (o i : ℕ) (h : Headers)
    → i < max_headers
    → scan_step (scan (10 ∷ rest) o i false 0 h) ≡ more (scan rest (o + 1) i true 1 h)
unfolding scan_step onward
feed_step rest o i h lt = step_break 10 rest (scan (10 ∷ rest) o i false 0 h) lt refl (omega arith)

-- The two rounds at a CR and LF.
crlf_steps :
    (fuel : ℕ) (rest : Bytes) (o i : ℕ) (h : Headers)
    → i < max_headers
    → scan_from (suc (suc fuel)) (scan (13 ∷ 10 ∷ rest) o i false 0 h)
      ≡ scan_from fuel (scan rest (o + 1 + 1) i true 2 h)
unfolding scan_step onward
crlf_steps fuel rest o i h lt =
    scan_from_more _ _ _
      (step_break 13 (10 ∷ rest) (scan (13 ∷ 10 ∷ rest) o i false 0 h) lt refl (omega arith))
    ∙ scan_from_more _ _ _
        (step_break 10 rest (scan (10 ∷ rest) (o + 1) i true 1 h) lt refl (omega arith))

-- The two rounds at the empty line that ends the header lines.
blank_steps :
    (fuel : ℕ) (body : Bytes) (o i : ℕ) (h : Headers)
    → i < max_headers
    → scan_from (suc (suc fuel)) (scan (13 ∷ 10 ∷ body) o i true 1 h) ≡ parsed h (some (o + 1 + 1))
unfolding scan_step onward
blank_steps fuel body o i h lt =
    scan_from_more _ _ _
      (step_break 13 (10 ∷ body) (scan (13 ∷ 10 ∷ body) o i true 1 h) lt refl (omega arith))
    ∙ scan_from_done fuel _ _ _
        (step_body 10 body (scan (10 ∷ body) (o + 1) i true 2 h) lt refl refl)

-- Three rounds read a line.
scan_line :
    (l : Line) (fuel n o count : ℕ) (fields : List Slot) (rest : Bytes)
    → IsLine l
    → length fields + 1 < max_headers
    → scan_from
        (suc (suc (suc fuel)))
        (scan (line_before l rest) o (length fields) true count (table fields (suc n)))
      ≡ scan_from fuel (
          scan rest
            (o + line_length l)
            (length (fields ++ field_of l ∷ []))
            true
            1
            (table (fields ++ field_of l ∷ []) n))
scan_line l fuel n o count fields rest ok lt =
    scan_from_more _ _ _
      (key_step l.key l.key_rest _ o count n fields ok.key_starts ok.key_plain (omega arith))
    ∙ scan_from_more _ _ _ (
        value_step l.gap l.value_rest (10 ∷ rest) (l.key ∷ l.key_rest) l.value _ n fields
          ok.gap_spaces ok.value_starts ok.value_plain (omega arith))
    ∙ scan_from_more _ _ _ (feed_step rest s.o (length fields + 1) s.headers lt)
    ∙ ap (scan_from fuel)
        (λ i. scan rest (o_end i) (i_end i) true 1 (table-append fields (field_of l) n i))
  where
    s : Scan
    s =
        scan (10 ∷ rest)
          (o + length l.key_rest + 1 + 1 + length l.gap + suc (length l.value_rest) + 1)
          (length fields + 1) false 0
          (record { nslots = length fields + 1; slots = fields ++ field_of l ∷ replicate n empty })

    o_end : s.o + 1 ≡ o + line_length l
    o_end = omega arith

    i_end : length fields + 1 ≡ length (fields ++ field_of l ∷ [])
    i_end = sym (length-append fields (field_of l ∷ []))

-- The rounds for some lines, with `fuel` rounds more.
abbrev rounds : List Line → ℕ → ℕ
rounds [] fuel = fuel
rounds (l ∷ ls) fuel = suc (suc (suc (rounds ls fuel)))

abbrev pub lines_length : List Line → ℕ
lines_length [] = 0
lines_length (l ∷ ls) = line_length l + lines_length ls

scan_lines :
    (l : Line) (ls : List Line) (fuel n o count : ℕ) (fields : List Slot) (rest : Bytes)
    → All IsLine (l ∷ ls)
    → length fields + length (l ∷ ls) < max_headers
    → scan_from (rounds (l ∷ ls) fuel) (
        scan
          (lines_before (l ∷ ls) rest)
          o
          (length fields)
          true
          count
          (table fields (length (l ∷ ls) + n)))
      ≡ scan_from fuel (
          scan rest
            (o + lines_length (l ∷ ls))
            (length (fields ++ map field_of (l ∷ ls)))
            true
            1
            (table (fields ++ map field_of (l ∷ ls)) n))
scan_lines l [] fuel n o count fields rest (okl, ok) lt =
    rw (suc-add, zero-add, add-zero) (scan_line l fuel n o count fields rest okl (omega arith))
scan_lines l (l' ∷ ls) fuel n o count fields rest (okl, ok) lt =
    let fs = fields ++ field_of l ∷ [] in
    rw suc-add (
      scan_line l (rounds (l' ∷ ls) fuel) (length (l' ∷ ls) + n) o count fields
        (lines_before (l' ∷ ls) rest) okl (omega arith)
      ∙ scan_lines l' ls fuel n (o + line_length l) 1 fs rest ok
          (omega (arith, length-append fields (field_of l ∷ [])))
      ∙ rw (append_assoc, add_assoc) refl)

resume_agree :
    (again again' : Scan → Parsed)
    → ((s : Scan) → again s ≢ running → again' s ≡ again s)
    → (n : Next) → resume again n ≢ running
    → resume again' n ≡ resume again n
unfolding resume
resume_agree again again' ih (done h body) k = refl
resume_agree again again' ih (more s) k = ih s k

-- More fuel changes nothing once the loop has ended.
scan_from_enough :
    (fuel extra : ℕ) (s : Scan)
    → scan_from fuel s ≢ running
    → scan_from (fuel + extra) s ≡ scan_from fuel s
unfolding scan_from
scan_from_enough zero extra s h = absurd (h refl)
scan_from_enough (suc fuel) extra s h = rw suc-add (
    resume_agree (scan_from fuel) (scan_from (fuel + extra)) (scan_from_enough fuel extra)
      (scan_step s) h)

scan_from_unique :
    (f g : ℕ) (s : Scan)
    → scan_from f s ≢ running
    → scan_from g s ≢ running
    → scan_from f s ≡ scan_from g s
scan_from_unique f g s h k =
    sym (scan_from_enough f g s h)
    ∙ ap (λ n. scan_from n s) (add_comm f g)
    ∙ scan_from_enough g f s k

Ends-ne-running : (lb : ℕ) (p : Parsed) → Ends lb p → p ≢ running
Ends-ne-running lb null e h = cc
Ends-ne-running lb (parsed h body) e k = cc
Ends-ne-running lb running e h = e

-- The table that holds the fields of the lines and nothing else.
abbrev pub filled : List Line → Headers
filled ls = table (map field_of ls) (max_headers - length ls)

-- The bytes behind a line, and behind some lines.
drop-line_before :
    (l : Line) (rest : Bytes) (n k : ℕ)
    → line_length l + n ≡ k
    → drop k (line_before l rest) ≡ drop n rest
drop-line_before l rest n k e =
    let tail = length l.value_rest + (2 + n) in
    drop-append_past (l.key ∷ l.key_rest)
      (b':' ∷ (l.gap ++ l.value ∷ (l.value_rest ++ 13 ∷ 10 ∷ rest))) (suc (length l.gap + suc tail))
      k (omega arith)
    ∙ drop-append_past l.gap (l.value ∷ (l.value_rest ++ 13 ∷ 10 ∷ rest)) (suc tail) _ refl
    ∙ drop-append_past l.value_rest (13 ∷ 10 ∷ rest) (suc (suc n)) tail (omega arith)

drop-lines_before :
    (ls : List Line) (rest : Bytes) (n k : ℕ)
    → lines_length ls + n ≡ k
    → drop k (lines_before ls rest) ≡ drop n rest
drop-lines_before [] rest n k e = ap (λ m. drop m rest) (omega arith)
drop-lines_before (l ∷ ls) rest n k e =
    drop-line_before l (lines_before ls rest) (lines_length ls + n) k (omega arith)
    ∙ drop-lines_before ls rest n _ refl

over-filled : (ls : List Line) → length ls < max_headers → over (filled ls) ≡ map field_of ls
over-filled ls lt = take-append (map field_of ls) _ _ (omega (arith, length-map ls field_of))

abbrev pub NoBreak : ℕ → Type 0
NoBreak = Passes (λ c. not (is_break c))

module _ (first body : Bytes) (l : Line) (ls : List Line) where
  -- A request or status line, the header lines, the empty line and the body.
  abbrev pub message : Bytes
  message = first ++ 13 ∷ 10 ∷ lines_before (l ∷ ls) (13 ∷ 10 ∷ body)

  abbrev pub body_at : ℕ
  body_at = length first + 1 + 1 + lines_length (l ∷ ls) + 1 + 1

  scan_message :
      All IsLine (l ∷ ls)
      → length (l ∷ ls) < max_headers
      → scan_from (suc (suc (rounds (l ∷ ls) (suc (suc zero))))) (
          scan
            (13 ∷ 10 ∷ lines_before (l ∷ ls) (13 ∷ 10 ∷ body))
            (length first)
            0
            false
            0
            (table [] (length (l ∷ ls) + (max_headers - length (l ∷ ls)))))
        ≡ parsed (filled (l ∷ ls)) (some body_at)
  scan_message (okl, ok) lt =
      let n = max_headers - length (l ∷ ls) in
      let end = 13 ∷ 10 ∷ body in
      crlf_steps (rounds (l ∷ ls) (suc (suc zero))) (lines_before (l ∷ ls) end) (length first) 0
        (table [] (length (l ∷ ls) + n)) (omega arith)
      ∙ scan_lines l ls (suc (suc zero)) n (length first + 1 + 1) 2 [] end (okl, ok) lt'
      ∙ blank_steps zero body (length first + 1 + 1 + lines_length (l ∷ ls))
          (length (map field_of (l ∷ ls))) (filled (l ∷ ls))
          (omega (arith, length-map (l ∷ ls) field_of))
    where
      lt' : 0 + length (l ∷ ls) < max_headers
      lt' = omega arith

  started-message :
      started message (length first)
      ≡ scan
          (13 ∷ 10 ∷ lines_before (l ∷ ls) (13 ∷ 10 ∷ body))
          (length first)
          0
          false
          0
          (table [] max_headers)
  unfolding started new_headers
  started-message =
      rw (drop-append first (13 ∷ 10 ∷ lines_before (l ∷ ls) (13 ∷ 10 ∷ body)) (length first) refl)

  first_break : All NoBreak first → skip_while (λ c. not (is_break c)) message 0 ≡ length first
  first_break h =
      skip_while-append (λ c. not (is_break c)) first
        (13 ∷ 10 ∷ lines_before (l ∷ ls) (13 ∷ 10 ∷ body)) 0 h
      ∙ skip_while_stop (λ c. not (is_break c)) 13 (10 ∷ lines_before (l ∷ ls) (13 ∷ 10 ∷ body)) _
          refl
      ∙ zero-add _

  parse_headers-scan_from :
      All NoBreak first
      → parse_headers (some message)
        ≡ scan_from (suc (length message)) (started message (length first))
  unfolding parse_headers
  parse_headers-scan_from h =
      let e : ltb (length first) (length message) ≡ true =
        lt→ltb _ _
          (omega (arith, length-append first (13 ∷ 10 ∷ lines_before (l ∷ ls) (13 ∷ 10 ∷ body)))) in
      rw (first_break h, e)

-- A message whose first line and header lines are well formed, with at least one header line and fewer
-- than the table has slots: the table's slots in use are the lines' fields, in order, and the position
-- of the body is that of the bytes behind the empty line.
pub parse_headers-message :
    (first body : Bytes) (l : Line) (ls : List Line)
    → All NoBreak first
    → All IsLine (l ∷ ls)
    → length (l ∷ ls) < max_headers
    → (parse_headers (some (message first body l ls))
        ≡ parsed (filled (l ∷ ls)) (some (body_at first body l ls)))
      × (over (filled (l ∷ ls)) ≡ map field_of (l ∷ ls))
      × (drop (body_at first body l ls) (message first body l ls) ≡ body)
parse_headers-message first body l ls hf ok lt = (
  parse ∙ scan_from_unique (suc (length m)) fuel s ends (λ e. cc run) ∙ run,
  over-filled (l ∷ ls) lt,
  behind,
)
  where
    m : Bytes
    m = message first body l ls

    fuel : ℕ
    fuel = suc (suc (rounds (l ∷ ls) (suc (suc zero))))

    s : Scan
    s = started m (length first)

    parse : parse_headers (some m) ≡ scan_from (suc (length m)) s
    parse = parse_headers-scan_from first body l ls hf

    slots : length (l ∷ ls) + (max_headers - length (l ∷ ls)) ≡ max_headers
    slots = omega arith

    run : scan_from fuel s ≡ parsed (filled (l ∷ ls)) (some (body_at first body l ls))
    run =
        ap (scan_from fuel) (started-message first body l ls)
        ∙ ap
            (λ k. scan_from fuel (
              scan (13 ∷ 10 ∷ lines_before (l ∷ ls) (13 ∷ 10 ∷ body)) (length first) 0 false 0
                (table [] k)))
            (sym slots)
        ∙ scan_message first body l ls ok lt

    ends : scan_from (suc (length m)) s ≢ running
    ends = rw (← parse) (Ends-ne-running (length m) _ (parse_headers-Ends (some m)))

    behind : drop (body_at first body l ls) m ≡ body
    behind =
        drop-append_past first (13 ∷ 10 ∷ lines_before (l ∷ ls) (13 ∷ 10 ∷ body))
          (suc (suc (lines_length (l ∷ ls) + 2))) _ (omega arith)
        ∙ drop-lines_before (l ∷ ls) (13 ∷ 10 ∷ body) 2 _ refl
