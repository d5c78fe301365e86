-- ===== src/Headers/Parse.antt =====
-- headers.c, `parse_headers`: the scanner that fills a table of headers from a message.
pub mod Total
pub mod Lines
pub mod RoundTrip
use jawas.Base.{
  ℕ, zero, suc, ◌+◌, ◌-◌, Bool, true, false, ◌&&◌, ◌||◌, not, List, [], ◌∷◌, Option, none, some,
  ltb, ◌==◌, if◌then◌else◌, length, get_or, take, drop, Bytes, Str, text, is_space,
}
use jawas.Str.Fields.{skip_while, other_than}
use jawas.Headers.{Headers, max_headers, new_headers, key_at, fill}

abbrev pub is_break : ℕ → Bool
is_break c = c == 13 || c == 10

-- The variables of the loop: the bytes from index `o` on, and the rest as in the source.
pub record Scan : Type 0 where
  pub rest : Bytes
  pub o : ℕ
  pub i : ℕ
  pub reset : Bool
  pub count : ℕ
  pub headers : Headers

-- What a call hands back: the table, and what it stores in `*body`, if it does. `null` is the NULL
-- for a text with no line break. `running` is a loop that has not ended within the fuel.
pub data Parsed : Type 0 where
  null : Parsed
  parsed : Headers → Option ℕ → Parsed
  running : Parsed

pub data Next : Type 0 where
  done : Headers → Option ℕ → Next
  more : Scan → Next

-- `for (l = 1; o + l < lb && at(buf, o + l) != ':'; ++l)` and the assignment of the key: `c` is the
-- byte at `o` and `cs` are the bytes behind it. The scan then stands on the key's last byte.
scan_key : ℕ → Bytes → Scan → Scan
scan_key c cs s =
    let l = skip_while (other_than b':') cs 1 in
    record {
      rest = drop (l - 1) (c ∷ cs);
      o = s.o + l - 1;
      i = s.i;
      reset = s.reset;
      count = 0;
      headers =
          fill s.i (some (take l (c ∷ cs)))
            (get_or s.headers.slots s.i (record { key = none; value = none })).value
            (record s.headers { nslots = s.headers.nslots + 1 });
    }

-- `for (l = 1; o + l < lb && c != '\r' && c != '\n'; ++l) c = at(buf, o + l)`: `c` is the byte read
-- last, and the list are the bytes behind it.
value_end : ℕ → Bytes → ℕ → ℕ
value_end c [] l = l
value_end c (d ∷ ds) l = let next = value_end d ds (suc l) in if is_break c then l else next

-- The value behind a colon; the scan stands on the colon, and then on the byte behind the value.
scan_value : Scan → Scan
scan_value s =
    let gap = skip_while is_space (drop 1 s.rest) 0 in
    let r = drop gap (drop 1 s.rest) in
    let l = value_end (get_or r 0 0) (drop 1 r) 1 in
    record {
      rest = drop (l - 1) r;
      o = s.o + 1 + gap + l - 1;
      i = s.i + 1;
      reset = false;
      count = s.count;
      headers =
          fill s.i (get_or s.headers.slots s.i (record { key = none; value = none })).key
            (some (take (l - 1) r)) s.headers;
    }

-- `++o`.
pub onward : Scan → Scan
onward s = record s { rest = drop 1 s.rest; o = s.o + 1 }

is_null : Str → Bool
is_null none = true
is_null (some _) = false

-- A key is looked for where a line break was seen and slot `i` has none yet.
wants_key : Scan → Bool
wants_key s = s.reset && is_null (key_at s.headers s.i)

-- A value is looked for at a colon.
wants_value : Scan → Bool
wants_value s = s.reset && get_or s.rest 0 0 == b':'

keyed : ℕ → Bytes → Scan → Scan
keyed c cs s = if wants_key s then scan_key c cs s else record s { count = 0 }

valued : Scan → Scan
valued s = if wants_value s then scan_value s else s

-- One round of the loop at the bytes that are left.
pub step_at : Bytes → Scan → Next
step_at [] s = done s.headers none
step_at (c ∷ cs) s =
    if not (ltb s.i max_headers)
    then done s.headers none
    else if is_break c
    then if ltb 2 (s.count + 1)
      then done s.headers (some (s.o + 1))
      else more (onward (record s { reset = true; count = s.count + 1 }))
    else more (onward (valued (keyed c cs s)))

pub scan_step : Scan → Next
unfolding step_at wants_key wants_value keyed valued scan_key scan_value value_end onward is_null
    skip_while
scan_step s = step_at s.rest s

resume : (Scan → Parsed) → Next → Parsed
resume again (done h body) = parsed h body
resume again (more s) = again s

pub scan_from : ℕ → Scan → Parsed
unfolding resume
scan_from zero s = running
scan_from (suc fuel) s = resume (scan_from fuel) (scan_step s)

-- The variables as the second loop starts, at index `o`.
pub started : Bytes → ℕ → Scan
unfolding new_headers
started buf o = record {
  rest = drop o buf;
  o = o;
  i = 0;
  reset = false;
  count = 0;
  headers = new_headers;
}

-- The first loop stops at the first line break, and the second goes on from there. Each round passes
-- over at least one byte, so one round more than there are bytes is enough fuel.
unfoldable pub parse_headers : Str → Parsed
unfolding scan_from scan_step skip_while started
parse_headers buf =
    let o = skip_while (λ c. not (is_break c)) (text buf) 0 in
    if ltb o (length (text buf))
    then scan_from (suc (length (text buf))) (started (text buf) o)
    else null
