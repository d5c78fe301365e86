-- ===== src/Files/Segments.antt =====
-- files.c, `parse_file`: the segments of text and of script that a page is cut into. Bytes behind the end
-- of the data are the zeros that fill the last page of the mapping. The array of segments is a list,
-- whose end is the first entry of kind 0.
use jawas.Base.{
  ℕ, zero, suc, ◌+◌, ◌-◌, ◌≤◌, ◌<◌, Bool, true, false, ◌&&◌, not, List, [], ◌∷◌, ◌++◌, Option, none,
  some, ◌≡◌, ap, ◌∙◌, arith, ltb, ltb→lt, Bool-cases, inl, inr, ◌==◌, if◌then◌else◌, length, get_or,
  drop, Bytes, is_space, codes,
}
use jawas.Str.{ncmp}
use jawas.Files.{File}

pub data SegmentKind : Type 0 where
  text_segment : SegmentKind
  script_segment : SegmentKind
  emit_segment : SegmentKind

pub record Segment : Type 0 where
  pub kind : SegmentKind
  pub offset : ℕ
  pub size : ℕ

-- `mark_file`, behind the segments so far.
abbrev mark_file : List Segment → SegmentKind → ℕ → ℕ → List Segment
mark_file parsed t o l = parsed ++ record { kind = t; offset = o; size = l } ∷ []

-- `strncmp(&script[o], mark, n) == 0` for a mark of `n` bytes.
abbrev pub marked : Bytes → Bytes → Bool
marked here mark = ncmp (some mark) (some here) (length mark)

-- The loop that looks for the closing mark, over the bytes from `o+l+3+e` on.
script_length : Bytes → Bytes → ℕ → ℕ
script_length mark [] l = l
script_length mark (c ∷ rest) l =
    let next = script_length mark rest (l + 1) in if marked (c ∷ rest) mark then l else next

-- The variables of the loop: the index, the start of the text or the length of a script, and the
-- segments.
pub record Cut : Type 0 where
  pub o : ℕ
  pub l : ℕ
  pub parsed : List Segment

-- What the loop does behind the search for the closing mark: with the segments so far, whether the
-- script is one to emit, the length of its mark behind that, and the length of the script.
script_cut : Bytes → Cut → List Segment → Bool → ℕ → ℕ → Cut
script_cut script c before emit e l =
    if ltb (c.o + l + 3 + e) (length script)
    then record {
      o = c.o + (l + 3 + e);
      l = c.o + (l + 3 + e) + 2 + e;
      parsed = mark_file before (if emit then emit_segment else script_segment) (c.o + 3 + e) l;
    }
    else record { o = c.o; l = l; parsed = before }

-- The body of the loop at an opening mark.
at_script : Bytes → Cut → Cut
unfolding script_length script_cut
at_script script c =
    let before =
      if ltb c.l c.o then mark_file c.parsed text_segment c.l (c.o - c.l) else c.parsed in
    let emit = get_or script (c.o + 2) 0 == b'=' in
    let e = if emit then 1 else 0 in
    script_cut script c before emit e
      (script_length (if emit then codes "=?>" else codes "?>") (drop (c.o + 3 + e) script) 0)

-- One round, up to `++o`.
cut_step : Bytes → Cut → Cut
unfolding at_script
cut_step script c =
    if marked (drop c.o script) (codes "<?") && is_space (get_or script (c.o + 2) 0)
    then at_script script c
    else c

abbrev pub next_cut : Cut → Cut
next_cut c = record c { o = c.o + 1 }

-- The loop, which a byte 0 ends; `none` is that it has not ended within the fuel.
pub cut_from : ℕ → Bytes → Cut → Option Cut
unfolding cut_step
cut_from zero script c = none
cut_from (suc fuel) script c =
    let rest = cut_from fuel script (next_cut (cut_step script c)) in
    if not (get_or script c.o 0 == 0) && ltb c.o (length script) then rest else some c

abbrev finished : Option Cut → Option (List Segment)
finished none = none
finished (some c) = some (mark_file c.parsed text_segment c.l (c.o - c.l))

-- Each round moves on by a byte at least.
unfoldable pub parse_file : File → Option (List Segment)
unfolding cut_from
parse_file fc =
    finished
      (cut_from (suc (length fc.contents)) fc.contents (record { o = 0; l = 0; parsed = [] }))

le-script_cut :
    (script : Bytes) (c : Cut) (before : List Segment) (emit : Bool) (e l : ℕ)
    → c.o ≤ (script_cut script c before emit e l).o
unfolding script_cut
le-script_cut script c before emit e l = elim (Bool-cases (ltb (c.o + l + 3 + e) (length script))) [
  | inl closed ↦ rw closed (omega arith)
  | inr unclosed ↦ rw unclosed (omega arith)
]

-- The index does not go back.
le-cut_step : (script : Bytes) (c : Cut) → c.o ≤ (cut_step script c).o
unfolding cut_step at_script
le-cut_step script c =
    by_mark (marked (drop c.o script) (codes "<?") && is_space (get_or script (c.o + 2) 0))
  where
    by_mark : (b : Bool) → c.o ≤ (if b then at_script script c else c).o
    by_mark true = le-script_cut script c _ _ _ _
    by_mark false = omega arith

cut_from-ends :
    (fuel : ℕ) (script : Bytes) (c : Cut)
    → 0 < fuel
    → length script < c.o + fuel
    → (c' : Cut) × (cut_from fuel script c ≡ some c')
unfolding cut_from
cut_from-ends zero script c pos lt = absurd (omega arith)
cut_from-ends (suc fuel) script c pos lt =
    elim (Bool-cases (not (get_or script c.o 0 == 0) && ltb c.o (length script))) [
      | inl more ↦
          let inside : c.o < length script = ltb→lt c.o (length script) (ground arith) in
          let (c', run) =
            cut_from-ends fuel script (next_cut (cut_step script c)) (omega arith)
              (omega (arith, le-cut_step script c)) in
          (
            c',
            ap (λ b. if b then cut_from fuel script (next_cut (cut_step script c)) else some c) more
                ∙ run,
          )
      | inr last ↦ (
        c,
        ap (λ b. if b then cut_from fuel script (next_cut (cut_step script c)) else some c) last,
      )
    ]

-- Cutting any page into its segments ends, and its last segment is one of text.
pub parse_file-ends :
    (fc : File)
    → (before : List Segment) × (offset : ℕ) × (size : ℕ) × (parse_file fc
        ≡ some (before ++ record { kind = text_segment; offset = offset; size = size } ∷ []))
unfolding parse_file
parse_file-ends fc =
    let (c, run) =
      cut_from-ends (suc (length fc.contents)) fc.contents (record { o = 0; l = 0; parsed = [] })
        (omega arith) (omega arith) in
    (c.parsed, c.l, c.o - c.l, ap finished run)
