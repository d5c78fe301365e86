-- ===== src/Lua/Pages/Rendering.antt =====
-- lws.c: what a page of text and scripts that print sends.
use jawas.Base.{
  ℕ, suc, ◌+◌, ◌<◌, false, List, [], ◌∷◌, ◌++◌, some, ◌≡◌, refl, sym, subst, ap, ◌∙◌, arith, length,
  Bytes, append_assoc, append-nil, ◌>>=◌,
}
use mathlib.Core.Path.{fun_ext}
use jawas.Str.{from}
use jawas.Numbers.{int_mod}
use jawas.Files.{File}
use jawas.Files.Segments.{Segment, SegmentKind, text_segment, script_segment, emit_segment}
use jawas.Sockets.{Socket, Write, AllAccepted, write_chunk, write_chunked_socket, chunked_from}
use jawas.Sockets.Chunks.{chunk_of, chunks_of, last_chunk, decode_chunks, decode_last_before}
use jawas.Sockets.Whole.{chunk_some, chunked_whole}
use jawas.Sockets.Coded.{
  IsCoded, none-IsCoded, append-IsCoded, chunk_of-IsCoded, chunks_of-IsCoded, IsCoded-decode_chunks,
}
use jawas.Lua.{Lua}
use jawas.Lua.Pages.{
  Page, Eval, goes_on, jumps, Ran, ◌>=>◌, print_lua, eval_segment, eval_segments, eval_lua_file,
}

-- A writer left the socket open, and sent some chunks of the body.
pub record Chunked (sc : Socket) (body : Bytes) (sc' : Socket) : Type 0 where
  pub coded : Bytes
  pub still_open : sc'.closed ≡ false
  pub bytes_sent : sc'.sent ≡ sc.sent ++ coded
  pub is_coded : IsCoded coded body

none-Chunked : (sc : Socket) → sc.closed ≡ false → Chunked sc [] sc
none-Chunked sc h = record {
  coded = [];
  still_open = h;
  bytes_sent = sym (append-nil sc.sent);
  is_coded = none-IsCoded;
}

append-Chunked :
    (sc sc₁ sc₂ : Socket) (x y : Bytes)
    → Chunked sc x sc₁
    → Chunked sc₁ y sc₂
    → Chunked sc (x ++ y) sc₂
append-Chunked sc sc₁ sc₂ x y h g = record {
  coded = h.coded ++ g.coded;
  still_open = g.still_open;
  bytes_sent =
      g.bytes_sent ∙ ap (λ t. t ++ g.coded) h.bytes_sent ∙ append_assoc sc.sent h.coded g.coded;
  is_coded = append-IsCoded h.coded g.coded x y h.is_coded g.is_coded;
}

-- The texts one behind another.
abbrev pub joined : List Bytes → Bytes
joined [] = []
joined (t ∷ rest) = t ++ joined rest

-- A text that one chunk can hold, and that is not empty, which would be the last chunk.
abbrev pub IsChunk : Bytes → Type 0
IsChunk t = (0 < length t) × (length t < int_mod)

abbrev pub TextsAreChunks : Bytes → List Segment → Type 0
TextsAreChunks contents [] = Unit
TextsAreChunks contents (seg ∷ rest) =
    (seg.kind ≡ text_segment → IsChunk (from contents seg.offset seg.size))
    × TextsAreChunks contents rest

module _ (lua : Lua) (out : Bytes → lua.State → List Bytes)
    (next : Bytes → lua.State → lua.State) where
  -- The text of a page: its texts, and in the place of a script what it prints.
  abbrev pub rendered : Bytes → List Segment → lua.State → Bytes
  rendered contents [] s = []
  rendered contents (seg ∷ rest) s = elim seg.kind [
    | text_segment ↦ from contents seg.offset seg.size ++ rendered contents rest s
    | script_segment ↦
        let t = from contents seg.offset seg.size in
        joined (out t s) ++ rendered contents rest (next t s)
    | emit_segment ↦
        let t = from contents seg.offset seg.size in
        joined (out t s) ++ rendered contents rest (next t s)
  ]

module _ (write : Write) (all : AllAccepted write) where
  print_lua-Chunked :
      (texts : List Bytes) (sc : Socket)
      → sc.closed ≡ false
      → Chunked sc (joined texts) (print_lua write texts sc)
  unfolding print_lua write_chunked_socket
  print_lua-Chunked [] sc h = none-Chunked sc h
  print_lua-Chunked (t ∷ texts) sc h =
      let d = chunked_whole write all (length t) sc t h (omega arith) in
      append-Chunked sc (chunked_from write (length t) sc t).1 _ t (joined texts)
        (record {
          coded = chunks_of (length t) t;
          still_open = d.still_open;
          bytes_sent = d.bytes_sent;
          is_coded = chunks_of-IsCoded (length t) t (omega arith);
        })
        (print_lua-Chunked texts (chunked_from write (length t) sc t).1 d.still_open)

  text-Chunked :
      (t : Bytes) (sc : Socket)
      → sc.closed ≡ false
      → IsChunk t
      → Chunked sc t (write_chunk write sc (some t)).1
  text-Chunked t sc h (pos, small) =
      let d = chunk_some write all sc t h in
      record {
        coded = chunk_of t;
        still_open = d.still_open;
        bytes_sent = d.bytes_sent;
        is_coded = chunk_of-IsCoded t pos small;
      }

  -- Scripts that print texts and go on.
  module _ (lua : Lua) (eval : Eval lua) (out : Bytes → lua.State → List Bytes)
      (next : Bytes → lua.State → lua.State)
      (prints : (t : Bytes) (sc : Socket) (s : lua.State)
        → eval t (sc, s) ≡ goes_on (print_lua write (out t s) sc, next t s)) where
    -- A page goes on, and has sent chunks of the body.
    record IsSent (sc : Socket) (body : Bytes) (r : Ran (Page lua)) : Type 0 where
      page : Page lua
      run : r ≡ goes_on page
      chunked : Chunked sc body page.0

    behind-IsSent :
        (sc sc₁ : Socket) (x y : Bytes) (r : Ran (Page lua))
        → Chunked sc x sc₁
        → IsSent sc₁ y r
        → IsSent sc (x ++ y) r
    behind-IsSent sc sc₁ x y r h g = record {
      page = g.page;
      run = g.run;
      chunked = append-Chunked sc sc₁ g.page.0 x y h g.chunked;
    }

    script-IsSent :
        (contents t y : Bytes) (rest : List Segment) (sc : Socket) (s : lua.State)
        → sc.closed ≡ false
        → IsSent
            (print_lua write (out t s) sc)
            y
            (eval_segments lua write eval contents rest (print_lua write (out t s) sc, next t s))
        → IsSent sc
            (joined (out t s) ++ y)
            (eval t (sc, s) >=> eval_segments lua write eval contents rest)
    script-IsSent contents t y rest sc s h g =
        subst
          (λ r.
            IsSent sc (joined (out t s) ++ y) (r >=> eval_segments lua write eval contents rest))
          (sym (prints t sc s))
          (behind-IsSent sc _ (joined (out t s)) y _ (print_lua-Chunked (out t s) sc h) g)

    -- The first segment, where the others are known.
    segment-IsSent :
        (contents : Bytes) (rest : List Segment) (k : SegmentKind) (o l : ℕ) (sc : Socket)
        (s : lua.State)
        → sc.closed ≡ false
        → (k ≡ text_segment → IsChunk (from contents o l))
        → ((sc₁ : Socket) (s₁ : lua.State)
            → sc₁.closed ≡ false
            → IsSent sc₁
                (rendered lua out next contents rest s₁)
                (eval_segments lua write eval contents rest (sc₁, s₁)))
        → IsSent sc
            (rendered lua out next contents (record { kind = k; offset = o; size = l } ∷ rest) s)
            (eval_segment lua write eval contents
                (record { kind = k; offset = o; size = l })
                (sc, s)
              >=> eval_segments lua write eval contents rest)
    unfolding eval_segment
    segment-IsSent contents rest text_segment o l sc s h a ih =
        let d = text-Chunked (from contents o l) sc h (a refl) in
        behind-IsSent sc _ (from contents o l) _ _ d (ih _ s d.still_open)
    segment-IsSent contents rest script_segment o l sc s h a ih =
        let t = from contents o l in
        script-IsSent contents t _ rest sc s h
          (ih _ (next t s) (print_lua-Chunked (out t s) sc h).still_open)
    segment-IsSent contents rest emit_segment o l sc s h a ih =
        let t = from contents o l in
        script-IsSent contents t _ rest sc s h
          (ih _ (next t s) (print_lua-Chunked (out t s) sc h).still_open)

    segments-IsSent :
        (contents : Bytes) (segs : List Segment) (sc : Socket) (s : lua.State)
        → sc.closed ≡ false
        → TextsAreChunks contents segs
        → IsSent sc
            (rendered lua out next contents segs s)
            (eval_segments lua write eval contents segs (sc, s))
    unfolding eval_segments
    segments-IsSent contents [] sc s h a = record {
      page = (sc, s);
      run = refl;
      chunked = none-Chunked sc h;
    }
    segments-IsSent contents (seg ∷ rest) sc s h (a, b) =
        segment-IsSent contents rest seg.kind seg.offset seg.size sc s h a
          (λ sc₁ s₁ h₁. segments-IsSent contents rest sc₁ s₁ h₁ b)

    -- On an open socket that accepts every write whole, a page whose texts are not empty, and whose
    -- scripts print and go on, is sent as chunks that with the last chunk behind them are decoded to the
    -- page with the output of each script in its place, and the socket stays open.
    pub eval_lua_file-rendered :
        (fc : File) (segs : List Segment) (sc : Socket) (s : lua.State)
        → sc.closed ≡ false
        → TextsAreChunks fc.contents segs
        → (sc' : Socket) × (s' : lua.State) × (coded : Bytes) × (rounds : ℕ) × (eval_lua_file lua
              write eval fc
              (some segs)
              (sc, s)
            ≡ goes_on (sc', s'))
          × (sc'.sent ≡ sc.sent ++ coded)
          × (sc'.closed ≡ false)
          × (decode_chunks (suc rounds) (coded ++ last_chunk)
              ≡ some (rendered lua out next fc.contents segs s))
    unfolding eval_lua_file
    eval_lua_file-rendered fc segs sc s h a =
        let r = segments-IsSent fc.contents segs sc s h a in
        let c = r.chunked in
        (
          r.page.0,
          r.page.1,
          c.coded,
          c.is_coded.rounds,
          r.run,
          c.bytes_sent,
          c.still_open,
          IsCoded-decode_chunks c.coded (rendered lua out next fc.contents segs s) c.is_coded,
        )

    segments-append :
        (contents : Bytes) (before rest : List Segment) (p : Page lua)
        → eval_segments lua write eval contents (before ++ rest) p ≡ (
            eval_segments lua write eval contents before p
            >=> eval_segments lua write eval contents rest)
    unfolding eval_segments
    segments-append contents [] rest p = refl
    segments-append contents (seg ∷ before) rest p =
        ap (λ f. eval_segment lua write eval contents seg p >=> f)
          (fun_ext (segments-append contents before rest))
        ∙ regroup (eval_segment lua write eval contents seg p)
      where
        regroup :
            (r : Ran (Page lua))
            → (r >=> λ q.
                eval_segments lua write eval contents before q
                >=> eval_segments lua write eval contents rest)
              ≡ ((r >=> eval_segments lua write eval contents before)
                  >=> eval_segments lua write eval contents rest)
        regroup (goes_on q) = refl
        regroup (jumps q) = refl

    -- An empty text between others, on an open socket that accepts every write whole, is taken for the
    -- end of the page: whatever is sent behind it, the peer reads what stands before the empty text.
    pub eval_lua_file-empty_text :
        (fc : File) (before after : List Segment) (o : ℕ) (sc : Socket) (s : lua.State)
        → sc.closed ≡ false
        → TextsAreChunks fc.contents before
        → TextsAreChunks fc.contents after
        → (sc' : Socket) × (s' : lua.State) × (coded : Bytes) × (rounds : ℕ) × (eval_lua_file lua
              write eval fc
              (some (before ++ record { kind = text_segment; offset = o; size = 0 } ∷ after))
              (sc, s)
            ≡ goes_on (sc', s'))
          × (sc'.sent ≡ sc.sent ++ coded)
          × ((more : Bytes)
              → decode_chunks (suc rounds) (coded ++ more)
                ≡ some (rendered lua out next fc.contents before s))
    unfolding eval_lua_file eval_segments eval_segment
    eval_lua_file-empty_text fc before after o sc s h a b =
        let empty : Segment = record { kind = text_segment; offset = o; size = 0 } in
        let r = segments-IsSent fc.contents before sc s h a in
        let c = r.chunked in
        let d = chunk_some write all r.page.0 [] c.still_open in
        let sc₁ = (write_chunk write r.page.0 (some [])).1 in
        let r₂ = segments-IsSent fc.contents after sc₁ r.page.1 d.still_open b in
        let c₂ = r₂.chunked in
        (
          r₂.page.0,
          r₂.page.1,
          c.coded ++ (last_chunk ++ c₂.coded),
          c.is_coded.rounds,
          segments-append fc.contents before (empty ∷ after) (sc, s)
              ∙ ap (λ q. q >=> eval_segments lua write eval fc.contents (empty ∷ after)) r.run
              ∙ r₂.run,
          c₂.bytes_sent
              ∙ ap (λ t. t ++ c₂.coded) (d.bytes_sent ∙ ap (λ t. t ++ last_chunk) c.bytes_sent)
              ∙ simp append_assoc,
          λ more.
              ap (λ n. decode_chunks n ((c.coded ++ (last_chunk ++ c₂.coded)) ++ more))
                (omega arith)
              ∙ ap (decode_chunks (c.is_coded.rounds + 1))
                  (append_assoc c.coded (last_chunk ++ c₂.coded) more)
              ∙ c.is_coded.decoded 1 ((last_chunk ++ c₂.coded) ++ more)
              ∙ ap
                  (λ t. decode_chunks 1 t >>= λ y.
                    some (rendered lua out next fc.contents before s ++ y))
                  (append_assoc last_chunk c₂.coded more)
              ∙ ap (λ x. x >>= λ y. some (rendered lua out next fc.contents before s ++ y))
                  (decode_last_before 0 (c₂.coded ++ more))
              ∙ ap some (append-nil _),
        )
