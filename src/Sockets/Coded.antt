-- ===== src/Sockets/Coded.antt =====
-- sockets.c: bytes that are some chunks one after another, which any writer of chunks may have produced.
use jawas.Base.{
  ℕ, zero, suc, ◌+◌, ◌≤◌, ◌<◌, [], ◌∷◌, ◌++◌, Option, none, some, ◌≡◌, refl, sym, subst, ap, ◌∙◌,
  arith, length, length-take, length-drop, take, drop, take-append-drop, Bytes, append_assoc,
  append-nil, ◌>>=◌,
}
use jawas.Numbers.{int_mod}
use jawas.Sockets.{max_write_size}
use jawas.Sockets.Chunks.{chunk_of, last_chunk, chunks_of, decode_chunks, decode_chunk, decode_last}

-- The bytes `coded` are `rounds` chunks of `body`: in front of any other bytes they are decoded to
-- `body` in as many rounds.
pub record IsCoded (coded body : Bytes) : Type 0 where
  pub rounds : ℕ
  pub decoded :
      (fuel : ℕ) (tail : Bytes)
      → decode_chunks (rounds + fuel) (coded ++ tail)
        ≡ (decode_chunks fuel tail >>= λ b. some (body ++ b))

bind_some : (o : Option Bytes) → (o >>= λ b. some b) ≡ o
bind_some none = refl
bind_some (some b) = refl

bind_append :
    (c d : Bytes) (o : Option Bytes)
    → ((o >>= λ b. some (d ++ b)) >>= λ b. some (c ++ b)) ≡ (o >>= λ b. some ((c ++ d) ++ b))
bind_append c d none = refl
bind_append c d (some b) = simp append_assoc

pub none-IsCoded : IsCoded [] []
none-IsCoded = record {
  rounds = 0;
  decoded = λ fuel tail.
      ap (λ n. decode_chunks n tail) (omega arith) ∙ sym (bind_some (decode_chunks fuel tail));
}

pub append-IsCoded : (c d x y : Bytes) → IsCoded c x → IsCoded d y → IsCoded (c ++ d) (x ++ y)
append-IsCoded c d x y h g = record {
  rounds = h.rounds + g.rounds;
  decoded = λ fuel tail.
      ap (λ n. decode_chunks n ((c ++ d) ++ tail)) (omega arith)
      ∙ ap (decode_chunks (h.rounds + (g.rounds + fuel))) (append_assoc c d tail)
      ∙ h.decoded (g.rounds + fuel) (d ++ tail)
      ∙ ap (λ o. o >>= λ b. some (x ++ b)) (g.decoded fuel tail)
      ∙ bind_append x y (decode_chunks fuel tail);
}

pub chunk_of-IsCoded : (d : Bytes) → 0 < length d → length d < int_mod → IsCoded (chunk_of d) d
chunk_of-IsCoded d pos small = record {
  rounds = 1;
  decoded = λ fuel tail.
      ap (λ n. decode_chunks n (chunk_of d ++ tail)) (omega arith)
      ∙ decode_chunk fuel d tail pos small;
}

pub chunks_of-IsCoded : (fuel : ℕ) (t : Bytes) → length t ≤ fuel → IsCoded (chunks_of fuel t) t
unfolding chunks_of
chunks_of-IsCoded zero [] le = none-IsCoded
chunks_of-IsCoded zero (c ∷ t) le = absurd (omega arith)
chunks_of-IsCoded (suc fuel) [] le = none-IsCoded
chunks_of-IsCoded (suc fuel) (c ∷ t) le =
    let piece = take max_write_size (c ∷ t) in
    let others = drop max_write_size (c ∷ t) in
    let size = length-take max_write_size (c ∷ t) in
    subst (IsCoded (chunk_of piece ++ chunks_of fuel others))
      (take-append-drop max_write_size (c ∷ t))
      (append-IsCoded (chunk_of piece) (chunks_of fuel others) piece others
        (chunk_of-IsCoded piece (omega (arith, size)) (omega (arith, size)))
        (chunks_of-IsCoded fuel others (omega (arith, length-drop max_write_size (c ∷ t)))))

-- With the last chunk behind them the bytes are decoded to the body.
pub IsCoded-decode_chunks :
    (coded body : Bytes) (h : IsCoded coded body)
    → decode_chunks (suc h.rounds) (coded ++ last_chunk) ≡ some body
IsCoded-decode_chunks coded body h =
    ap (λ n. decode_chunks n (coded ++ last_chunk)) (omega arith)
    ∙ h.decoded 1 last_chunk
    ∙ ap (λ o. o >>= λ b. some (body ++ b)) (decode_last 0)
    ∙ ap some (append-nil body)
