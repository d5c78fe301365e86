-- ===== src/Auth/Tests.antt =====
-- A run of `hex`, and the instance of its theorem.
use jawas.Base.{[], ◌∷◌, some, ◌≡◌, refl, arith, Bytes, codes}
use jawas.Numbers.{hex_str}
use jawas.Format.{new_str}
use jawas.Auth.{hex, unhex, unhex-hex}

hex_runs : hex (255 ∷ 7 ∷ []) ≡ some (some (codes "ff07"))
unfolding hex new_str hex_str
hex_runs = refl

unhex-hex_example :
    (t : Bytes) × (hex (200 ∷ 0 ∷ 31 ∷ []) ≡ some (some t)) × (unhex t ≡ 200 ∷ 0 ∷ 31 ∷ [])
unhex-hex_example = unhex-hex 200 (0 ∷ 31 ∷ []) (omega arith) (omega arith)
