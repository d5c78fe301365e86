-- ===== src/Memory/Tests.antt =====
-- Runs of memory.c on a small region, and the instances of its theorems.
use jawas.Base.{◌+◌, ◌≤◌, [], ◌∷◌, ◌≡◌, ◌↔◌, refl, arith, All}
use jawas.Memory.{
  Region, new_region, reserve_all, InOrder, Inside, reserve_all-InOrder, reserve_all-Inside,
}

abbrev small : Region
small = record { size = 64; allocated = 40; offset = 8 }

page_runs : (new_region 4096).allocated ≡ 40959976
unfolding new_region
page_runs = refl

reserve_runs : (reserve_all (16 ∷ 24 ∷ []) small).0 ≡ (8, 16) ∷ (24, 24) ∷ []
unfolding reserve_all
reserve_runs = refl

reserve_all-InOrder_example : InOrder 8 (reserve_all (16 ∷ 24 ∷ []) small).0
reserve_all-InOrder_example = reserve_all-InOrder (16 ∷ 24 ∷ []) small (omega arith)

reserve_all-Inside_example :
    All (Inside 40) (reserve_all (16 ∷ 24 ∷ []) small).0 ↔ (8 + (16 + (24 + 0)) ≤ 40)
reserve_all-Inside_example = reserve_all-Inside (16 ∷ 24 ∷ []) small (omega arith) (omega arith)
