-- ===== src/Memory.antt =====
-- memory.c: the region that every object of a process is carved from, and never given back.
-- An address is an offset into the region's data.
mod Tests
use jawas.Base.{ℕ, ◌+◌, ◌-◌, ◌*◌, ◌%◌, ◌^◌, ◌≤◌, ◌<◌, List, [], ◌∷◌, ◌≡◌, ◌↔◌, arith, All, subst}

pub record Region : Type 0 where
  pub size : ℕ
  pub allocated : ℕ
  pub offset : ℕ

abbrev pub size_mod : ℕ
size_mod = 2 ^ 64

abbrev pub cache_pages : ℕ
cache_pages = 10000

-- `sizeof(struct region_struct)`.
abbrev pub region_header : ℕ
region_header = 24

-- A fresh mapping of `cache_pages` pages.
unfoldable pub new_region : ℕ → Region
new_region page_size = record {
  size = page_size * cache_pages;
  allocated = page_size * cache_pages - region_header;
  offset = 0;
}

unfoldable pub advance : ℕ → Region → Region
advance length r = record r { offset = (r.offset + length) % size_mod }

-- The address of the block, and the region after it.
unfoldable pub reserve : ℕ → Region → ℕ × Region
unfolding advance
reserve length r = (r.offset, advance length r)

-- A run of reservations: the blocks (address and length) in the order of the calls.
unfoldable pub reserve_all : List ℕ → Region → List (ℕ × ℕ) × Region
unfolding reserve
reserve_all [] r = ([], r)
reserve_all (l ∷ ls) r =
    let (a, r') = reserve l r in let (bs, r'') = reserve_all ls r' in ((a, l) ∷ bs, r'')

abbrev pub sum : List ℕ → ℕ
sum [] = 0
sum (l ∷ ls) = l + sum ls

-- Each block begins at or behind the end of the blocks before it, so no two of them share a byte.
abbrev pub InOrder : ℕ → List (ℕ × ℕ) → Type 0
InOrder low [] = Unit
InOrder low ((a, l) ∷ bs) = (low ≤ a) × InOrder (a + l) bs

abbrev pub Inside : ℕ → ℕ × ℕ → Type 0
Inside allocated (a, l) = a + l ≤ allocated

-- Blocks reserved one after another do not overlap, as long as the offset does not leave 64 bits.
pub reserve_all-InOrder :
    (ls : List ℕ) (r : Region)
    → r.offset + sum ls < size_mod
    → InOrder r.offset (reserve_all ls r).0
unfolding reserve_all
reserve_all-InOrder [] r h = tt
reserve_all-InOrder (l ∷ ls) r h = (
  omega arith,
  subst (λ k. InOrder k (reserve_all ls (advance l r)).0) moved
      (reserve_all-InOrder ls (advance l r) (omega (arith, moved))),
)
  where
    moved : (advance l r).offset ≡ r.offset + l
    moved = omega arith

-- Every block lies inside the region exactly if the total fits behind the offset: nothing refuses a
-- reservation that does not fit.
pub reserve_all-Inside :
    (ls : List ℕ) (r : Region)
    → r.offset + sum ls < size_mod
    → r.offset ≤ r.allocated
    → All (Inside r.allocated) (reserve_all ls r).0 ↔ (r.offset + sum ls ≤ r.allocated)
unfolding reserve_all
reserve_all-Inside [] r h k = (λ _. omega arith, λ _. tt)
reserve_all-Inside (l ∷ ls) r h k = (
  λ (now, later). omega (
    arith,
    (reserve_all-Inside ls (advance l r) (omega (arith, moved)) (omega (arith, moved))).0 later,
    moved,
  ),
  λ fits. (
    omega arith,
    (reserve_all-Inside ls (advance l r) (omega (arith, moved)) (omega (arith, moved))).1
        (omega (arith, moved)),
  ),
)
  where
    moved : (advance l r).offset ≡ r.offset + l
    moved = omega arith
