-- ===== src/Usage/Average.antt =====
-- usage.c: the average stays within the times that it is of.
use jawas.Base.{
  ℕ, suc, ◌+◌, ◌-◌, ◌*◌, ◌/◌, ◌%◌, ◌≤◌, ◌<◌, true, Option, ltb, lt→ltb, if◌then◌else◌, ◌≡◌, refl,
  arith, sym, Bool-cases, inl, inr, ltb→lt, subst,
}
use native.Mathlib.Nat.{
  mul-le-mul_left, mul-le-mul_right, div-lt_iff_lt-mul, div-mul-le_self, lt-div-mul-add,
  mod-eq_of_lt, zero-lt-suc,
}
use jawas.Numbers.{int_mod}
use jawas.Usage.{Usage, Rusage, elapsed, int_div, ended, stop_usage}

-- No more than a thousand hits are counted, and the average is at most `m`.
pub record IsBounded (m : ℕ) (u : Usage) : Type 0 where
  pub hits_few : u.hits ≤ 1000
  pub time_small : u.time ≤ m

-- The sum of `k` times an average and one more time fits in an `int`.
sum_small :
    (k t d m : ℕ) → k < 1000 → t ≤ m → d ≤ m → 1000 * m < 2147483648 → k * t + d < 2147483648
sum_small k t d m few ht hd small =
    let a : k * t ≤ k * m = mul-le-mul_left k ht in
    let b : k * m ≤ 999 * m = mul-le-mul_right m (omega arith) in omega (arith, a, b)

quotient_small : (k t d m : ℕ) → t ≤ m → d ≤ m → (k * t + d) / suc k ≤ m
quotient_small k t d m ht hd =
    let a : k * t ≤ k * m = mul-le-mul_left k ht in
    let below : k * t + d < (m + 1) * suc k = omega (arith, a) in
    let q : (k * t + d) / suc k < m + 1 = (div-lt_iff_lt-mul (zero-lt-suc k)).1 below in
    omega (arith, q)

-- The average `q` of `k` times an average and one more time, rounded down and at most `m`.
pub record IsAverage (q k t d m : ℕ) : Type 0 where
  pub at_most : q ≤ m
  pub not_above : q * suc k ≤ k * t + d
  pub not_below : k * t + d < q * suc k + suc k

int_div-IsAverage :
    (k t d m : ℕ)
    → k < 1000
    → t ≤ m
    → d ≤ m
    → 1000 * m < 2147483648
    → IsAverage (int_div ((k * t + d) % int_mod) (suc k)) k t d m
int_div-IsAverage k t d m few ht hd small =
    let fits = sum_small k t d m few ht hd small in
    let whole : (k * t + d) % int_mod ≡ k * t + d = mod-eq_of_lt (omega (arith, fits)) in
    let positive : ltb (k * t + d) 2147483648 ≡ true = lt→ltb _ _ fits in
    let q : int_div ((k * t + d) % int_mod) (suc k) ≡ (k * t + d) / suc k =
      rw (whole, positive) refl in
    subst (λ x. IsAverage x k t d m) (sym q)
      (record {
        at_most = quotient_small k t d m ht hd;
        not_above = div-mul-le_self (k * t + d) (suc k);
        not_below = lt-div-mul-add (zero-lt-suc k);
      })

-- Where no time is above `m`, and a thousand of them fit in an `int`, the usage stays bounded by `m`, and its
-- new time is the average, rounded down, of the old one, counted once less than there are hits, and the
-- time that has passed.
pub stop_usage-IsAverage :
    (m : ℕ) (now : Option Rusage) (u : Usage)
    → 1000 * m < 2147483648
    → IsBounded m u
    → elapsed (ended now u) ≤ m
    → IsBounded m (stop_usage now u)
      × IsAverage
          (stop_usage now u).time
          ((stop_usage now u).hits - 1)
          u.time
          (elapsed (ended now u))
          m
unfolding stop_usage
stop_usage-IsAverage m now u small b d = elim (Bool-cases (ltb u.hits 1000)) [
  | inl more ↦
      let avg =
        int_div-IsAverage u.hits u.time (elapsed (ended now u)) m (ltb→lt _ _ more) b.time_small d
          small in
      let hits : (if ltb u.hits 1000 then u.hits + 1 else u.hits) ≡ suc u.hits =
        rw more (omega arith) in
      at_hits u.hits hits (ltb→lt _ _ more) avg
  | inr full ↦
      let is_full : u.hits ≡ 1000 = ground (arith, b.hits_few) in
      let avg =
        int_div-IsAverage 999 u.time (elapsed (ended now u)) m (omega arith) b.time_small d small in
      let hits : (if ltb u.hits 1000 then u.hits + 1 else u.hits) ≡ suc 999 = rw full is_full in
      at_hits 999 hits (omega arith) avg
]
  where
    at_hits :
        (k : ℕ)
        → (if ltb u.hits 1000 then u.hits + 1 else u.hits) ≡ suc k
        → k < 1000
        → IsAverage
            (int_div ((k * u.time + elapsed (ended now u)) % int_mod) (suc k))
            k
            u.time
            (elapsed (ended now u))
            m
        → IsBounded m (stop_usage now u)
          × IsAverage
              (stop_usage now u).time
              ((stop_usage now u).hits - 1)
              u.time
              (elapsed (ended now u))
              m
    at_hits k e few a =
        let result : ℕ → ℕ =
          λ (h : ℕ). int_div (((h - 1) * u.time + elapsed (ended now u)) % int_mod) h in
        let one_less : suc k - 1 ≡ k = omega arith in
        let a' : IsAverage (result (suc k)) (suc k - 1) u.time (elapsed (ended now u)) m =
          subst
            (λ j.
              IsAverage (int_div ((j * u.time + elapsed (ended now u)) % int_mod) (suc k)) j u.time
                (elapsed (ended now u)) m)
            (sym one_less) a in
        (
          record {
            hits_few = omega (arith, e);
            time_small = subst (λ h. result h ≤ m) (sym e) a'.at_most;
          },
          subst (λ h. IsAverage (result h) (h - 1) u.time (elapsed (ended now u)) m) (sym e) a',
        )
