-- ===== src/Math/Align.antt =====
-- What the rounding macros of pre_kernel/include/lib/math.h compute where no operation wraps.
use native.Mathlib.Nat.{div-add-mod', mod-lt, mul-mod_left}
use lunar_prekernel.Base.{
  ℕ, ◌+◌, ◌-◌, ◌*◌, ◌/◌, ◌%◌, ◌≤◌, ◌<◌, ◌≡◌, arith, u64_mod, add64, sub64, mul64-eq-mul,
}
use lunar_prekernel.Math.{math_div_ceil, math_ceil, math_floor}

-- The quotient rounded up, as a sum of a multiple.
ceil_split : (v p : ℕ) → 0 < p → (v ≤ (v + p - 1) / p * p) × ((v + p - 1) / p * p < v + p)
ceil_split v p pos = grind arith

-- `value + precision - 1` does not wrap, also where `value + precision` does so to 0.
pub sum_lem : (v p : ℕ) → 0 < p → v + p ≤ u64_mod → sub64 (add64 v p) 1 ≡ v + p - 1
unfolding add64 sub64
sum_lem v p pos fits = omega arith

-- `MATH_CEIL` gives the least multiple of the precision that is no smaller than the value, if the
-- precision is not 0 and their sum does not pass 2 ^ 64.
pub math_ceil_lem :
    (v p : ℕ)
    → 0 < p
    → v + p ≤ u64_mod
    → (v ≤ math_ceil v p) × (math_ceil v p < v + p) × (math_ceil v p % p ≡ 0)
unfolding math_ceil math_div_ceil
math_ceil_lem v p pos fits =
    let split = ceil_split v p pos in
    rw (sum_lem v p pos fits, mul64-eq-mul ((v + p - 1) / p) p (omega arith))
      (split.0, split.1, mul-mod_left ((v + p - 1) / p) p)

-- `MATH_FLOOR` of a 64-bit value gives the largest multiple of the precision, which is not 0, that is
-- no larger than the value.
pub math_floor_lem :
    (v p : ℕ)
    → 0 < p
    → v < u64_mod
    → (math_floor v p ≤ v) × (v < math_floor v p + p) × (math_floor v p % p ≡ 0)
unfolding math_floor
math_floor_lem v p pos fits =
    let whole : v / p * p + v % p ≡ v = div-add-mod' v p in
    rw (mul64-eq-mul (v / p) p (omega arith))
      (omega arith, omega (arith, mod-lt v pos), mul-mod_left (v / p) p)
