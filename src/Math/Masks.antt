-- ===== src/Math/Masks.antt =====
-- The masks of pre_kernel/include/lib/math.h: where the alignment is a power of two, they round as the
-- divisions do.
use native.Mathlib.Nat.{div-add-mod', mod-lt, div-lt_iff_lt-mul, one-le-pow, pow-succ'}
use lunar_prekernel.Base.{
  ℕ, zero, suc, ◌+◌, ◌-◌, ◌*◌, ◌/◌, ◌%◌, ◌^◌, ◌≤◌, ◌<◌, ◌≡◌, sym, ap, ◌∙◌, arith, u64_mod, bit_and,
  sub64, sub64-eq-sub, mul64-eq-mul, add64, add64-eq-add, mul64,
}
use lunar_prekernel.Base.Bits.{bit_and_above}
use lunar_prekernel.Math.Align.{sum_lem}
use lunar_prekernel.Math.{
  math_ceil, math_div_ceil, math_align_up, not64, math_floor, math_align_down,
}

pow_sum : (a b : ℕ) → 2 ^ (a + b) ≡ 2 ^ a * 2 ^ b
pow_sum zero b = let none_more : 0 + b ≡ b = omega arith in rw none_more (omega arith)
pow_sum (suc a) b =
    let one_more : suc a + b ≡ suc (a + b) = omega arith in
    rw (one_more, pow-succ' 2 (a + b), pow_sum a b, pow-succ' 2 a) (grind arith)

less_one : (a p : ℕ) → 1 ≤ a → (a - 1) * p ≡ a * p - p
less_one zero p h = absurd (omega arith)
less_one (suc a) p h = let back : suc a - 1 ≡ a = omega arith in rw back (grind arith)

module _ (k : ℕ) (small : k < 64) where
  powers : 2 ^ (64 - k) * 2 ^ k ≡ u64_mod
  powers =
      let all : 64 - k + k ≡ 64 = omega arith in
      sym (pow_sum (64 - k) k) ∙ ap (λ (n : ℕ). 2 ^ n) all

  power_fits : 2 ^ k < u64_mod
  power_fits =
      let one_more : suc (63 - k) ≡ 64 - k = omega arith in
      let some : 1 ≤ 2 ^ (63 - k) = one-le-pow (63 - k) 2 (omega arith) in
      let low : 1 ≤ 2 ^ k = one-le-pow k 2 (omega arith) in
      let plain : 2 ≤ 2 ^ suc (63 - k) = omega (arith, pow-succ' 2 (63 - k)) in
      let two_powers : 2 ≤ 2 ^ (64 - k) = rw one_more at plain in grind (arith, powers)

  mask_lem : not64 (sub64 (2 ^ k) 1) ≡ (2 ^ (64 - k) - 1) * 2 ^ k
  unfolding not64
  mask_lem =
      let low : 1 ≤ 2 ^ k = one-le-pow k 2 (omega arith) in
      let some : 1 ≤ 2 ^ (64 - k) = one-le-pow (64 - k) 2 (omega arith) in
      let below : sub64 (2 ^ k) 1 ≡ 2 ^ k - 1 = sub64-eq-sub (2 ^ k) 1 low power_fits in
      rw
        (
          below,
          sub64-eq-sub 0xffff_ffff_ffff_ffff (2 ^ k - 1) (omega (arith, power_fits)) (omega arith),
        )
        (omega (arith, less_one (2 ^ (64 - k)) (2 ^ k) some, powers, power_fits))

  masked : (x : ℕ) → x < u64_mod → bit_and x (not64 (sub64 (2 ^ k) 1)) ≡ x / 2 ^ k * 2 ^ k
  masked x fits =
      let low : 0 < 2 ^ k = one-le-pow k 2 (omega arith) in
      let high : x / 2 ^ k < 2 ^ (64 - k) = (div-lt_iff_lt-mul low).1 (omega (arith, powers)) in
      let parts : x / 2 ^ k * 2 ^ k + x % 2 ^ k ≡ x = div-add-mod' x (2 ^ k) in
      rw mask_lem
        (rw parts at (bit_and_above k (64 - k) (x / 2 ^ k) (x % 2 ^ k) high (mod-lt x low)))

  -- `MATH_ALIGN_DOWN` of a 64-bit value to a power of two below 2 ^ 64 is `MATH_FLOOR`.
  pub math_align_down_lem : (x : ℕ) → x < u64_mod → math_align_down x (2 ^ k) ≡ math_floor x (2 ^ k)
  unfolding math_align_down math_floor
  math_align_down_lem x fits =
      let whole : x / 2 ^ k * 2 ^ k + x % 2 ^ k ≡ x = div-add-mod' x (2 ^ k) in
      masked x fits ∙ sym (mul64-eq-mul (x / 2 ^ k) (2 ^ k) (omega arith))

  -- `MATH_ALIGN_UP` to a power of two below 2 ^ 64 is `MATH_CEIL`, if the sum of the value and the
  -- power does not pass 2 ^ 64.
  pub math_align_up_lem :
      (x : ℕ) → x + 2 ^ k ≤ u64_mod → math_align_up x (2 ^ k) ≡ math_ceil x (2 ^ k)
  unfolding math_align_up math_ceil math_div_ceil
  math_align_up_lem x fits =
      let low : 1 ≤ 2 ^ k = one-le-pow k 2 (omega arith) in
      let below : sub64 (2 ^ k) 1 ≡ 2 ^ k - 1 = sub64-eq-sub (2 ^ k) 1 low power_fits in
      let sum : add64 x (2 ^ k - 1) ≡ x + 2 ^ k - 1 =
        add64-eq-add x (2 ^ k - 1) (omega arith) ∙ omega arith in
      let whole : (x + 2 ^ k - 1) / 2 ^ k * 2 ^ k + (x + 2 ^ k - 1) % 2 ^ k ≡ x + 2 ^ k - 1 =
        div-add-mod' (x + 2 ^ k - 1) (2 ^ k) in
      let raised : add64 x (sub64 (2 ^ k) 1) ≡ x + 2 ^ k - 1 = rw below sum in
      ap (λ y. bit_and y (not64 (sub64 (2 ^ k) 1))) raised
      ∙ masked (x + 2 ^ k - 1) (omega arith)
      ∙ sym (
          ap (λ y. mul64 (y / 2 ^ k) (2 ^ k)) (sum_lem x (2 ^ k) low fits)
          ∙ mul64-eq-mul ((x + 2 ^ k - 1) / 2 ^ k) (2 ^ k) (omega arith))
