-- ===== src/Math.antt =====
-- The macros of pre_kernel/include/lib/math.h, at 64-bit unsigned operands.
pub mod Align
pub mod Masks
mod Tests
use lunar_prekernel.Base.{
  ℕ, ◌+◌, ◌*◌, ◌/◌, ◌≤◌, ◌<◌, Bool, ltb, if◌then◌else◌, add64, sub64, mul64, bit_and, not, ◌==◌,
  ◌&&◌,
}

-- `MATH_DIV_CEIL`; the division by 0 is the caller's to rule out
unfoldable pub math_div_ceil : ℕ → ℕ → ℕ
math_div_ceil dividend divisor = sub64 (add64 dividend divisor) 1 / divisor

-- `MATH_CEIL`
unfoldable pub math_ceil : ℕ → ℕ → ℕ
math_ceil value precision = mul64 (math_div_ceil value precision) precision

-- `MATH_FLOOR`
unfoldable pub math_floor : ℕ → ℕ → ℕ
math_floor value precision = mul64 (value / precision) precision

-- `~x` on 64 bits
unfoldable pub not64 : ℕ → ℕ
not64 x = sub64 0xffff_ffff_ffff_ffff x

-- `MATH_IS_POWER_OF_TWO`
unfoldable pub math_is_power_of_two : ℕ → Bool
math_is_power_of_two x = not (x == 0) && bit_and x (sub64 x 1) == 0

-- `MATH_ALIGN_UP`
unfoldable pub math_align_up : ℕ → ℕ → ℕ
math_align_up x align = bit_and (add64 x (sub64 align 1)) (not64 (sub64 align 1))

-- `MATH_ALIGN_DOWN`
unfoldable pub math_align_down : ℕ → ℕ → ℕ
math_align_down x align = bit_and x (not64 (sub64 align 1))

-- `MATH_MIN` and `MATH_MAX`
unfoldable pub math_min : ℕ → ℕ → ℕ
math_min a b = if ltb a b then a else b

unfoldable pub math_max : ℕ → ℕ → ℕ
math_max a b = if ltb b a then a else b
