-- ===== src/Math/Tests.antt =====
-- The macros of pre_kernel/include/lib/math.h on numbers.
use lunar_prekernel.Base.{◌≡◌, arith}
use lunar_prekernel.Math.Masks.{math_align_up_lem}
use lunar_prekernel.Math.{math_align_up, math_ceil}

math_align_up_lem_example : math_align_up 5000 4096 ≡ math_ceil 5000 4096
math_align_up_lem_example = math_align_up_lem 12 (omega arith) 5000 (omega arith)
