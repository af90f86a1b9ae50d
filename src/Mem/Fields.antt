-- ===== src/Mem/Fields.antt =====
-- Fields of several bytes, the lowest first, as pre_kernel/src reads and writes them in memory.
use native.Mathlib.Nat.{pow-succ'}
use lunar_prekernel.Base.{ℕ, zero, suc, ◌+◌, ◌/◌, ◌%◌, ◌^◌, ◌<◌, ◌≤◌, ◌≡◌, ◌∙◌, inl, refl, arith}
use lunar_prekernel.Mem.{Memory, write}
use lunar_prekernel.Mem.Text.{Outside}
use lunar_prekernel.Elf.{read_le}
use lunar_prekernel.X86.Cpus.{write_le}

-- A field's write leaves all other bytes.
pub write_le_off :
    (k at value : ℕ) (m : Memory) (x : ℕ) → Outside at k x → write_le k at value m x ≡ m x
unfolding write_le write
write_le_off zero at value m x h = refl
write_le_off (suc k) at value m x h =
    write_le_off k (suc at) (value / 256) (write m at (value % 256)) x (ground arith) ∙ ground arith

-- A field is read from its own bytes.
pub read_le_kept :
    (k at : ℕ) (m m' : Memory)
    → ((x : ℕ) → at ≤ x → x < at + k → m' x ≡ m x)
    → read_le k at m' ≡ read_le k at m
unfolding read_le
read_le_kept zero at m m' same = refl
read_le_kept (suc k) at m m' same = omega (
  arith,
  same at (omega arith) (omega arith),
  read_le_kept k (suc at) m m' (λ x low high. same x (omega arith) (omega arith)),
)

-- What was written is read back.
pub read_le-write_le :
    (k at value : ℕ) (m : Memory) → value < 256 ^ k → read_le k at (write_le k at value m) ≡ value
unfolding read_le write_le
read_le-write_le zero at value m small = omega arith
read_le-write_le (suc k) at value m small =
    let m' = write m at (value % 256) in
    let low : write_le k (suc at) (value / 256) m' at ≡ value % 256 =
      write_le_off k (suc at) (value / 256) m' at (inl (omega arith)) ∙ written at (value % 256) in
    omega
      (arith, low, read_le-write_le k (suc at) (value / 256) m' (omega (arith, pow-succ' 256 k)))
  where
    written : (a b : ℕ) → write m a b a ≡ b
    written a b = unfold write in ground arith
