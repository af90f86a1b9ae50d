-- ===== src/Riscv/Cpus/Satp.antt =====
-- The value of `satp` in pre_kernel/src/arch/riscv64/arch.c: `arch_prepare_handoff` reads one as
-- `make_satp_value` writes it.
use lunar_prekernel.Base.Bits.{bit_or_above, bit_and_below}
use lunar_prekernel.Base.{
  ◌==◌, sym, ap, Bool-cases, ok, ℕ, ◌<◌, ◌^◌, bit_or, ◌*◌, bit_and, ◌+◌, ◌≡◌, ◌/◌, arith, ◌≤◌, ◌∙◌,
  ◌%◌, inl, inr,
}
use lunar_prekernel.Riscv.Cpus.{current_levels, make_satp_value, arch_csr_satp_make, current_root}
use lunar_prekernel.Riscv.Ptm.{RootTable}

satp_sum :
    (mode ppn : ℕ)
    → ppn < 2 ^ 44
    → bit_or (mode * 2 ^ 60) (bit_and ppn 0x0fff_ffff_ffff) ≡ mode * 2 ^ 60 + ppn
satp_sum mode ppn small =
    let number : 0 * 2 ^ 44 + ppn ≡ ppn = omega arith in
    let same : bit_and ppn 0x0fff_ffff_ffff ≡ ppn =
      ap (λ x. bit_and x 0x0fff_ffff_ffff) (sym number) ∙ bit_and_below 44 0 ppn small in
    ap (bit_or (mode * 2 ^ 60)) same ∙ bit_or_above 60 mode ppn (omega (arith, small))

-- What is read of a `satp` value.
satp_parts :
    (mode ppn : ℕ)
    → ppn < 2 ^ 44
    → ((mode * 2 ^ 60 + ppn) / 2 ^ 60 ≡ mode)
      × (bit_and (mode * 2 ^ 60 + ppn) 0x0fff_ffff_ffff ≡ ppn)
satp_parts mode ppn small =
    let split : mode * 2 ^ 60 + ppn ≡ mode * 2 ^ 16 * 2 ^ 44 + ppn = omega arith in
    (
      omega arith,
      ap (λ x. bit_and x 0x0fff_ffff_ffff) split ∙ bit_and_below 44 (mode * 2 ^ 16) ppn small,
    )

-- For three to five levels and a root table on a page below 2 ^ 56: `arch_prepare_handoff` finds the
-- number of levels and the address of the root table in the value that `make_satp_value` makes.
pub current_levels-make_satp_value :
    (g : RootTable) (root_pa : ℕ)
    → 3 ≤ g.level_count
    → g.level_count ≤ 5
    → root_pa % 4096 ≡ 0
    → root_pa < 2 ^ 56
    → (current_levels (make_satp_value g root_pa / 2 ^ 60) ≡ ok g.level_count)
      × (current_root (make_satp_value g root_pa) ≡ root_pa)
unfolding current_levels make_satp_value arch_csr_satp_make current_root
current_levels-make_satp_value g root_pa low high aligned small =
    let ppn = root_pa / 2 ^ 12 in
    let bounded : ppn < 2 ^ 44 = omega arith in
    elim (Bool-cases (g.level_count == 5)) [
      | inl five ↦
          let sum = satp_sum 10 ppn bounded in
          let parts = satp_parts 10 ppn bounded in
          rw (five, sum, parts.0, parts.1) (ground arith, omega arith)
      | inr other ↦ elim (Bool-cases (g.level_count == 4)) [
        | inl four ↦
            let sum = satp_sum 9 ppn bounded in
            let parts = satp_parts 9 ppn bounded in
            rw (other, four, sum, parts.0, parts.1) (ground arith, omega arith)
        | inr three ↦
            let sum = satp_sum 8 ppn bounded in
            let parts = satp_parts 8 ppn bounded in
            rw (other, three, sum, parts.0, parts.1) (ground arith, omega arith)
      ]
    ]

-- The value itself: the mode, which is 8 for three levels, 9 for four and 10 for five, above the number of
-- the root table's page
pub make_satp_value_lem :
    (g : RootTable) (root_pa : ℕ)
    → 3 ≤ g.level_count
    → g.level_count ≤ 5
    → root_pa < 2 ^ 56
    → make_satp_value g root_pa ≡ (g.level_count + 5) * 2 ^ 60 + root_pa / 4096
unfolding make_satp_value arch_csr_satp_make
make_satp_value_lem g root_pa low high small =
    let ppn = root_pa / 2 ^ 12 in
    let bounded : ppn < 2 ^ 44 = omega arith in
    elim (Bool-cases (g.level_count == 5)) [
      | inl five ↦
          let levels : g.level_count ≡ 5 = ground arith in
          rw five (omega (arith, satp_sum 10 ppn bounded, levels))
      | inr other ↦ elim (Bool-cases (g.level_count == 4)) [
        | inl four ↦
            let levels : g.level_count ≡ 4 = ground arith in
            rw (other, four) (omega (arith, satp_sum 9 ppn bounded, levels))
        | inr three ↦
            let levels : g.level_count ≡ 3 = ground arith in
            rw (other, three) (omega (arith, satp_sum 8 ppn bounded, levels))
      ]
    ]
