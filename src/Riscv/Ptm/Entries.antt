-- ===== src/Riscv/Ptm/Entries.antt =====
-- The entries that `map_page` (pre_kernel/src/arch/riscv64/ptm.c) writes: the address and the flags that
-- the hardware reads in them.
use lunar_prekernel.Base.{
  ℕ, ◌+◌, ◌*◌, ◌/◌, ◌%◌, ◌^◌, ◌<◌, ◌≡◌, ◌∙◌, ap, sym, arith, bit_and, bit_or, mul64, mul64-eq-mul,
  ◌-◌,
}
use lunar_prekernel.Base.Bits.{bit_or_above, bit_and_below, bit_and_halves, bit_and_lt}
use lunar_prekernel.Riscv.Ptm.{pa_to_ppn, pte_to_pa, vaddr_vpn}

-- An entry with an address and flags, as the code puts it together
abbrev pub entry_of : ℕ → ℕ → ℕ
entry_of pa flags = bit_or (mul64 (pa_to_ppn pa) 1024) flags

pub vaddr_vpn-lt : (vaddr level : ℕ) → vaddr_vpn vaddr level < 512
unfolding vaddr_vpn
vaddr_vpn-lt vaddr level = bit_and_lt 9 (vaddr / 2 ^ (12 + 9 * (level - 1))) 0x1ff (omega arith)

module _ (pa flags : ℕ) (aligned : pa % 4096 ≡ 0) (small : pa < 2 ^ 56) (low : flags < 1024) where
  pub sum_lem : entry_of pa flags ≡ pa / 4096 * 1024 + flags
  unfolding pa_to_ppn
  sum_lem =
      let ppn = pa / 2 ^ 12 in
      let number : 0 * 2 ^ 44 + ppn ≡ ppn = omega arith in
      let same : bit_and ppn 0xfff_ffff_ffff ≡ ppn =
        ap (λ x. bit_and x 0xfff_ffff_ffff) (sym number) ∙ bit_and_below 44 0 ppn (omega arith) in
      rw (same, mul64-eq-mul ppn 1024 (omega arith)) (bit_or_above 10 ppn flags low)

  -- The address is read back.
  pub pte_to_pa-entry_of : pte_to_pa (entry_of pa flags) ≡ pa
  unfolding pte_to_pa
  pte_to_pa-entry_of =
      let ppn : (pa / 4096 * 1024 + flags) / 2 ^ 10 ≡ pa / 4096 = omega arith in
      rw (sum_lem, ppn, mul64-eq-mul (pa / 4096) 4096 (omega arith)) (omega arith)

  -- The four lowest bits are those of the flags.
  pub flag_bits :
      (bit_and (entry_of pa flags) 1 ≡ flags % 2)
      × (bit_and (entry_of pa flags) 14 ≡ flags / 2 % 8 * 2)
  flag_bits =
      let ones : pa / 4096 * 1024 + flags ≡ (pa / 4096 * 512 + flags / 2) * 2 ^ 1 + flags % 2 =
        omega arith in
      let half : (pa / 4096 * 1024 + flags) / 2 ≡ pa / 4096 * 512 + flags / 2 = omega arith in
      let rest : pa / 4096 * 512 + flags / 2
          ≡ (pa / 4096 * 64 + flags / 2 / 8) * 2 ^ 3 + flags / 2 % 8 =
        omega arith in
      (
        rw sum_lem
            (rw ones (bit_and_below 1 (pa / 4096 * 512 + flags / 2) (flags % 2) (omega arith))),
        rw sum_lem (
            bit_and_halves (pa / 4096 * 1024 + flags) 14
            ∙ rw half (
                rw rest (
                  omega (
                    arith,
                    bit_and_below 3 (pa / 4096 * 64 + flags / 2 / 8) (flags / 2 % 8) (omega arith),
                  )))),
      )
