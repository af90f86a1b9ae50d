-- ===== src/Riscv/Ptm/Hardware.antt =====
-- Page tables as the processor of riscv64 reads them, by the layout of its entries, and the functions of
-- pre_kernel/src/arch/riscv64/ptm.c on the same words.
use lunar_prekernel.Base.Bits.{bit_and_below, bit_and_lt, bit_and_halves}
use lunar_prekernel.Riscv.Ptm.{pte_to_pa, vaddr_vpn, leaf_flags, ℕ, mul64}
use lunar_prekernel.Riscv.Ptm.Entries.{entry_of, sum_lem}
use lunar_prekernel.Riscv.Ptm.Walk.{walk}
use lunar_prekernel.Riscv.Ptm.Descend.{leaf_flags_lem}
use lunar_prekernel.Base.{
  ℕ, zero, suc, ◌+◌, ◌-◌, ◌*◌, ◌/◌, ◌%◌, ◌^◌, ◌<◌, bit_and, ◌≡◌, refl, Bool, true, false, not, ◌&&◌,
  ◌||◌, Option, none, some, arith, ◌==◌, if◌then◌else◌, mul64,
}

-- Each level goes by nine bits of the address, those of level 1 right above the twelve of a page.
abbrev pub index_at : ℕ → ℕ → ℕ
index_at vaddr level = vaddr / 2 ^ (12 + 9 * (level - 1)) % 512

-- The page number of an entry is in the bits from the tenth on.
abbrev pub page_at : ℕ → ℕ
page_at entry = entry / 2 ^ 10 * 2 ^ 12 % 2 ^ 64

-- An entry that is valid (bit 0) leads to a table if it may be neither read (bit 1) nor written (bit 2)
-- nor executed (bit 3).
abbrev pub leads_on : ℕ → Bool
leads_on entry = entry % 2 == 1 && entry / 2 % 2 == 0 && entry / 4 % 2 == 0 && entry / 8 % 2 == 0

-- The table that the processor reaches for an address, from a table some levels above it
unfoldable pub table_walk : ℕ → ℕ → ℕ → ℕ → (ℕ → ℕ) → Option ℕ
table_walk zero target table vaddr words = some table
table_walk (suc k) target table vaddr words =
    let entry = words (table + 8 * index_at vaddr (target + suc k)) in
    let rest = table_walk k target (page_at entry) vaddr words in
    if leads_on entry then rest else none

-- The entry for a page with the permissions that a mapping's flags name: 4 to read, 2 to write and 1 to
-- execute
abbrev pub page_entry : ℕ → ℕ → ℕ
page_entry paddr flags =
    paddr / 4096 * 2 ^ 10 + flags % 2 * 8 + flags / 2 % 2 * 4 + flags / 4 % 2 * 2 + 1

no_bits : (x : ℕ) → bit_and x 0 ≡ 0
no_bits x = omega (arith, bit_and_lt 0 x 0 (omega arith))

bit_1 : (x : ℕ) → bit_and x 1 ≡ x % 2
bit_1 x = omega (arith, bit_and_halves x 1, no_bits (x / 2))

bit_2 : (x : ℕ) → bit_and x 2 ≡ x / 2 % 2 * 2
bit_2 x = omega (arith, bit_and_halves x 2, bit_1 (x / 2))

bit_4 : (x : ℕ) → bit_and x 4 ≡ x / 4 % 2 * 4
bit_4 x = omega (arith, bit_and_halves x 4, bit_2 (x / 2))

bits_3 : (x : ℕ) → bit_and x 3 ≡ x % 2 + x / 2 % 2 * 2
bits_3 x = omega (arith, bit_and_halves x 3, bit_1 (x / 2))

bits_7 : (x : ℕ) → bit_and x 7 ≡ x % 2 + x / 2 % 2 * 2 + x / 4 % 2 * 4
bits_7 x = omega (arith, bit_and_halves x 7, bits_3 (x / 2))

bits_14 : (x : ℕ) → bit_and x 14 ≡ x / 2 % 2 * 2 + x / 4 % 2 * 4 + x / 8 % 2 * 8
bits_14 x = omega (arith, bit_and_halves x 14, bits_7 (x / 2))

pub vaddr_vpn-index_at : (vaddr level : ℕ) → vaddr_vpn vaddr level ≡ index_at vaddr level
unfolding vaddr_vpn
vaddr_vpn-index_at vaddr level =
    let n = vaddr / 2 ^ (12 + 9 * (level - 1)) in
    let parts : n / 512 * 2 ^ 9 + n % 512 ≡ n = omega arith in
    rw parts at (bit_and_below 9 (n / 512) (n % 512) (omega arith))

pub pte_to_pa-page_at : (entry : ℕ) → pte_to_pa entry ≡ page_at entry
unfolding pte_to_pa mul64
pte_to_pa-page_at entry = refl

leads_on_lem : (e : ℕ) → leads_on e ≡ not (bit_and e 1 == 0 || not (bit_and e 14 == 0))
leads_on_lem e = ground (arith, bit_1 e, bits_14 e)

turned : (stop : Bool) (o : Option ℕ) → (if stop then none else o) ≡ (if not stop then o else none)
turned true o = refl
turned false o = refl

pub walk-table_walk :
    (k target table vaddr : ℕ) (words : ℕ → ℕ)
    → walk k target table vaddr words ≡ table_walk k target table vaddr words
unfolding walk table_walk
walk-table_walk zero target table vaddr words = refl
walk-table_walk (suc k) target table vaddr words =
    let entry = words (table + 8 * index_at vaddr (target + suc k)) in
    rw
      (
        vaddr_vpn-index_at vaddr (target + suc k),
        leads_on_lem entry,
        pte_to_pa-page_at entry,
        ← walk-table_walk k target (page_at entry) vaddr words,
      )
      (turned (bit_and entry 1 == 0 || not (bit_and entry 14 == 0))
        (walk k target (page_at entry) vaddr words))

pub entry_of-page_entry :
    (paddr flags : ℕ)
    → paddr % 4096 ≡ 0
    → paddr < 2 ^ 56
    → entry_of paddr (leaf_flags flags) ≡ page_entry paddr flags
unfolding leaf_flags
entry_of-page_entry paddr flags aligned small =
    let permissions : leaf_flags flags ≡ flags % 2 * 8 + flags / 2 % 2 * 4 + flags / 4 % 2 * 2 + 1 =
      ground (arith, bit_1 flags, bit_2 flags, bit_4 flags) in
    omega (
      arith,
      sum_lem paddr (leaf_flags flags) aligned small (omega (arith, leaf_flags_lem flags)),
      permissions,
    )
