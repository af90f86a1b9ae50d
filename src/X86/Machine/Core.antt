-- ===== src/X86/Machine/Core.antt =====
-- A core behind `arch_machine_init` of pre_kernel/src/arch/x86_64/machine.c.

use native.Mathlib.Nat.{mod-lt, div-add-mod'}
use lunar_prekernel.Base.Bits.{bit_and_below}
use lunar_prekernel.X86.Cpuid.{fxsr, nx_pages, pat, Name}
use lunar_prekernel.Base.{
  fxsr_missing, ℕ, ◌+◌, ◌<◌, ◌*◌, ◌%◌, ◌^◌, u64_mod, ◌≡◌, bit_and, arith, Bool, ◌-◌, ◌/◌, false, ap,
  panic, sym, ◌⊎◌, ◌∙◌, true, ok, Bool-cases, inl, inr, add64, add64-eq-add, refl,
}
use lunar_prekernel.X86.Machine.{
  GdtSystemEntry, tss_entry, machine_setup_control_registers, arch_machine_init, Cpu,
  arch_msr_write, machine_setup_gdt, setup_page_table_attributes, arch_msr_active_gs_base,
  arch_msr_inactive_gs_base, control_registers,
}
use lunar_prekernel.Bootinfo.{CoreStartInfo}

-- The base that a processor reads in a system descriptor, and the limit.
abbrev pub descriptor_base : GdtSystemEntry → ℕ
descriptor_base e =
    e.entry.base_low
    + e.entry.base_mid * 2 ^ 16
    + e.entry.base_high * 2 ^ 24
    + e.base_extended * 2 ^ 32

abbrev pub descriptor_limit : GdtSystemEntry → ℕ
descriptor_limit e = e.entry.limit_low + e.entry.limit_high_flags % 16 * 2 ^ 16

-- The low bits of a number
low_bits : (w x : ℕ) → 0 < 2 ^ w → bit_and x (2 ^ w - 1) ≡ x % 2 ^ w
low_bits w x pos =
    ap (λ y. bit_and y (2 ^ w - 1)) (sym (div-add-mod' x (2 ^ w)))
    ∙ bit_and_below w (x / 2 ^ w) (x % 2 ^ w) (mod-lt x pos)

-- A processor reads the base and the limit in the descriptor that it was made of.
tss_entry_lem :
    (base limit : ℕ)
    → base < u64_mod
    → limit < 2 ^ 20
    → (descriptor_base (tss_entry base limit) ≡ base)
      × (descriptor_limit (tss_entry base limit) ≡ limit)
unfolding tss_entry
tss_entry_lem base limit fits small = (
  omega (
    arith,
    low_bits 16 base (omega arith),
    low_bits 8 (base / 2 ^ 16) (omega arith),
    low_bits 8 (base / 2 ^ 24) (omega arith),
  ),
  omega (arith, low_bits 16 limit (omega arith), low_bits 4 (limit / 2 ^ 16) (omega arith)),
)

-- A core that is set up from its start info. The table has six entries of eight bytes and the one of the
-- task state segment, of sixteen, which is present and not in use; the selectors are those of the second
-- entry, the third and the last one. What `xcr0` was stays.
pub record IsReady (info : CoreStartInfo) (c c' : Cpu) : Type 0 where
  pub protected_mode : c'.cr0 ≡ 0x8001_0013
  pub same_xcr0 : c'.xcr0 ≡ c.xcr0
  pub table : c'.gdt_base ≡ info.arch_pointer
  pub task_base : descriptor_base c'.gdt.tss ≡ info.arch_pointer + 64
  pub task_limit : descriptor_limit c'.gdt.tss ≡ 103
  pub task_available : c'.gdt.tss.entry.access ≡ 0x89
  pub table_limit : c'.gdt_limit + 1 ≡ 6 * 8 + 16
  pub selectors : (c'.cs ≡ 1 * 8) × (c'.ds ≡ 2 * 8) × (c'.tr ≡ 6 * 8) × (c'.ldt ≡ 0)
  pub active_gs : c'.msr arch_msr_active_gs_base ≡ info.cpu_local
  pub inactive_gs : c'.msr arch_msr_inactive_gs_base ≡ 0

registers_lem :
    (supported : Name → Bool) (c : Cpu)
    → ((control_registers supported c).cr0 ≡ 0x8001_0013)
      × ((control_registers supported c).xcr0 ≡ c.xcr0)
unfolding control_registers arch_msr_write setup_page_table_attributes
registers_lem supported c = elim (Bool-cases (supported nx_pages)) [
  | inl nx ↦ elim (Bool-cases (supported pat)) [
    | inl p ↦ rw (nx, p) (refl, refl)
    | inr p ↦ rw (nx, p) (refl, refl)
  ]
  | inr nx ↦ elim (Bool-cases (supported pat)) [
    | inl p ↦ rw (nx, p) (refl, refl)
    | inr p ↦ rw (nx, p) (refl, refl)
  ]
]

-- The core at the end of `arch_machine_init`.
abbrev ready : (Name → Bool) → CoreStartInfo → Cpu → Cpu
ready supported info c =
    let tabled = machine_setup_gdt info.arch_pointer (control_registers supported c) in
    arch_msr_write arch_msr_inactive_gs_base 0
      (arch_msr_write arch_msr_active_gs_base info.cpu_local tabled)

ready-IsReady :
    (supported : Name → Bool) (info : CoreStartInfo) (c : Cpu)
    → info.arch_pointer + 64 < u64_mod
    → IsReady info c (ready supported info c)
unfolding machine_setup_gdt arch_msr_write
ready-IsReady supported info c fits =
    let at : add64 info.arch_pointer 64 ≡ info.arch_pointer + 64 =
      add64-eq-add info.arch_pointer 64 fits in
    let task = tss_entry_lem (add64 info.arch_pointer 64) 103 (omega (arith, at)) (omega arith) in
    let registers = registers_lem supported c in
    record {
      protected_mode = registers.0;
      same_xcr0 = registers.1;
      table = refl;
      task_base = task.0 ∙ at;
      task_limit = task.1;
      task_available = unfold tss_entry in refl;
      table_limit = refl;
      selectors = (refl, refl, refl, refl);
      active_gs = refl;
      inactive_gs = refl;
    }

-- `arch_machine_init` with a start info whose block does not reach the end of the address space: without
-- FXSR it panics; with it the core runs in protected mode on its own descriptor table, with the limit and
-- the selectors of its entries, whose task state segment is the one in the block, finds its `cpu_local`
-- through GS, and has the `xcr0` that it had, whatever else it supports.
pub arch_machine_init_lem :
    (supported : Name → Bool) (info : CoreStartInfo) (c : Cpu)
    → info.arch_pointer + 64 < u64_mod
    → ((supported fxsr ≡ false) × (arch_machine_init supported info c ≡ panic fxsr_missing))
      ⊎ ((supported fxsr ≡ true)
          × (c' : Cpu) × (arch_machine_init supported info c ≡ ok c')
          × IsReady info c c')
unfolding arch_machine_init machine_setup_control_registers
arch_machine_init_lem supported info c fits = elim (Bool-cases (supported fxsr)) [
  | inr missing ↦ inl (missing, rw missing refl)
  | inl there ↦
      inr (there, ready supported info c, rw there refl, ready-IsReady supported info c fits)
]
