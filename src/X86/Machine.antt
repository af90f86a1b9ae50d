-- ===== src/X86/Machine.antt =====
-- The set-up of a core, pre_kernel/src/arch/x86_64/machine.c with the descriptor table of
-- pre_kernel/src/arch/x86_64/gdt.c and pre_kernel/include/arch/x86_64/arch/gdt.h. What goes to the log is
-- left out.
pub mod Core
use lunar_prekernel.Base.{
  ℕ, ◌*◌, if◌then◌else◌, bit_or, bit_and, add64, ◌==◌, ◌^◌, Bool, ◌/◌, Outcome, ◌%◌, false, ◌>>=◌,
  not, ok, panic, fxsr_missing,
}
use lunar_prekernel.X86.Cpuid.{
  umip, smep, smap, fred, global_pages, xsave, avx, avx512, fxsr, nx_pages, pat, Name,
}
use lunar_prekernel.Bootinfo.{CoreStartInfo}

-- `arch_gdt_entry_t`, `arch_gdt_system_entry_t` and `arch_gdt_t`
pub record GdtEntry : Type 0 where
  pub limit_low : ℕ
  pub base_low : ℕ
  pub base_mid : ℕ
  pub access : ℕ
  pub limit_high_flags : ℕ
  pub base_high : ℕ

pub record GdtSystemEntry : Type 0 where
  pub entry : GdtEntry
  pub base_extended : ℕ
  pub reserved0 : ℕ

pub record Gdt : Type 0 where
  pub null : GdtEntry
  pub kernel_code : GdtEntry
  pub kernel_data : GdtEntry
  pub user_code_32 : GdtEntry
  pub user_data : GdtEntry
  pub user_code : GdtEntry
  pub tss : GdtSystemEntry

-- `DEFINE_SEGMENT`, and an entry that is all 0
abbrev define_segment : ℕ → ℕ → GdtEntry
define_segment access flags = record {
  limit_low = 0;
  base_low = 0;
  base_mid = 0;
  access = access;
  limit_high_flags = flags * 16;
  base_high = 0;
}

unfoldable pub g_arch_gdt_static_data : Gdt
g_arch_gdt_static_data = record {
  null = define_segment 0 0;
  kernel_code = define_segment 0x9b 0xa;
  kernel_data = define_segment 0x93 0xc;
  user_code_32 = define_segment 0xfb 0xa;
  user_data = define_segment 0xf3 0xc;
  user_code = define_segment 0xfb 0xa;
  tss = record { entry = define_segment 0 0; base_extended = 0; reserved0 = 0 };
}

-- The registers of a core that the code writes, and the descriptor table in its start info block. The
-- selectors are those that the table is loaded with.
pub record Cpu : Type 0 where
  pub cr0 : ℕ
  pub cr4 : ℕ
  pub xcr0 : ℕ
  pub msr : ℕ → ℕ
  pub gdt : Gdt
  pub gdt_base : ℕ
  pub gdt_limit : ℕ
  pub cs : ℕ
  pub ds : ℕ
  pub tr : ℕ
  pub ldt : ℕ

abbrev pub arch_msr_efer : ℕ
arch_msr_efer = 0xc000_0080

abbrev pub arch_msr_active_gs_base : ℕ
arch_msr_active_gs_base = 0xc000_0101

abbrev pub arch_msr_inactive_gs_base : ℕ
arch_msr_inactive_gs_base = 0xc000_0102

abbrev pub arch_msr_pat_msr : ℕ
arch_msr_pat_msr = 0x277

unfoldable pub arch_msr_write : ℕ → ℕ → Cpu → Cpu
arch_msr_write number value c = record c { msr = λ n. if n == number then value else c.msr n }

unfoldable pub setup_page_table_attributes : Cpu → Cpu
setup_page_table_attributes c =
    let first = bit_or 6 (4 * 2 ^ 8) in
    let third = bit_or (bit_or first (7 * 2 ^ 16)) (0 * 2 ^ 24) in
    let fifth = bit_or (bit_or third (1 * 2 ^ 32)) (0 * 2 ^ 40) in
    arch_msr_write arch_msr_pat_msr (bit_or (bit_or fifth (0 * 2 ^ 48)) (0 * 2 ^ 56)) c

module _ (supported : Name → Bool) where
  -- The value of CR4, from the one before
  unfoldable pub next_cr4 : ℕ → ℕ
  next_cr4 old =
      let base = if bit_and old (2 ^ 12) == 0 then 0x620 else bit_or 0x620 (2 ^ 12) in
      let umip_on = if supported umip then bit_or base (2 ^ 11) else base in
      let smep_on = if supported smep then bit_or umip_on (2 ^ 20) else umip_on in
      let smap_on = if supported smap then bit_or smep_on (2 ^ 21) else smep_on in
      let fred_on = if supported fred then bit_or smap_on (2 ^ 32) else smap_on in
      let global_on = if supported global_pages then bit_or fred_on (2 ^ 7) else fred_on in
      if supported xsave then bit_or global_on (2 ^ 18) else global_on

  -- `xcr0` of `machine_setup_control_registers`
  unfoldable pub next_xcr0 : ℕ
  next_xcr0 =
      let base = bit_or (bit_or 0 1) 2 in
      let avx_on = if supported avx then bit_or base 4 else base in
      let avx512_on =
        if supported avx512 then bit_or (bit_or (bit_or avx_on 32) 64) 128 else avx_on in
      if supported xsave then avx512_on else 0

  -- The writes of `machine_setup_control_registers`; `write_xcr0` is false from its declaration on.
  unfoldable pub control_registers : Cpu → Cpu
  control_registers c =
      let write_xcr0 = false in
      let cr4 = next_cr4 c.cr4 in
      let started : Cpu = record c { cr0 = 0x8001_0013 } in
      let cached = if supported pat then setup_page_table_attributes started else started in
      let controlled : Cpu = record cached { cr4 = cr4 } in
      let extended : Cpu =
        if write_xcr0 then record controlled { xcr0 = next_xcr0 } else controlled in
      if supported nx_pages
      then arch_msr_write arch_msr_efer (bit_or (extended.msr arch_msr_efer) (2 ^ 11)) extended
      else extended

  unfoldable pub machine_setup_control_registers : Cpu → Outcome Cpu
  machine_setup_control_registers c =
      if not (supported fxsr) then panic fxsr_missing else ok (control_registers c)

-- The descriptor of a task state segment
unfoldable pub tss_entry : ℕ → ℕ → GdtSystemEntry
tss_entry tss_base tss_limit = record {
  entry = record {
    limit_low = bit_and tss_limit 0xffff;
    base_low = bit_and tss_base 0xffff;
    base_mid = bit_and (tss_base / 2 ^ 16) 0xff;
    access = 0x89;
    limit_high_flags = bit_and (tss_limit / 2 ^ 16) 0xf;
    base_high = bit_and (tss_base / 2 ^ 24) 0xff;
  };
  base_extended = tss_base / 2 ^ 32 % 2 ^ 32;
  reserved0 = 0;
}

-- `block` is the address of the `arch_core_start_info_t`: the table is at its start, 64 bytes long, and
-- the task state segment of 104 bytes behind it.
unfoldable pub machine_setup_gdt : ℕ → Cpu → Cpu
machine_setup_gdt block c =
    let table : Gdt = record g_arch_gdt_static_data { tss = tss_entry (add64 block 64) 103 } in
    record c { gdt = table; gdt_base = block; gdt_limit = 63; cs = 8; ds = 16; tr = 48; ldt = 0 }

unfoldable pub arch_machine_init : (Name → Bool) → CoreStartInfo → Cpu → Outcome Cpu
arch_machine_init supported info c = machine_setup_control_registers supported c >>= λ c'.
    let tabled = machine_setup_gdt info.arch_pointer c' in
    let active = arch_msr_write arch_msr_active_gs_base info.cpu_local tabled in
    ok (arch_msr_write arch_msr_inactive_gs_base 0 active)
