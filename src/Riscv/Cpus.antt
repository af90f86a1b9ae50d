-- ===== src/Riscv/Cpus.antt =====
-- The cores, the trampoline and the platform's description on riscv64,
-- pre_kernel/src/arch/riscv64/arch.c with pre_kernel/include/arch/riscv64/arch/csr.h. What goes to the
-- log is left out.
pub mod Satp
pub mod Trampoline
use lunar_prekernel.Base.{
  ◌∷◌, ℕ, unsupported_satp_mode, ◌*◌, bit_or, if◌then◌else◌, Outcome, ◌^◌, bit_and, ◌==◌, Bool, ◌/◌,
  ok, List, false, panic, add64, ◌>>=◌, mul64, [], true, suc, not, zero,
}
use lunar_prekernel.Pmm.{used}
use lunar_prekernel.Riscv.Ptm.{RootTable, ptm_map, ptm_map_at}
use lunar_prekernel.Bootinfo.{BootInfo, World, CoreStartInfo, KernelInfo, core_start_info_size}
use lunar_prekernel.Math.{math_align_up}
use lunar_prekernel.Pmm.Alloc.{page, pmm_alloc, pmm_alloc_ext}
use lunar_prekernel.X86.Cpus.{Started, new_stack, write_le, store_start_info}
use lunar_prekernel.Mem.{memcpy, memset}

abbrev arch_csr_satp_mode_sv39 : ℕ
arch_csr_satp_mode_sv39 = 8 * 2 ^ 60

abbrev arch_csr_satp_mode_sv48 : ℕ
arch_csr_satp_mode_sv48 = 9 * 2 ^ 60

abbrev arch_csr_satp_mode_sv57 : ℕ
arch_csr_satp_mode_sv57 = 10 * 2 ^ 60

abbrev arch_csr_satp_ppn_mask : ℕ
arch_csr_satp_ppn_mask = 0x0fff_ffff_ffff

unfoldable pub arch_csr_satp_make : ℕ → ℕ → ℕ
arch_csr_satp_make mode root_pa = bit_or mode (bit_and (root_pa / 2 ^ 12) arch_csr_satp_ppn_mask)

unfoldable pub make_satp_value : RootTable → ℕ → ℕ
make_satp_value g root_pa =
    let mode =
      if g.level_count == 5
      then arch_csr_satp_mode_sv57
      else if g.level_count == 4
      then arch_csr_satp_mode_sv48
      else arch_csr_satp_mode_sv39 in
    arch_csr_satp_make mode root_pa

-- What ACPI and the device tree say is an argument each.
unfoldable pub arch_parse_extentions :
    (BootInfo → World → Outcome (Bool × (BootInfo × World)))
    → (BootInfo → World → Outcome (Bool × (BootInfo × World)))
    → BootInfo
    → World
    → Outcome (Bool × (BootInfo × World))
arch_parse_extentions arch_acpi_parse_extentions arch_fdt_parse_extentions boot w =
    (if boot.rdsp_physical == 0 then ok (false, (boot, w)) else arch_acpi_parse_extentions boot w)
    >>= λ (parsed, (boot', w')).
        if parsed
        then ok (true, (boot', w'))
        else if not (boot'.dtb_physical == 0)
        then arch_fdt_parse_extentions boot' w'
        else ok (false, (boot', w'))

-- The depth of the tables in use, by the mode in `satp`
unfoldable pub current_levels : ℕ → Outcome ℕ
current_levels mode =
    if mode == 10
    then ok 5
    else if mode == 9
    then ok 4
    else if mode == 8
    then ok 3
    else panic unsupported_satp_mode

-- The root of the tables in use
unfoldable pub current_root : ℕ → ℕ
current_root satp = bit_and satp arch_csr_satp_ppn_mask * 2 ^ 12

-- The trampoline stands at `handoff`, `bytes` long; it is mapped where it is in memory, in the tables
-- in use, which `satp` gives, and in the new ones. The result starts with what goes into
-- `g_boot_trampoline`.
unfoldable pub arch_prepare_handoff : RootTable → ℕ → ℕ → ℕ → BootInfo → World → Outcome (ℕ × World)
arch_prepare_handoff g handoff bytes satp boot w =
    let pages = math_align_up bytes page / page in
    pmm_alloc pages w.machine.pmm >>= λ (phys, m).
    let copied = memcpy (add64 phys boot.hhdm_offset) handoff bytes w.bytes in
    current_levels (satp / 2 ^ 60) >>= λ levels.
    ptm_map_at (current_root satp) levels phys phys (mul64 pages page) 5
      (record (w.machine) { pmm = m })
    >>= λ s. ptm_map g phys phys (mul64 pages page) 5 s >>= λ s'.
        ok (phys, record { machine = s'; bytes = copied })

-- A call of the trampoline, which does not come back
pub record TrampolineCall : Type 0 where
  pub called : ℕ
  pub entry : ℕ
  pub stack : ℕ
  pub satp_val : ℕ
  pub boot_info : ℕ
  pub core_id : ℕ

unfoldable pub arch_handoff_to_kernel : RootTable → ℕ → ℕ → ℕ → ℕ → ℕ → TrampolineCall
arch_handoff_to_kernel g g_boot_trampoline entry stack boot_info core_id = record {
  called = g_boot_trampoline;
  entry = entry;
  stack = stack;
  satp_val = make_satp_value g g.tplt;
  boot_info = boot_info;
  core_id = core_id;
}

-- `sizeof(arch_machine_core_start_info_t)`
abbrev arch_machine_core_start_info_size : ℕ
arch_machine_core_start_info_size = 8

module _ (is_bsp : ℕ → Outcome Bool)
    (hhdm_offset block cpu_local_block cpu_local_size arch_block global_pointer : ℕ) where
  -- The start info of a hart other than the boot one: `core_id` is raised before it is used for the
  -- architecture's block, in which the global pointer then goes.
  unfoldable pub ap_info : ℕ → ℕ → CoreStartInfo
  ap_info core_id stack = record {
    core_id = core_id;
    stack = stack;
    cpu_local = add64 cpu_local_block (mul64 core_id cpu_local_size);
    arch_pointer = add64 arch_block (mul64 arch_machine_core_start_info_size (add64 core_id 1));
  }

  -- The loop over the loader's harts from index `i` on, over the rounds left
  unfoldable pub start_aps : ℕ → ℕ → ℕ → World → Outcome (List Started × World)
  start_aps zero i core_id w = ok ([], w)
  start_aps (suc k) i core_id w = is_bsp i >>= λ bsp. elim bsp [
    | true ↦ start_aps k (suc i) core_id w
    | false ↦ new_stack hhdm_offset w >>= λ (stack, w₁).
        let info = ap_info core_id stack in
        let at = add64 block (mul64 core_start_info_size core_id) in
        let stored = store_start_info at info w₁.bytes in
        start_aps k (suc i) (add64 core_id 1)
          (record w₁ { bytes = write_le 8 info.arch_pointer global_pointer stored })
        >>= λ (rest, w₂). ok (record { core = i; at = at; info = info } ∷ rest, w₂)
  ]

unfoldable pub arch_setup_cpus :
    (ℕ → Outcome Bool)
    → ℕ
    → ℕ
    → KernelInfo
    → BootInfo
    → World
    → Outcome (BootInfo × (List Started × World))
arch_setup_cpus is_bsp block core_count kernel boot w =
    let local_size = math_align_up (mul64 core_count kernel.cpu_local_size) page in
    pmm_alloc_ext (local_size / page) page used w.machine.pmm >>= λ (phys, m).
    let cpu_local_block = add64 phys boot.hhdm_offset in
    let boot' : BootInfo = record boot {
      cpulocal_start = cpu_local_block;
      cpulocal_size = local_size;
    } in
    let arch_size = math_align_up (mul64 arch_machine_core_start_info_size core_count) page in
    pmm_alloc (arch_size / page) m >>= λ (arch_phys, m').
    let arch_block = add64 arch_phys boot.hhdm_offset in
    let cleared = memset arch_block 0 arch_size (memset cpu_local_block 0 local_size w.bytes) in
    new_stack boot.hhdm_offset
      (record { machine = record (w.machine) { pmm = m' }; bytes = cleared })
    >>= λ (stack, w₁).
        let bsp : CoreStartInfo = record {
          core_id = 0;
          stack = stack;
          cpu_local = cpu_local_block;
          arch_pointer = arch_block;
        } in
        let stored =
          write_le 8 arch_block kernel.global_pointer (store_start_info block bsp w₁.bytes) in
        start_aps is_bsp boot.hhdm_offset block cpu_local_block kernel.cpu_local_size arch_block
          kernel.global_pointer core_count 0 1 (record w₁ { bytes = stored })
        >>= λ (started, w₂). ok (boot', (started, w₂))
