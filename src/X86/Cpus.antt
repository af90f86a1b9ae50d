-- ===== src/X86/Cpus.antt =====
-- The cores and the trampoline, pre_kernel/src/arch/x86_64/arch.c. What goes to the log is left out.
pub mod Numbers
use lunar_prekernel.Base.{
  ℕ, Outcome, suc, ◌+◌, Bool, ◌/◌, ◌>>=◌, add64, List, ok, mul64, if◌then◌else◌, ◌%◌, ◌*◌, [],
  bit_and, zero, true, ◌^◌, ◌==◌, ◌∷◌, false,
}
use lunar_prekernel.Pmm.{used}
use lunar_prekernel.Ptm.{Paging, ptm_map, ptm_map_at}
use lunar_prekernel.Mem.{Memory, write, memset, memcpy}
use lunar_prekernel.Bootinfo.{CoreStartInfo, World, BootInfo, KernelInfo, core_start_info_size}
use lunar_prekernel.Pmm.Alloc.{pmm_alloc, page, pmm_alloc_ext}
use lunar_prekernel.Math.{math_align_up}

abbrev pub core_stack_pgcnt : ℕ
core_stack_pgcnt = 16

-- `sizeof(arch_core_start_info_t)`
abbrev pub arch_start_info_size : ℕ
arch_start_info_size = 168

-- The writes of a 64-bit field and of a `core_start_info_t`
unfoldable pub write_le : ℕ → ℕ → ℕ → Memory → Memory
write_le zero at value m = m
write_le (suc k) at value m = write_le k (suc at) (value / 256) (write m at (value % 256))

unfoldable pub store_start_info : ℕ → CoreStartInfo → Memory → Memory
store_start_info at info m =
    let with_id = write_le 8 at info.core_id m in
    let with_stack = write_le 8 (at + 8) info.stack with_id in
    write_le 8 (at + 24) info.arch_pointer (write_le 8 (at + 16) info.cpu_local with_stack)

-- A call of `g_boot_start_ap`: the loader's index of the core, and its start info with the address
pub record Started : Type 0 where
  pub core : ℕ
  pub at : ℕ
  pub info : CoreStartInfo

-- The top of a stack from `pmm_alloc(CORE_STACK_PGCNT)`
unfoldable pub new_stack : ℕ → World → Outcome (ℕ × World)
new_stack hhdm_offset w = pmm_alloc core_stack_pgcnt w.machine.pmm >>= λ (phys, m). ok (
  add64 (add64 phys hhdm_offset) (core_stack_pgcnt * page),
  record w { machine = record (w.machine) { pmm = m } },
)

module _ (is_bsp : ℕ → Outcome Bool)
    (hhdm_offset block cpu_local_block cpu_local_size arch_block : ℕ) where
  -- The start info of a core other than the boot core: `core_id` is raised before it is used for the
  -- architecture's block.
  unfoldable pub ap_info : ℕ → ℕ → CoreStartInfo
  ap_info core_id stack = record {
    core_id = core_id;
    stack = stack;
    cpu_local = add64 cpu_local_block (mul64 core_id cpu_local_size);
    arch_pointer = add64 arch_block (mul64 arch_start_info_size (add64 core_id 1));
  }

  -- The loop over the loader's cores from index `i` on, over the rounds left
  unfoldable pub start_aps : ℕ → ℕ → ℕ → World → Outcome (List Started × World)
  start_aps zero i core_id w = ok ([], w)
  start_aps (suc k) i core_id w = is_bsp i >>= λ bsp. elim bsp [
    | true ↦ start_aps k (suc i) core_id w
    | false ↦ new_stack hhdm_offset w >>= λ (stack, w₁).
        let info = ap_info core_id stack in
        let at = add64 block (mul64 core_start_info_size core_id) in
        start_aps k (suc i) (add64 core_id 1)
          (record w₁ { bytes = store_start_info at info w₁.bytes })
        >>= λ (rest, w₂). ok (record { core = i; at = at; info = info } ∷ rest, w₂)
  ]

-- The second `memset` clears the block of the `core_start_info_t` by the size of the architecture's one.
unfoldable pub arch_setup_cpus :
    (ℕ → Outcome Bool)
    → ℕ
    → ℕ
    → KernelInfo
    → BootInfo
    → World
    → Outcome (BootInfo × (List Started × World))
arch_setup_cpus is_bsp block core_count kernel boot w =
    let local_size = math_align_up (mul64 core_count kernel.cpu_local_size) page in
    pmm_alloc_ext (local_size / page) page used w.machine.pmm >>= λ (phys, m).
    let cpu_local_block = add64 phys boot.hhdm_offset in
    let boot' : BootInfo = record boot {
      cpulocal_start = cpu_local_block;
      cpulocal_size = local_size;
    } in
    let arch_size = math_align_up (mul64 arch_start_info_size core_count) page in
    pmm_alloc (arch_size / page) m >>= λ (arch_phys, m').
    let arch_block = add64 arch_phys boot.hhdm_offset in
    let cleared = memset block 0 arch_size (memset cpu_local_block 0 local_size w.bytes) in
    new_stack boot.hhdm_offset
      (record { machine = record (w.machine) { pmm = m' }; bytes = cleared })
    >>= λ (stack, w₁).
        let bsp : CoreStartInfo = record {
          core_id = 0;
          stack = stack;
          cpu_local = cpu_local_block;
          arch_pointer = arch_block;
        } in
        start_aps is_bsp boot.hhdm_offset block cpu_local_block kernel.cpu_local_size arch_block
          core_count 0 1 (record w₁ { bytes = store_start_info block bsp w₁.bytes })
        >>= λ (started, w₂). ok (boot', (started, w₂))

-- The trampoline stands at `handoff`, `bytes` long; it is mapped at 0x1000 in the tables in use, whose
-- root and depth come from CR3 and CR4, and in the new ones. The result starts with what goes into
-- `g_boot_trampoline`.
unfoldable pub arch_prepare_handoff :
    Paging → ℕ → ℕ → ℕ → ℕ → BootInfo → World → Outcome (ℕ × World)
arch_prepare_handoff g handoff bytes cr3 cr4 boot w =
    let size = math_align_up bytes page / page in
    pmm_alloc size w.machine.pmm >>= λ (phys, m).
    let level_count = if bit_and cr4 (2 ^ 12) == 0 then 4 else 5 in
    let copied = memcpy (add64 phys boot.hhdm_offset) handoff bytes w.bytes in
    ptm_map_at g cr3 level_count 0x1000 phys (mul64 size page) 5 (record (w.machine) { pmm = m })
    >>= λ s. ptm_map g 0x1000 phys (mul64 size page) 5 s >>= λ s'.
        ok (0x1000, record { machine = s'; bytes = copied })

-- A call of the trampoline, which does not come back
pub record TrampolineCall : Type 0 where
  pub called : ℕ
  pub entry : ℕ
  pub stack : ℕ
  pub page_tables : ℕ
  pub boot_info : ℕ
  pub core_id : ℕ

unfoldable pub arch_handoff_to_kernel : Paging → ℕ → ℕ → ℕ → ℕ → ℕ → TrampolineCall
arch_handoff_to_kernel g g_boot_trampoline entry stack boot_info core_id = record {
  called = g_boot_trampoline;
  entry = entry;
  stack = stack;
  page_tables = g.tplt;
  boot_info = boot_info;
  core_id = core_id;
}
