-- ===== src/Init/Tests.antt =====
-- A start of pre_kernel/src/init.c on a small machine, and two cores that meet.

use lunar_prekernel.Pmm.{
  free, allocated, visit, same_type, cut_start, cut_end, settle, drop_entry, map_insert, map_delete,
  load, store, rank, place, place_at, find_slot, extend_before, extend_after, sweep, pmm_map_set,
  Entry, PmmMap, MapType,
}
use lunar_prekernel.Pmm.Alloc.{pmm_alloc, pmm_alloc_ext, alloc_ext_from}
use lunar_prekernel.Math.{math_ceil, math_div_ceil, math_align_up, not64, math_max}
use lunar_prekernel.Init.{hhdm_size_from, memory_map_block, memory_map_pages, mm_entries_from}
use lunar_prekernel.Init.Cores.{
  start, counted, parked, ready, spinning, entered, count_cores, unlock, leave_lock, join, hand_off,
  here, next, Sync, Step, Phase, store_core_count, open_lock, arrive, waits_for_lock,
  waits_for_cores, Reach,
}
use lunar_prekernel.Init.Start.{
  prekernel_init, prepare, setup_acpi, parse_extentions, hand_over, read_kernel_info, Platform,
  Handoff, Tells, prekernel_init-Tells,
}
use lunar_prekernel.Base.{
  out_of_memory, add64, sub64, mul64, refl, none, some, ℕ, All, ◌<◌, arith, ◌≡◌, [], true, ◌∷◌,
  replicate, ok, ap, ◌⊎◌, suc, zero, panic, sym,
}
use lunar_prekernel.Pmm.Valid.{IsValid}
use lunar_prekernel.Pmm.Spans.{type_at, Below}
use lunar_prekernel.Elf.{LoaderInfo}
use lunar_prekernel.Bootinfo.{BootInfo, World}
use lunar_prekernel.Pmm.Slots.{holding}
use lunar_prekernel.Init.Retry.{LeavesLastPage, BlockOf, memory_map_block_lem}
use lunar_prekernel.Mem.{memset}
use lunar_prekernel.Init.Handoff.{handoff_together, sum_by}
use lunar_prekernel.Init.Progress.{steps_left, handoff_progress}

abbrev unused : Entry
unused = record { base = 0; length = 0; type = free }

abbrev entry : ℕ → ℕ → MapType → Entry
entry base length type = record { base = base; length = length; type = type }

abbrev small : PmmMap
small = holding (entry 4096 61440 free ∷ []) (replicate 1023 unused)

abbrev small_after : PmmMap
small_after =
    holding (entry 4096 8192 allocated ∷ entry 12288 53248 free ∷ []) (replicate 1022 unused)

Below-replicate : (k n : ℕ) (e : Entry) → e.base < k → Below k (replicate n e)
Below-replicate k zero e h = tt
Below-replicate k (suc n) e h = (h, Below-replicate k n e h)

small-IsValid : IsValid small
small-IsValid = record {
  slots = refl;
  size = omega arith;
  ordered = (omega arith, omega arith, omega arith, tt);
  stale = Below-replicate _ 1023 unused (omega arith);
}

small_after-IsValid : IsValid small_after
small_after-IsValid = record {
  slots = refl;
  size = omega arith;
  ordered = (omega arith, omega arith, omega arith, (omega arith, omega arith, omega arith, tt));
  stale = Below-replicate _ 1022 unused (omega arith);
}

small-LeavesLastPage : LeavesLastPage small
unfolding type_at
small-LeavesLastPage a h = ground arith

memory_map_block_lem_example :
    ((phys : ℕ) × (m' : PmmMap) × (memory_map_block 6 1 small ≡ ok (phys, m'))
      × BlockOf small phys m')
    ⊎ (memory_map_block 6 1 small ≡ panic out_of_memory)
memory_map_block_lem_example =
    memory_map_block_lem small small-IsValid small-LeavesLastPage (omega arith) (omega arith)

abbrev info : LoaderInfo
info = record {
  entry_point = 0xffff_ffff_8000_0000;
  kernel_base = 0xffff_ffff_8000_0000;
  segments = [];
  segment_count = 0;
  kernel_info = some 512;
}

abbrev platform : Platform
platform = record {
  arch_init_early = λ w. ok w;
  uacpi_setup_early_table_access = λ at bytes w. (true, w);
  ptm_init = λ w. ok w;
  elfldr_load_kernel = λ boot w. ok (true, (some info, w));
  arch_parse_extentions = none;
  pagedb_setup = λ base size boot w. ok (0, (0, w));
  arch_setup_cpus = λ block count kernel boot w. ok (boot, w);
  ptm_create_hhdm_mappings = λ boot w. ok w;
  arch_prepare_handoff = λ boot w. ok w;
  arch_machine_init = λ block w. ok w;
}

abbrev boot : BootInfo
boot = record {
  boot_timestamp = 0;
  core_count = 1;
  rdsp_physical = 0;
  hhdm_offset = 65536;
  hhdm_size = 0;
  pfndb_start = 0;
  pfndb_size = 0;
  cpulocal_start = 0;
  cpulocal_size = 0;
  mm_entry_count = 0;
  mm_entries = [];
  kernel_segment_count = 0;
  kernel_segments = [];
  framebuffer_count = 0;
  framebuffers = [];
  module_count = 0;
  modules = [];
  riscv_base_isa_string = none;
  riscv_extension_count = 0;
  riscv_extentions = [];
  dtb_physical = 0;
}

abbrev world : World
world = record { machine = record { words = λ x. 0; pmm = small }; bytes = λ x. 0 }

abbrev zeroed : World
zeroed = record {
  machine = record { words = λ x. 0; pmm = small_after };
  bytes = memset 69632 0 4096 (λ x. 0);
}

started : (h : Handoff) × (prekernel_init platform boot world ≡ ok (h, zeroed))
unfolding prekernel_init prepare setup_acpi parse_extentions hand_over hhdm_size_from
    memory_map_block memory_map_pages mm_entries_from pmm_alloc pmm_alloc_ext alloc_ext_from
    pmm_map_set sweep visit cut_start cut_end settle drop_entry map_insert map_delete load store
    rank same_type place place_at find_slot extend_before extend_after add64 sub64 mul64 math_ceil
    math_div_ceil math_align_up not64 math_max read_kernel_info
started = (_, refl)

platform_keeps :
    (at : ℕ) (v v' : World)
    → platform.arch_machine_init at v ≡ ok v'
    → v'.machine.pmm ≡ v.machine.pmm
platform_keeps at v v' e = let same : v ≡ v' = cc e in sym (ap (λ (x : World). x.machine.pmm) same)

prekernel_init-Tells_example : Tells started.0.boot_info small_after
prekernel_init-Tells_example =
    prekernel_init-Tells platform boot world started.0 zeroed platform_keeps started.1
      small_after-IsValid

handoff_progress_example :
    (All (λ p. p ≡ entered) (start 1).cores ⊎ ((s' : Sync) × Step 2 (start 1) s'))
    × ((s' : Sync)
        → Step 2 (start 1) s'
        → suc (sum_by steps_left s'.cores) ≡ sum_by steps_left (start 1).cores)
handoff_progress_example = handoff_progress 1 (start 1) (omega arith) here

abbrev at_stage : ℕ → ℕ → ℕ → Phase → Phase → Sync
at_stage lock running count p q = record {
  ap_init_lock = lock;
  running_cores = running;
  core_count = count;
  cores = p ∷ q ∷ [];
}

-- The other core is first in the kernel.
reached : Reach 1 (at_stage 1 2 2 spinning entered)
unfolding store_core_count open_lock arrive waits_for_lock waits_for_cores
reached =
    let s₁ = at_stage 0 0 2 counted parked in
    let s₂ = at_stage 1 0 2 ready parked in
    let s₃ = at_stage 1 0 2 ready ready in
    let s₄ = at_stage 1 1 2 spinning ready in
    let s₅ = at_stage 1 2 2 spinning spinning in
    let r₁ : Reach 1 s₁ =
      next (start 1) s₁ here
        (count_cores (record { before = []; after = parked ∷ []; was = refl; is = refl })) in
    let r₂ : Reach 1 s₂ =
      next s₁ s₂ r₁ (unlock (record { before = []; after = parked ∷ []; was = refl; is = refl })) in
    let r₃ : Reach 1 s₃ =
      next s₂ s₃ r₂
        (leave_lock refl (record { before = ready ∷ []; after = []; was = refl; is = refl })) in
    let r₄ : Reach 1 s₄ =
      next s₃ s₄ r₃ (join (record { before = []; after = ready ∷ []; was = refl; is = refl })) in
    let r₅ : Reach 1 s₅ =
      next s₄ s₅ r₄ (join (record { before = spinning ∷ []; after = []; was = refl; is = refl })) in
    next s₅ (at_stage 1 2 2 spinning entered) r₅
      (hand_off refl (record { before = spinning ∷ []; after = []; was = refl; is = refl }))

abbrev met : Sync
met = at_stage 1 2 2 spinning entered

handoff_together_example :
    All (λ p. (p ≡ spinning) ⊎ (p ≡ entered)) met.cores
    × (met.ap_init_lock ≡ 1)
    × (met.core_count ≡ 2)
    × (met.running_cores ≡ 2)
handoff_together_example = handoff_together 1 met (omega arith) reached (omega arith)
