-- ===== src/Riscv/Samples.antt =====
-- Boot info, memory and free pages for runs of the code of pre_kernel/src/arch/riscv64.
use lunar_prekernel.Base.{ℕ, ◌+◌, List, [], ◌∷◌, none, ◌==◌, if◌then◌else◌}
use lunar_prekernel.Pmm.{Entry, free, PmmMap}
use lunar_prekernel.Bootinfo.{BootInfo}
use lunar_prekernel.Mem.{Memory}

abbrev pub boot : BootInfo
boot = record {
  boot_timestamp = 0;
  core_count = 1;
  rdsp_physical = 0;
  hhdm_offset = 65536;
  hhdm_size = 0;
  pfndb_start = 0;
  pfndb_size = 0;
  cpulocal_start = 0;
  cpulocal_size = 0;
  mm_entry_count = 0;
  mm_entries = [];
  kernel_segment_count = 0;
  kernel_segments = [];
  framebuffer_count = 0;
  framebuffers = [];
  module_count = 0;
  modules = [];
  riscv_base_isa_string = none;
  riscv_extension_count = 0;
  riscv_extentions = [];
  dtb_physical = 0;
}

-- Bytes that stand from an address on
abbrev pub bytes_at : List ℕ → ℕ → Memory
bytes_at [] at x = 0
bytes_at (c ∷ cs) at x = if x == at then c else bytes_at cs (at + 1) x

abbrev pub region : Entry
region = record { base = 4096; length = 40960; type = free }

abbrev pub unused : Entry
unused = record { base = 0; length = 0; type = free }

-- Ten free pages
abbrev pub pages : PmmMap
pages = record { slots = region ∷ unused ∷ unused ∷ []; size = 1 }
