-- ===== src/Bootinfo.antt =====
-- What the prekernel hands to the kernel: pre_kernel/public/protocol/bootinfo.h, and the start blocks
-- of the cores in pre_kernel/include/boot/core.h. A pointer to an array is the list that it leads to.
use lunar_prekernel.Base.{ℕ, List, Option}
use lunar_prekernel.Mem.{Memory}
use lunar_prekernel.Ptm.{Machine}

-- `bootinfo_kernel_info_t`; the global pointer is there on riscv64 only.
pub record KernelInfo : Type 0 where
  pub pagedb_entry_size : ℕ
  pub cpu_local_size : ℕ
  pub global_pointer : ℕ

-- `bootinfo_segment_t`
pub record Segment : Type 0 where
  pub vaddr : ℕ
  pub paddr : ℕ
  pub size : ℕ
  pub flags : ℕ

-- `bootinfo_framebuffer_t`
pub record Framebuffer : Type 0 where
  pub vaddr : ℕ
  pub paddr : ℕ
  pub size : ℕ
  pub width : ℕ
  pub height : ℕ
  pub pitch : ℕ
  pub bpp : ℕ
  pub red_position : ℕ
  pub red_size : ℕ
  pub green_position : ℕ
  pub green_size : ℕ
  pub blue_position : ℕ
  pub blue_size : ℕ

-- `bootinfo_module_t`; the name is an address.
pub record Module : Type 0 where
  pub name : ℕ
  pub phys_addr : ℕ
  pub size : ℕ

-- `bootinfo_mm_type_t`
pub data MmType : Type 0 where
  mm_usable mm_used mm_reclaimable mm_acpi_reclaimable mm_acpi_nvs mm_reserved mm_bad : MmType

-- `bootinfo_mm_entry_t`
pub record MmEntry : Type 0 where
  pub type : MmType
  pub phys_base : ℕ
  pub length : ℕ

-- `bootinfo_t`; the last four fields are there on riscv64 only. A module comes with the address of its
-- record, since the boot protocols do not store the records as an array.
pub record BootInfo : Type 0 where
  pub boot_timestamp : ℕ
  pub core_count : ℕ
  pub rdsp_physical : ℕ
  pub hhdm_offset : ℕ
  pub hhdm_size : ℕ
  pub pfndb_start : ℕ
  pub pfndb_size : ℕ
  pub cpulocal_start : ℕ
  pub cpulocal_size : ℕ
  pub mm_entry_count : ℕ
  pub mm_entries : List MmEntry
  pub kernel_segment_count : ℕ
  pub kernel_segments : List Segment
  pub framebuffer_count : ℕ
  pub framebuffers : List Framebuffer
  pub module_count : ℕ
  pub modules : List (ℕ × Module)
  pub riscv_base_isa_string : Option ℕ
  pub riscv_extension_count : ℕ
  pub riscv_extentions : List ℕ
  pub dtb_physical : ℕ

-- `core_start_info_t`
pub record CoreStartInfo : Type 0 where
  pub core_id : ℕ
  pub stack : ℕ
  pub cpu_local : ℕ
  pub arch_pointer : ℕ

-- The sizes of the structures, which are packed but for the last one.
abbrev pub segment_size : ℕ
segment_size = 25

abbrev pub framebuffer_size : ℕ
framebuffer_size = 46

abbrev pub module_size : ℕ
module_size = 24

abbrev pub mm_entry_size : ℕ
mm_entry_size = 24

abbrev pub core_start_info_size : ℕ
core_start_info_size = 32

-- The page tables with the memory map, and the bytes of all other memory by the address at which the
-- code reaches them.
pub record World : Type 0 where
  pub machine : Machine
  pub bytes : Memory
