-- ===== src/Boot/Tartarus.antt =====
-- `prekernel_entry_tartarus` and what it hands to the rest, pre_kernel/src/boot/tartarus.c.

use lunar_prekernel.Pmm.{
  free, used, reserved, bootloader_reclaimable, acpi_reclaimable, acpi_nvs, bad, MapType,
}
use lunar_prekernel.Base.{
  ℕ, ◌/◌, ◌%◌, Bool, not, none, some, List, [], ◌∷◌, ◌==◌, if◌then◌else◌, length, get_elem?, add64,
  Outcome, ok, panic, fault, ◌>>=◌, invalid_memory_map_type, unsupported_version,
}
use lunar_prekernel.Boot.{
  Region, skip_module, add_regions, store_name, boot_info_block_size, skip_framebuffers,
}
use lunar_prekernel.Mem.{Memory}
use lunar_prekernel.Bootinfo.{BootInfo, Framebuffer, Module, World, module_size}
use lunar_prekernel.Pmm.Alloc.{pmm_alloc, page}

-- The types of the Tartarus memory map that the code tells apart.
pub data TartarusMmType : Type 0 where
  efi_reclaimable_type usable_type acpi_tables_type reserved_type : TartarusMmType
  bootloader_reclaimable_type acpi_reclaimable_type acpi_nvs_type : TartarusMmType
  bad_type unknown_type : TartarusMmType

unfoldable pub tartarus_type : TartarusMmType → Outcome MapType
tartarus_type efi_reclaimable_type = ok free
tartarus_type usable_type = ok free
tartarus_type acpi_tables_type = ok used
tartarus_type reserved_type = ok reserved
tartarus_type bootloader_reclaimable_type = ok bootloader_reclaimable
tartarus_type acpi_reclaimable_type = ok acpi_reclaimable
tartarus_type acpi_nvs_type = ok acpi_nvs
tartarus_type bad_type = ok bad
tartarus_type unknown_type = panic invalid_memory_map_type

-- `tartarus_module_t`
pub record TartarusModule : Type 0 where
  pub name : List ℕ
  pub paddr : ℕ
  pub size : ℕ

-- `tartarus_cpu_t`; `argument` and `park_address` are where the core reads what to run.
pub record TartarusCpu : Type 0 where
  pub is_bsp : Bool
  pub argument : ℕ
  pub park_address : ℕ

-- `tartarus_boot_info_t`; its framebuffers have the fields of the kernel's.
pub record TartarusBootInfo : Type 0 where
  pub boot_timestamp : ℕ
  pub acpi_rsdp_address : ℕ
  pub hhdm_offset : ℕ
  pub mm_entries : List (Region TartarusMmType)
  pub framebuffers : List Framebuffer
  pub modules : List TartarusModule
  pub cpus : List TartarusCpu

unfoldable pub tartarus_core_is_bsp : TartarusBootInfo → ℕ → Outcome Bool
tartarus_core_is_bsp t i = elim (get_elem? t.cpus i) [ none ↦ fault | some cpu ↦ ok cpu.is_bsp ]

-- `start` is the address of `prekernel_init_ap`; the words go by their address.
unfoldable pub tartarus_start_ap : ℕ → ℕ → ℕ → TartarusBootInfo → (ℕ → ℕ) → Outcome (ℕ → ℕ)
tartarus_start_ap start i boot_info t words = elim (get_elem? t.cpus i) [
  | none ↦ fault
  | some cpu ↦
      let given = λ (x : ℕ). if x == cpu.argument then boot_info else words x in
      ok (λ x. if x == cpu.park_address then start else given x)
]

unfoldable pub module_names : List TartarusModule → List (List ℕ)
module_names [] = []
module_names (t ∷ ts) = t.name ∷ module_names ts

-- The loop over the modules, from where their records go
unfoldable pub tartarus_modules :
    List TartarusModule → ℕ → Memory → List (ℕ × Module) × (ℕ × Memory)
tartarus_modules [] pointer m = ([], (pointer, m))
tartarus_modules (t ∷ ts) pointer m =
    let name = add64 pointer module_size in
    let (rest, last) =
      tartarus_modules ts (skip_module t.name pointer) (store_name name t.name m) in
    ((pointer, record { name = name; phys_addr = t.paddr; size = t.size }) ∷ rest, last)

-- The boot info at the end, with where it stands. `old` is what its memory held before, which stays in
-- the fields that are not set, and `bootinfo_size` is `sizeof(bootinfo_t)`.
unfoldable pub prekernel_entry_tartarus :
    ℕ → BootInfo → TartarusBootInfo → ℕ → World → Outcome (ℕ × (BootInfo × World))
prekernel_entry_tartarus bootinfo_size old t version w =
    if not (version / 256 % 256 == 3)
    then panic unsupported_version
    else (add_regions tartarus_type t.mm_entries w.machine.pmm >>= λ m.
        let names = module_names t.modules in
        let size = boot_info_block_size bootinfo_size (some (length t.framebuffers)) names in
        pmm_alloc (size / page) m >>= λ (phys, m').
        let at = add64 phys t.hhdm_offset in
        let pointer = skip_framebuffers (length t.framebuffers) (add64 at bootinfo_size) in
        let (modules, (_, bytes)) = tartarus_modules t.modules pointer w.bytes in
        ok (
          at,
          (
            record old {
              core_count = length t.cpus;
              boot_timestamp = t.boot_timestamp;
              rdsp_physical = t.acpi_rsdp_address;
              hhdm_offset = t.hhdm_offset;
              framebuffer_count = length t.framebuffers;
              framebuffers = t.framebuffers;
              module_count = length t.modules;
              modules = modules;
            },
            record { machine = record (w.machine) { pmm = m' }; bytes = bytes },
          ),
        ))
