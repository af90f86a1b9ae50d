-- ===== src/Boot/Limine.antt =====
-- `prekernel_entry_limine` and what it hands to the rest, pre_kernel/src/boot/limine.c.
use lunar_prekernel.Base.{
  ℕ, ◌/◌, ◌%◌, ◌^◌, Bool, not, Option, none, some, List, [], ◌∷◌, ◌==◌, if◌then◌else◌, length,
  get_elem?, set, add64, sub64, mul64, Outcome, ok, panic, fault, ◌>>=◌, invalid_memory_map_type,
  invalid_base_revision, unsupported_base_revision,
}
use lunar_prekernel.Pmm.{MapType}
use lunar_prekernel.Boot.{
  Region, store_name, add_regions, boot_info_block_size, skip_module, skip_framebuffers,
}
use lunar_prekernel.Bootinfo.{Framebuffer, World, BootInfo, Module, module_size}
use lunar_prekernel.Pmm.Alloc.{pmm_alloc, page}
use lunar_prekernel.Math.{math_align_up}
use lunar_prekernel.Mem.{memcpy}

-- The types of the Limine memory map that the code tells apart.
pub data LimineMemmap : Type 0 where
  usable reserved framebuffer acpi_reclaimable acpi_nvs bad_memory : LimineMemmap
  bootloader_reclaimable executable_and_modules reserved_mapped other : LimineMemmap

unfoldable pub limine_type : LimineMemmap → Outcome MapType
limine_type usable = ok lunar_prekernel.Pmm.free
limine_type reserved = ok lunar_prekernel.Pmm.reserved
limine_type framebuffer = ok lunar_prekernel.Pmm.reserved
limine_type acpi_reclaimable = ok lunar_prekernel.Pmm.acpi_reclaimable
limine_type acpi_nvs = ok lunar_prekernel.Pmm.acpi_nvs
limine_type bad_memory = ok lunar_prekernel.Pmm.bad
limine_type bootloader_reclaimable = ok lunar_prekernel.Pmm.bootloader_reclaimable
limine_type executable_and_modules = ok lunar_prekernel.Pmm.bootloader_reclaimable
limine_type reserved_mapped = ok lunar_prekernel.Pmm.used
limine_type other = panic invalid_memory_map_type

pub record LimineFramebuffer : Type 0 where
  pub address : ℕ
  pub width : ℕ
  pub height : ℕ
  pub pitch : ℕ
  pub bpp : ℕ
  pub red_mask_size : ℕ
  pub red_mask_shift : ℕ
  pub green_mask_size : ℕ
  pub green_mask_shift : ℕ
  pub blue_mask_size : ℕ
  pub blue_mask_shift : ℕ

pub record LimineFile : Type 0 where
  pub path : List ℕ
  pub address : ℕ
  pub size : ℕ

-- A core of the response to `g_mp_request`; `id` is `lapic_id` or `hartid`.
pub record LimineCore : Type 0 where
  pub id : ℕ
  pub extra_argument : ℕ
  pub goto_address : ℕ

-- The responses to the requests; what is missing is `none`, also an address that is 0.
pub record LimineResponses : Type 0 where
  pub base_revision_valid : Bool
  pub base_revision_supported : Bool
  pub memmap : List (Region LimineMemmap)
  pub framebuffers : Option (List LimineFramebuffer)
  pub modules : List LimineFile
  pub hhdm_offset : ℕ
  pub cores : List LimineCore
  pub bsp_id : ℕ
  pub timestamp : ℕ
  pub rsdp : Option ℕ
  pub dtb : Option ℕ

unfoldable pub limine_core_is_bsp : LimineResponses → ℕ → Outcome Bool
limine_core_is_bsp r i = elim (get_elem? r.cores i) [
  | none ↦ fault
  | some core ↦ ok (core.id == r.bsp_id)
]

-- `ap_entry` is the address of `limine_ap_entry`.
unfoldable pub limine_start_ap : ℕ → ℕ → ℕ → LimineResponses → Outcome LimineResponses
limine_start_ap ap_entry i boot_info r = elim (get_elem? r.cores i) [
  | none ↦ fault
  | some core ↦ ok (record r {
    cores = set r.cores i (record core { extra_argument = boot_info; goto_address = ap_entry });
  })
]

-- The fields are of 64, 32 and 8 bits.
unfoldable pub limine_framebuffer : ℕ → LimineFramebuffer → Framebuffer
limine_framebuffer hhdm_offset fb = record {
  vaddr = fb.address;
  paddr = sub64 fb.address hhdm_offset;
  size = mul64 (mul64 fb.width fb.height) (fb.bpp / 8);
  width = fb.width % 2 ^ 32;
  height = fb.height % 2 ^ 32;
  pitch = fb.pitch % 2 ^ 32;
  bpp = fb.bpp;
  red_position = fb.red_mask_shift;
  red_size = fb.red_mask_size;
  green_position = fb.green_mask_shift;
  green_size = fb.green_mask_size;
  blue_position = fb.blue_mask_shift;
  blue_size = fb.blue_mask_size;
}

unfoldable pub limine_framebuffers : ℕ → List LimineFramebuffer → List Framebuffer
limine_framebuffers hhdm_offset [] = []
limine_framebuffers hhdm_offset (fb ∷ fbs) =
    limine_framebuffer hhdm_offset fb ∷ limine_framebuffers hhdm_offset fbs

unfoldable pub file_names : List LimineFile → List (List ℕ)
file_names [] = []
file_names (f ∷ fs) = f.path ∷ file_names fs

-- The loop over the modules, from where their records go
unfoldable pub limine_modules :
    ℕ → List LimineFile → ℕ → World → Outcome (List (ℕ × Module) × (ℕ × World))
limine_modules hhdm_offset [] pointer w = ok ([], (pointer, w))
limine_modules hhdm_offset (f ∷ fs) pointer w =
    let name = add64 pointer module_size in
    let named = store_name name f.path w.bytes in
    pmm_alloc (math_align_up f.size page / page) w.machine.pmm >>= λ (phys, m).
    let copied = memcpy (add64 phys hhdm_offset) f.address f.size named in
    limine_modules hhdm_offset fs (skip_module f.path pointer)
      (record { machine = record (w.machine) { pmm = m }; bytes = copied })
    >>= λ (rest, last).
        ok ((pointer, record { name = name; phys_addr = phys; size = f.size }) ∷ rest, last)

-- The boot info at the end, with where it stands. `old` is what its memory held before, which stays in
-- the fields that are not set, and `bootinfo_size` is `sizeof(bootinfo_t)`.
unfoldable pub prekernel_entry_limine :
    ℕ → BootInfo → LimineResponses → World → Outcome (ℕ × (BootInfo × World))
prekernel_entry_limine bootinfo_size old r w =
    if not r.base_revision_valid
    then panic invalid_base_revision
    else if not r.base_revision_supported
    then panic unsupported_base_revision
    else (add_regions limine_type r.memmap w.machine.pmm >>= λ m.
        let names = file_names r.modules in
        let count : Option ℕ = elim r.framebuffers [ none ↦ none | some fbs ↦ some (length fbs) ] in
        pmm_alloc (boot_info_block_size bootinfo_size count names / page) m >>= λ (phys, m').
        let at = add64 phys r.hhdm_offset in
        let fbs : List Framebuffer = elim r.framebuffers [
          | none ↦ []
          | some fbs ↦ limine_framebuffers r.hhdm_offset fbs
        ] in
        let pointer = skip_framebuffers (length fbs) (add64 at bootinfo_size) in
        limine_modules r.hhdm_offset r.modules pointer
          (record w { machine = record (w.machine) { pmm = m' } })
        >>= λ (modules, (_, w')). ok (
          at,
          (
            record old {
              core_count = length r.cores;
              boot_timestamp = r.timestamp;
              rdsp_physical = elim r.rsdp [
                | none ↦ old.rdsp_physical
                | some address ↦ sub64 address r.hhdm_offset
              ];
              hhdm_offset = r.hhdm_offset;
              dtb_physical = elim r.dtb [ none ↦ 0 | some address ↦ sub64 address r.hhdm_offset ];
              riscv_base_isa_string = none;
              riscv_extension_count = 0;
              riscv_extentions = [];
              framebuffer_count = length fbs;
              framebuffers = fbs;
              module_count = length r.modules;
              modules = modules;
            },
            w',
          ),
        ))
