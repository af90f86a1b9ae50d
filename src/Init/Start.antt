-- ===== src/Init/Start.antt =====
-- `prekernel_init` of pre_kernel/src/init.c up to the last wait for the other cores, and the memory map
-- that the kernel then gets.
use lunar_prekernel.Bootinfo.{
  MmType, mm_usable, mm_reclaimable, mm_used, mm_acpi_reclaimable, mm_acpi_nvs, mm_reserved, mm_bad,
  World, BootInfo, KernelInfo, core_start_info_size, MmEntry,
}
use lunar_prekernel.Base.{
  refl, ℕ, ◌+◌, ◌*◌, ◌/◌, Bool, Option, none, some, ◌==◌, if◌then◌else◌, add64, mul64, Outcome, ok,
  panic, fault, ◌>>=◌, extentions_failed, kernel_load_failed, acpi_setup_failed, ◌≡◌, List, length,
  bind_ok, sym, ◌∙◌, ap, subst,
}
use lunar_prekernel.Elf.{LoaderInfo, read_le}
use lunar_prekernel.Mem.{Memory, memset}
use lunar_prekernel.Pmm.{
  PmmMap, MapType, free, allocated, used, reserved, bad, acpi_reclaimable, acpi_nvs,
  bootloader_reclaimable, efi_reclaimable,
}
use lunar_prekernel.Pmm.Alloc.{pmm_alloc, page}
use lunar_prekernel.Init.{memory_map_block, hhdm_size_from, mm_entries_from, mm_type}
use lunar_prekernel.Math.{math_align_up}
use lunar_prekernel.Pmm.Valid.{IsValid, type_of}
use lunar_prekernel.Init.Block.{mm_type_at, mm_entries_lem}

-- What `prekernel_init` calls of the port, the ACPI library and the other parts. A call takes the boot
-- info where it reads or writes `g_globals_boot_info`; only riscv64 has `arch_parse_extentions`.
pub record Platform : Type 0 where
  pub arch_init_early : World → Outcome World
  pub uacpi_setup_early_table_access : ℕ → ℕ → World → Bool × World
  pub ptm_init : World → Outcome World
  pub elfldr_load_kernel : BootInfo → World → Outcome (Bool × (Option LoaderInfo × World))
  pub arch_parse_extentions : Option (BootInfo → World → Outcome (Bool × (BootInfo × World)))
  pub pagedb_setup : ℕ → ℕ → BootInfo → World → Outcome (ℕ × (ℕ × World))
  pub arch_setup_cpus : ℕ → ℕ → KernelInfo → BootInfo → World → Outcome (BootInfo × World)
  pub ptm_create_hhdm_mappings : BootInfo → World → Outcome World
  pub arch_prepare_handoff : BootInfo → World → Outcome World
  pub arch_machine_init : ℕ → World → Outcome World

-- `bootinfo_kernel_info_t` in memory
unfoldable pub read_kernel_info : ℕ → Memory → KernelInfo
read_kernel_info at m = record {
  pagedb_entry_size = read_le 8 at m;
  cpu_local_size = read_le 8 (at + 8) m;
  global_pointer = read_le 8 (at + 16) m;
}

-- The arguments of `sync_and_handoff`
pub record Handoff : Type 0 where
  pub entry : ℕ
  pub stack : ℕ
  pub boot_info : BootInfo
  pub core_id : ℕ

abbrev pub with_map : World → PmmMap → World
with_map w m = record w { machine = record (w.machine) { pmm = m } }

-- The buffer for the early tables: `PTM_PAGE_GRANULARITY * 2` pages are allocated, and as many bytes
-- are used.
unfoldable pub setup_acpi : Platform → BootInfo → World → Outcome World
setup_acpi p boot w =
    if boot.rdsp_physical == 0
    then ok w
    else (pmm_alloc (page * 2) w.machine.pmm >>= λ (phys, m).
        let (success, w') =
          p.uacpi_setup_early_table_access (add64 phys boot.hhdm_offset) (page * 2)
            (with_map w m) in
        if success then ok w' else panic acpi_setup_failed)

unfoldable pub parse_extentions : Platform → BootInfo → World → Outcome (BootInfo × World)
parse_extentions p boot w = elim p.arch_parse_extentions [
  | none ↦ ok (boot, w)
  | some parse ↦ parse boot w >>= λ (success, (boot', w')).
      if success then ok (boot', w') else panic extentions_failed
]

-- What `prekernel_init` does up to the handoff trampoline: it leaves the boot info, what is known of
-- the kernel, and the block with the start info of the cores.
unfoldable pub prepare :
    Platform → BootInfo → World → Outcome (BootInfo × (LoaderInfo × (ℕ × World)))
prepare p boot w = setup_acpi p boot w >>= λ w₁. p.ptm_init w₁ >>= λ w₂.
    p.elfldr_load_kernel boot w₂ >>= λ (loaded, (image, w₃)).
    elim (if loaded then image else none) [
      | none ↦ panic kernel_load_failed
      | some info ↦ elim info.kernel_info [
        | none ↦ fault
        | some at ↦ parse_extentions p boot w₃ >>= λ (boot₁, w₄).
            let kernel = read_kernel_info at w₄.bytes in
            let m = w₄.machine.pmm in
            hhdm_size_from m.size 0 boot₁.hhdm_size m >>= λ size.
            let boot₂ : BootInfo = record boot₁ { hhdm_size = size } in
            p.pagedb_setup info.kernel_base kernel.pagedb_entry_size boot₂ w₄
            >>= λ (start, (bytes, w₅)).
                let boot₃ : BootInfo = record boot₂ { pfndb_start = start; pfndb_size = bytes } in
                let block_size = math_align_up (mul64 core_start_info_size boot₃.core_count) page in
                pmm_alloc (block_size / page) w₅.machine.pmm >>= λ (phys, m').
                let block = add64 phys boot₃.hhdm_offset in
                let w₆ : World = record {
                  machine = record (w₅.machine) { pmm = m' };
                  bytes = memset block 0 block_size w₅.bytes;
                } in
                p.arch_setup_cpus block boot₃.core_count kernel boot₃ w₆ >>= λ (boot₄, w₇).
                p.ptm_create_hhdm_mappings boot₄ w₇ >>= λ w₈.
                p.arch_prepare_handoff boot₄ w₈ >>= λ w₉. ok (boot₄, (info, (block, w₉)))
      ]
    ]

-- The rest of it: the memory map and the last fields of the boot info
unfoldable pub hand_over : Platform → BootInfo → LoaderInfo → ℕ → World → Outcome (Handoff × World)
hand_over p boot info block w = memory_map_block 6 w.machine.pmm.size w.machine.pmm >>= λ (phys, m).
    mm_entries_from m.size 0 m >>= λ entries. p.arch_machine_init block (with_map w m) >>= λ w'.
    let boot' : BootInfo = record boot {
      mm_entry_count = m.size;
      mm_entries = entries;
      kernel_segments = info.segments;
      kernel_segment_count = info.segment_count;
    } in
    ok (
      record {
        entry = info.entry_point;
        stack = read_le 8 (block + 8) w'.bytes;
        boot_info = boot';
        core_id = 0;
      },
      w',
    )

unfoldable pub prekernel_init : Platform → BootInfo → World → Outcome (Handoff × World)
prekernel_init p boot w = p.arch_init_early w >>= λ w₀.
    prepare p boot w₀ >>= λ (boot', (info, (block, w'))). hand_over p boot' info block w'

-- What the kernel is to take each type of the memory map for, as public/protocol/bootinfo.h names it:
-- memory that nobody keeps is usable, what was allocated can be reclaimed, and the rest goes by its
-- own name.
abbrev pub kernel_name : MapType → MmType
kernel_name free = mm_usable
kernel_name bootloader_reclaimable = mm_usable
kernel_name efi_reclaimable = mm_usable
kernel_name allocated = mm_reclaimable
kernel_name used = mm_used
kernel_name reserved = mm_reserved
kernel_name bad = mm_bad
kernel_name acpi_reclaimable = mm_acpi_reclaimable
kernel_name acpi_nvs = mm_acpi_nvs

mm_type_lem : (t : MapType) → mm_type t ≡ kernel_name t
unfolding mm_type
mm_type_lem free = refl
mm_type_lem bootloader_reclaimable = refl
mm_type_lem efi_reclaimable = refl
mm_type_lem allocated = refl
mm_type_lem used = refl
mm_type_lem reserved = refl
mm_type_lem bad = refl
mm_type_lem acpi_reclaimable = refl
mm_type_lem acpi_nvs = refl

named_lem :
    (found : Option MapType)
    → elim found [ none ↦ none | some t ↦ some (mm_type t) ]
      ≡ elim found [ none ↦ none | some t ↦ some (kernel_name t) ]
named_lem none = refl
named_lem (some t) = ap some (mm_type_lem t)

-- What the kernel is told of the memory map `m`.
pub record Tells (boot : BootInfo) (m : PmmMap) : Type 0 where
  pub count : boot.mm_entry_count ≡ m.size
  pub entries : length boot.mm_entries ≡ m.size
  pub types :
      (a : ℕ)
      → mm_type_at boot.mm_entries a
        ≡ elim (type_of m a) [ none ↦ none | some t ↦ some (kernel_name t) ]

-- The boot info at the end of `hand_over`.
abbrev final : BootInfo → LoaderInfo → PmmMap → List MmEntry → BootInfo
final boot info m entries = record boot {
  mm_entry_count = m.size;
  mm_entries = entries;
  kernel_segments = info.segments;
  kernel_segment_count = info.segment_count;
}

abbrev last_step : BootInfo → LoaderInfo → ℕ → PmmMap → List MmEntry → World → Handoff × World
last_step boot info block m entries w = (
  record {
    entry = info.entry_point;
    stack = read_le 8 (block + 8) w.bytes;
    boot_info = final boot info m entries;
    core_id = 0;
  },
  w,
)

final-Tells :
    (boot : BootInfo) (info : LoaderInfo) (m : PmmMap) (entries : List MmEntry)
    → IsValid m
    → mm_entries_from m.size 0 m ≡ ok entries
    → Tells (final boot info m entries) m
final-Tells boot info m entries v e =
    let (out, run, count, types) = mm_entries_lem m v in
    let same : out ≡ entries = cc run in
    record {
      count = refl;
      entries = rw same at count;
      types = λ a. (rw same at types) a ∙ named_lem (type_of m a);
    }

hand_over-Tells :
    (p : Platform) (boot : BootInfo) (info : LoaderInfo) (block : ℕ) (w : World) (h : Handoff)
    (w' : World)
    → ((at : ℕ) (v v' : World) → p.arch_machine_init at v ≡ ok v' → v'.machine.pmm ≡ v.machine.pmm)
    → hand_over p boot info block w ≡ ok (h, w')
    → IsValid w'.machine.pmm
    → Tells h.boot_info w'.machine.pmm
unfolding hand_over
hand_over-Tells p boot info block w h w' keeps e v =
    let ((phys, m), _, e₁) =
      bind_ok (memory_map_block 6 w.machine.pmm.size w.machine.pmm) _ (h, w') e in
    let (entries, written, e₂) = bind_ok (mm_entries_from m.size 0 m) _ (h, w') e₁ in
    let (w₁, inited, e₃) =
      bind_ok (p.arch_machine_init block (with_map w m))
        (λ w₁. ok (last_step boot info block m entries w₁)) (h, w') e₂ in
    let same : last_step boot info block m entries w₁ ≡ (h, w') = cc e₃ in
    let map : m ≡ w'.machine.pmm =
      sym (keeps block (with_map w m) w₁ inited)
      ∙ ap (λ (x : Handoff × World). x.1.machine.pmm) same in
    let told : final boot info m entries ≡ h.boot_info =
      ap (λ (x : Handoff × World). x.0.boot_info) same in
    subst (λ b. Tells b w'.machine.pmm) told
      (subst (Tells (final boot info m entries)) map
        (final-Tells boot info m entries (subst IsValid (sym map) v) written))

-- In a run of `prekernel_init` that reaches the handoff, whatever the calls of its platform do, but that
-- `arch_machine_init` leaves the memory map alone: if the final map is valid, the boot info has its
-- entries, one for one, and gives each address the kernel's name for the type that the map gives it.
-- Memory that is free or that the loader or EFI gave back is usable, what was allocated can be reclaimed,
-- and the other types go by their own names.
pub prekernel_init-Tells :
    (p : Platform) (boot : BootInfo) (w : World) (h : Handoff) (w' : World)
    → ((at : ℕ) (v v' : World) → p.arch_machine_init at v ≡ ok v' → v'.machine.pmm ≡ v.machine.pmm)
    → prekernel_init p boot w ≡ ok (h, w')
    → IsValid w'.machine.pmm
    → Tells h.boot_info w'.machine.pmm
unfolding prekernel_init
prekernel_init-Tells p boot w h w' keeps e v =
    let (w₀, _, e₀) = bind_ok (p.arch_init_early w) _ (h, w') e in
    let ((boot', (info, (block, w₁))), _, e₁) = bind_ok (prepare p boot w₀) _ (h, w') e₀ in
    hand_over-Tells p boot' info block w₁ h w' keeps e₁ v
