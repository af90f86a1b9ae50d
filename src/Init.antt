-- ===== src/Init.antt =====
-- The start of the prekernel, pre_kernel/src/init.c with pre_kernel/include/arch.h. What the two ports
-- do at each step is an argument, in the record `Platform`; what goes to the log is left out.
pub mod Block
pub mod Retry
pub mod Cores
pub mod Handoff
pub mod Progress
pub mod Start
mod Tests
use lunar_prekernel.Base.{
  ℕ, zero, suc, ◌+◌, ◌-◌, ◌*◌, ◌/◌, ◌%◌, ◌^◌, ◌≤◌, ◌<◌, max, min, bit_and, bit_or, ◌≡◌, refl, sym,
  ap, ◌∙◌, subst, ◌≢◌, ◌⊎◌, inl, inr, Bool, true, false, not, ◌&&◌, ◌||◌, Option, none, some, List,
  [], ◌∷◌, ◌++◌, append-nil, append_assoc, arith, ltb, leb, ◌==◌, if◌then◌else◌, Bool-cases,
  Option-cases, ==_iff, length, get_elem?, set, take, drop, replicate, All, All-append,
  length-append, u64_mod, add64, sub64, mul64, add64-eq-add, sub64-eq-sub, mul64-eq-mul, Outcome,
  ok, panic, fault, out_of_fuel, ◌>>=◌, bind_same,
}
use lunar_prekernel.Pmm.{
  free, allocated, used, bootloader_reclaimable, efi_reclaimable, acpi_reclaimable, acpi_nvs,
  reserved, bad, MapType, PmmMap, load, Entry,
}
use lunar_prekernel.Math.{math_align_up, math_max}
use lunar_prekernel.Bootinfo.{
  mm_usable, mm_used, mm_reclaimable, mm_acpi_reclaimable, mm_acpi_nvs, mm_reserved, mm_bad, MmType,
  mm_entry_size, mm_usable, MmEntry, mm_reclaimable, mm_used, mm_acpi_reclaimable, mm_acpi_nvs,
  mm_reserved, mm_bad,
}
use lunar_prekernel.Pmm.Alloc.{pmm_alloc, page, pmm_free}

-- `PMM_MAP_TYPE_…` of an entry as the kernel's `BOOTINFO_MM_TYPE_…`
unfoldable pub mm_type : MapType → MmType
mm_type bootloader_reclaimable = mm_usable
mm_type efi_reclaimable = mm_usable
mm_type free = mm_usable
mm_type allocated = mm_reclaimable
mm_type used = mm_used
mm_type acpi_reclaimable = mm_acpi_reclaimable
mm_type acpi_nvs = mm_acpi_nvs
mm_type reserved = mm_reserved
mm_type bad = mm_bad

-- The loop over the ends of the entries, over the rounds left
unfoldable pub hhdm_size_from : ℕ → ℕ → ℕ → PmmMap → Outcome ℕ
hhdm_size_from zero i size m = ok size
hhdm_size_from (suc k) i size m =
    load m i >>= λ e. hhdm_size_from k (suc i) (math_max size (add64 e.base e.length)) m

-- The pages of the memory map block for a count of entries
unfoldable pub memory_map_pages : ℕ → ℕ
memory_map_pages entries = math_align_up (mul64 entries mm_entry_size) page / page

-- The loop that allocates the memory map block; `fuel` bounds its rounds.
unfoldable pub memory_map_block : ℕ → ℕ → PmmMap → Outcome (ℕ × PmmMap)
memory_map_block zero entries m = out_of_fuel
memory_map_block (suc fuel) entries m =
    let pages = memory_map_pages entries in
    pmm_alloc pages m >>= λ (phys, m'). elim (ltb entries m'.size) [
      | false ↦ ok (phys, m')
      | true ↦ pmm_free phys pages m' >>= λ m''. memory_map_block fuel (mul64 entries 2) m''
    ]

-- The loop that writes the entries of the block, over the rounds left
unfoldable pub mm_entries_from : ℕ → ℕ → PmmMap → Outcome (List MmEntry)
mm_entries_from zero i m = ok []
mm_entries_from (suc k) i m = load m i >>= λ e. mm_entries_from k (suc i) m >>= λ rest.
    ok (record { type = mm_type e.type; phys_base = e.base; length = e.length } ∷ rest)
