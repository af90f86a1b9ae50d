-- ===== src/Riscv/Ptm.antt =====
-- The page tables of riscv64, pre_kernel/src/arch/riscv64/ptm.c. A table is read and written at its
-- physical address: the code adds the offset of the direct map to reach it. What goes to the log is
-- left out.
pub mod Level
pub mod Entries
pub mod Fresh
pub mod Tables
pub mod Walk
pub mod Descend
pub mod Mapped
pub mod Hardware
pub mod Pages
mod Tests
use lunar_prekernel.Base.{
  ℕ, zero, suc, ◌+◌, ◌-◌, ◌*◌, ◌/◌, ◌%◌, ◌^◌, Bool, true, false, not, ◌&&◌, ◌||◌, List, [], ◌∷◌,
  ltb, leb, ◌==◌, if◌then◌else◌, bit_and, bit_or, add64, sub64, mul64, Outcome, ok, panic,
  out_of_fuel, unaligned_mapping, no_paging_mode, invalid_target_level, walked_into_leaf, ◌>>=◌,
}
use lunar_prekernel.Math.{math_min}
use lunar_prekernel.Pmm.{MapType, bad, Entry}
use lunar_prekernel.Pmm.Alloc.{page, pmm_create_snapshot, pmm_free_snapshot}
use lunar_prekernel.Ptm.{Machine, set_entry, new_table, hhdm_base, hhdm_length}

-- `g_ptm`; `g_level_count` is the same as its level count.
pub record RootTable : Type 0 where
  pub tplt : ℕ
  pub level_count : ℕ

-- `PA_TO_PPN`, `PTE_TO_PA`, `VADDR_VPN` and `PAGE_SIZE_AT_LEVEL`, for levels from 1 on
unfoldable pub pa_to_ppn : ℕ → ℕ
pa_to_ppn pa = bit_and (pa / 2 ^ 12) 0xfff_ffff_ffff

unfoldable pub pte_to_pa : ℕ → ℕ
pte_to_pa pte = mul64 (pte / 2 ^ 10) 4096

unfoldable pub vaddr_vpn : ℕ → ℕ → ℕ
vaddr_vpn vaddr level = bit_and (vaddr / 2 ^ (12 + 9 * (level - 1))) 0x1ff

unfoldable pub page_size_at_level : ℕ → ℕ
page_size_at_level level = mul64 4096 (2 ^ (9 * (level - 1)))

-- `detect_max_level_count`; the arguments are what ACPI says, and the reading of the device tree.
unfoldable pub detect_max_level_count : ℕ → Outcome ℕ → Outcome ℕ
detect_max_level_count acpi_levels dtb_detect =
    if not (acpi_levels == 0)
    then ok acpi_levels
    else dtb_detect >>= λ dtb_levels.
        if dtb_levels == 0 then panic no_paging_mode else ok dtb_levels

-- The flags of a leaf: `PTE_V`, `PTE_R`, `PTE_W` and `PTE_X`
unfoldable pub leaf_flags : ℕ → ℕ
leaf_flags flags =
    let readable = if not (bit_and flags 4 == 0) then bit_or 1 2 else 1 in
    let writable = if not (bit_and flags 2 == 0) then bit_or readable 4 else readable in
    if not (bit_and flags 1 == 0) then bit_or writable 8 else writable

-- The loop of `map_page` over the levels left above `target_level`
unfoldable pub descend : ℕ → ℕ → ℕ → ℕ → Machine → Outcome (ℕ × Machine)
descend zero target_level table vaddr s = ok (table, s)
descend (suc k) target_level table vaddr s =
    let index = vaddr_vpn vaddr (target_level + suc k) in
    let entry = s.words (table + 8 * index) in
    elim (bit_and entry 1 == 0) [
      | true ↦ new_table s >>= λ (child, s').
          let fresh = bit_or (mul64 (pa_to_ppn child) 1024) 1 in
          descend k target_level (pte_to_pa fresh) vaddr (set_entry table index fresh s')
      | false ↦ elim (bit_and entry 14 == 0) [
        | false ↦ panic walked_into_leaf
        | true ↦ descend k target_level (pte_to_pa entry) vaddr s
      ]
    ]

unfoldable pub map_page : ℕ → ℕ → ℕ → ℕ → ℕ → ℕ → Machine → Outcome Machine
map_page root_pa total_levels vaddr paddr target_level flags s =
    if ltb target_level 1 || ltb total_levels target_level
    then panic invalid_target_level
    else descend (total_levels - target_level) target_level root_pa vaddr s >>= λ (table, s'). ok (
        set_entry table (vaddr_vpn vaddr target_level)
          (bit_or (mul64 (pa_to_ppn paddr) 1024) (leaf_flags flags)) s')

-- The loop of `choose_target_level` from a level down
unfoldable pub choose_from : ℕ → ℕ → ℕ → ℕ → ℕ
choose_from zero vaddr paddr remain = 1
choose_from (suc zero) vaddr paddr remain = 1
choose_from (suc (suc k)) vaddr paddr remain =
    let lower = choose_from (suc k) vaddr paddr remain in
    let pgsz = page_size_at_level (suc (suc k)) in
    if vaddr % pgsz == 0 && paddr % pgsz == 0 && leb pgsz remain then suc (suc k) else lower

unfoldable pub choose_target_level : ℕ → ℕ → ℕ → ℕ → ℕ
choose_target_level vaddr paddr remain max_levels =
    choose_from (math_min max_levels 3) vaddr paddr remain

-- The loop of `ptm_map` and `ptm_map_at` from an offset on; `fuel` bounds its rounds.
unfoldable pub map_from : ℕ → ℕ → ℕ → ℕ → ℕ → ℕ → ℕ → ℕ → Machine → Outcome Machine
map_from zero root_pa level_count vaddr paddr offset length flags s = out_of_fuel
map_from (suc fuel) root_pa level_count vaddr paddr offset length flags s =
    elim (ltb offset length) [
      | false ↦ ok s
      | true ↦
          let level = choose_target_level vaddr paddr (sub64 length offset) level_count in
          let pgsz = page_size_at_level level in
          map_page root_pa level_count vaddr paddr level flags s >>= λ s'.
          map_from fuel root_pa level_count (add64 vaddr pgsz) (add64 paddr pgsz)
            (add64 offset pgsz) length flags s'
    ]

unfoldable pub ptm_map_at : ℕ → ℕ → ℕ → ℕ → ℕ → ℕ → Machine → Outcome Machine
ptm_map_at root_pa level_count vaddr paddr length flags s =
    if not (paddr % page == 0) || not (vaddr % page == 0) || not (length % page == 0)
    then panic unaligned_mapping
    else map_from (suc (length / page)) root_pa level_count vaddr paddr 0 length flags s

unfoldable pub ptm_map : RootTable → ℕ → ℕ → ℕ → ℕ → Machine → Outcome Machine
ptm_map g vaddr paddr length flags s = ptm_map_at g.tplt g.level_count vaddr paddr length flags s

-- The loop of `ptm_create_hhdm_mappings` over the entries of the snapshot; the flags are read and
-- write, and the rounding is that of the other port.
unfoldable pub map_entries : RootTable → ℕ → List Entry → Machine → Outcome Machine
map_entries g hhdm_offset [] s = ok s
map_entries g hhdm_offset (e ∷ es) s = elim e.type [
  | bad ↦ map_entries g hhdm_offset es s
  | _ ↦ ptm_map g (add64 hhdm_offset (hhdm_base e)) (hhdm_base e) (hhdm_length e) 6 s >>= λ s'.
      map_entries g hhdm_offset es s'
]

unfoldable pub ptm_create_hhdm_mappings : RootTable → ℕ → Machine → Outcome Machine
ptm_create_hhdm_mappings g hhdm_offset s = pmm_create_snapshot s.pmm >>= λ (snapshot, pmm).
    map_entries g hhdm_offset snapshot.entries (record s { pmm = pmm }) >>= λ s'.
    pmm_free_snapshot snapshot s'.pmm >>= λ pmm'. ok (record s' { pmm = pmm' })

unfoldable pub ptm_init : ℕ → Outcome ℕ → Machine → Outcome (RootTable × Machine)
ptm_init acpi_levels dtb_detect s = detect_max_level_count acpi_levels dtb_detect >>= λ levels.
    new_table s >>= λ (root, s'). ok (record { tplt = root; level_count = levels }, s')
