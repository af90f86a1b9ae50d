-- ===== src/Ptm.antt =====
-- The page tables of x86_64, pre_kernel/src/arch/x86_64/ptm.c with pre_kernel/include/memory/ptm.h.
-- A table is read and written at its physical address: the code adds the offset of the direct map to
-- reach it. What goes to the log is left out.
pub mod Chunks
pub mod Hhdm
mod Tests
use lunar_prekernel.Base.{
  ℕ, zero, suc, ◌+◌, ◌-◌, ◌*◌, ◌/◌, ◌%◌, ◌^◌, Bool, true, false, not, ◌&&◌, ◌||◌, List, [], ◌∷◌,
  ltb, leb, ◌==◌, if◌then◌else◌, bit_and, bit_or, add64, sub64, Outcome, ok, panic, out_of_fuel,
  unaligned_mapping, remap_over_large_page, ◌>>=◌,
}
use lunar_prekernel.Math.{not64}
use lunar_prekernel.Pmm.{MapType, bad, Entry, PmmMap}
use lunar_prekernel.Pmm.Alloc.{page, pmm_alloc, Snapshot, pmm_create_snapshot, pmm_free_snapshot}

-- `ptm_page_size_t`
pub data PageSize : Type 0 where
  size_4k size_2m size_1g : PageSize

abbrev pub page_bytes : PageSize → ℕ
page_bytes size_4k = 4096
page_bytes size_2m = 2097152
page_bytes size_1g = 1073741824

abbrev lowest_level : PageSize → ℕ
lowest_level size_4k = 1
lowest_level size_2m = 2
lowest_level size_1g = 3

abbrev entry_4k_address_mask : ℕ
entry_4k_address_mask = 0x0007_ffff_ffff_f000

abbrev address_mask : PageSize → ℕ
address_mask size_4k = entry_4k_address_mask
address_mask size_2m = 0x0007_ffff_ffe0_0000
address_mask size_1g = 0x0007_ffff_c000_0000

abbrev entry_flag_nx : ℕ
entry_flag_nx = 2 ^ 63

-- `g_ptm` and what the processor supports
pub record Paging : Type 0 where
  pub tplt : ℕ
  pub level_count : ℕ
  pub nx_support : Bool
  pub pdpe1gb_support : Bool

-- The words of physical memory by their address, and the memory map.
pub record Machine : Type 0 where
  pub words : ℕ → ℕ
  pub pmm : PmmMap

-- `VADDR_TO_INDEX`
unfoldable pub vaddr_to_index : ℕ → ℕ → ℕ
vaddr_to_index vaddr level = bit_and (vaddr / 2 ^ (level * 9 + 3)) 0x1ff

-- `current_table[index] = entry`
unfoldable pub set_entry : ℕ → ℕ → ℕ → Machine → Machine
set_entry table index entry s = record s {
  words = λ x. if x == table + 8 * index then entry else s.words x;
}

-- A table from `pmm_alloc(1)`, filled with 0
unfoldable pub new_table : Machine → Outcome (ℕ × Machine)
new_table s = pmm_alloc 1 s.pmm >>= λ (table, pmm). ok (
  table,
  record { words = λ x. if leb table x && ltb x (table + page) then 0 else s.words x; pmm = pmm },
)

-- The entry of a table that the walk goes through, before the write flag
unfoldable pub table_entry : ℕ → Bool → Machine → Outcome (ℕ × Machine)
unfolding new_table
table_entry entry nx s =
    if bit_and entry 1 == 0
    then (new_table s >>= λ (table, s').
        let fresh = bit_or 1 (bit_and table entry_4k_address_mask) in
        ok (if nx then bit_or fresh entry_flag_nx else fresh, s'))
    else if not (bit_and entry 128 == 0)
    then panic remap_over_large_page
    else ok (if not nx then bit_and entry (not64 entry_flag_nx) else entry, s)

-- The loop of `map_page` over the levels left above `lowest`; it ends with the table of `lowest`.
unfoldable pub descend : ℕ → ℕ → ℕ → ℕ → Bool → Bool → Machine → Outcome (ℕ × Machine)
unfolding vaddr_to_index set_entry table_entry
descend zero lowest table vaddr writable nx s = ok (table, s)
descend (suc k) lowest table vaddr writable nx s =
    let index = vaddr_to_index vaddr (lowest + suc k) in
    let old = s.words (table + 8 * index) in
    table_entry old nx s >>= λ (kept, s').
    let entry = if writable then bit_or kept 2 else kept in
    let s'' =
      if s'.words (table + 8 * index) == entry then s' else set_entry table index entry s' in
    descend k lowest (bit_and entry entry_4k_address_mask) vaddr writable nx s''

-- The entry that maps a page
unfoldable pub leaf_entry : ℕ → PageSize → Bool → Bool → ℕ
leaf_entry paddr size writable nx =
    let present = bit_or 1 (bit_and paddr (address_mask size)) in
    let sized : ℕ = elim size [ size_4k ↦ present | _ ↦ bit_or present 128 ] in
    let flagged = if writable then bit_or sized 2 else sized in
    if nx then bit_or flagged entry_flag_nx else flagged

unfoldable pub map_page : ℕ → ℕ → ℕ → ℕ → PageSize → Bool → Bool → Machine → Outcome Machine
unfolding descend leaf_entry
map_page cr3 level_count vaddr paddr size writable nx s =
    descend (level_count - lowest_level size) (lowest_level size) cr3 vaddr writable nx s
    >>= λ (table, s'). ok (
        set_entry table (vaddr_to_index vaddr (lowest_level size))
          (leaf_entry paddr size writable nx) s')

-- The size of the next page, where `left` bytes are left
unfoldable pub pick_size : Bool → ℕ → ℕ → ℕ → PageSize
pick_size pdpe1gb vaddr paddr left =
    let fits = λ (bytes : ℕ). paddr % bytes == 0 && vaddr % bytes == 0 && leb bytes left in
    if pdpe1gb && fits 1073741824 then size_1g else if fits 2097152 then size_2m else size_4k

-- The loop of `ptm_map` and `ptm_map_at` from an offset on; `fuel` bounds its rounds.
unfoldable pub map_from : ℕ → Bool → ℕ → ℕ → ℕ → ℕ → ℕ → ℕ → Bool → Bool → Machine → Outcome Machine
map_from zero pdpe1gb cr3 level_count vaddr paddr offset length writable nx s = out_of_fuel
map_from (suc fuel) pdpe1gb cr3 level_count vaddr paddr offset length writable nx s =
    elim (ltb offset length) [
      | false ↦ ok s
      | true ↦
          let size = pick_size pdpe1gb vaddr paddr (sub64 length offset) in
          let bytes = page_bytes size in
          map_page cr3 level_count vaddr paddr size writable nx s >>= λ s'.
          map_from fuel pdpe1gb cr3 level_count (add64 vaddr bytes) (add64 paddr bytes)
            (add64 offset bytes) length writable nx s'
    ]

-- `PTM_FLAG_EXEC` is 1 and `PTM_FLAG_WRITE` is 2.
unfoldable pub ptm_map_at : Paging → ℕ → ℕ → ℕ → ℕ → ℕ → ℕ → Machine → Outcome Machine
ptm_map_at g cr3 level_count vaddr paddr length flags s =
    if not (paddr % page == 0) || not (vaddr % page == 0) || not (length % page == 0)
    then panic unaligned_mapping
    else map_from (suc (length / page)) g.pdpe1gb_support cr3 level_count vaddr paddr 0 length
        (not (bit_and flags 2 == 0)) (g.nx_support && bit_and flags 1 == 0) s

unfoldable pub ptm_map : Paging → ℕ → ℕ → ℕ → ℕ → Machine → Outcome Machine
unfolding ptm_map_at
ptm_map g vaddr paddr length flags s = ptm_map_at g g.tplt g.level_count vaddr paddr length flags s

-- The rounding of an entry to whole pages in `ptm_create_hhdm_mappings`
unfoldable pub hhdm_base : Entry → ℕ
hhdm_base e = sub64 e.base (e.base % page)

unfoldable pub hhdm_length : Entry → ℕ
hhdm_length e =
    let length = add64 e.length (e.base % page) in
    if length % page == 0 then length else add64 length (page - length % page)

-- The loop of `ptm_create_hhdm_mappings` over the entries of the snapshot; the flags are read and
-- write.
unfoldable pub map_entries : Paging → ℕ → List Entry → Machine → Outcome Machine
unfolding ptm_map
map_entries g hhdm_offset [] s = ok s
map_entries g hhdm_offset (e ∷ es) s = elim e.type [
  | bad ↦ map_entries g hhdm_offset es s
  | _ ↦ ptm_map g (add64 hhdm_offset (hhdm_base e)) (hhdm_base e) (hhdm_length e) 6 s >>= λ s'.
      map_entries g hhdm_offset es s'
]

unfoldable pub ptm_create_hhdm_mappings : Paging → ℕ → Machine → Outcome Machine
unfolding map_entries
ptm_create_hhdm_mappings g hhdm_offset s = pmm_create_snapshot s.pmm >>= λ (snapshot, pmm).
    map_entries g hhdm_offset snapshot.entries (record s { pmm = pmm }) >>= λ s'.
    pmm_free_snapshot snapshot s'.pmm >>= λ pmm'. ok (record s' { pmm = pmm' })

-- `ptm_init`; what the processor says is given.
unfoldable pub ptm_init : Bool → ℕ → Bool → Bool → Machine → Outcome (Paging × Machine)
ptm_init la57 cr4 nx_support pdpe1gb_support s = new_table s >>= λ (table, s').
    let level_count = if la57 then (if not (bit_and cr4 4096 == 0) then 5 else 4) else 4 in
    ok (
      record {
        tplt = table;
        level_count = level_count;
        nx_support = nx_support;
        pdpe1gb_support = pdpe1gb_support;
      },
      s',
    )
