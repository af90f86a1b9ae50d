-- ===== src/Pmm/Alloc.antt =====
-- The allocator of pre_kernel/src/memory/pmm.c on top of `pmm_map_set`: pages at an address, the
-- first fit, `pmm_free`, and the snapshots of the map.
pub mod Fit
pub mod Cycle
pub mod First
pub mod At
pub mod Snap
use lunar_prekernel.Base.{
  ℕ, zero, suc, ◌+◌, ◌*◌, ◌/◌, ◌≤◌, Bool, true, false, not, ◌||◌, List, ltb, leb, ◌==◌,
  if◌then◌else◌, take, add64, sub64, mul64, Outcome, ok, panic, fault, out_of_memory,
  snapshot_alloc_failed, snapshot_too_big, ◌>>=◌,
}
use lunar_prekernel.Math.{math_ceil, math_align_up}
use lunar_prekernel.Pmm.{
  MapType, free, allocated, same_type, Entry, PmmMap, load, pmm_map_set, pmm_map_max_entries,
}

-- `PTM_PAGE_GRANULARITY`, of pre_kernel/include/memory/ptm.h
abbrev pub page : ℕ
page = 4096

-- The loop of `pmm_alloc_at` over the rounds left
unfoldable pub alloc_at_from : ℕ → ℕ → ℕ → ℕ → MapType → PmmMap → Outcome (Bool × PmmMap)
alloc_at_from zero i address length type m = ok (false, m)
alloc_at_from (suc k) i address length type m =
    let rest = alloc_at_from k (suc i) address length type m in
    load m i >>= λ e.
    if not (same_type e.type free)
    then rest
    else if ltb address e.base || ltb (add64 e.base e.length) (add64 address length)
    then rest
    else pmm_map_set address length type true m >>= λ m'. ok (true, m')

unfoldable pub pmm_alloc_at : ℕ → ℕ → MapType → PmmMap → Outcome (Bool × PmmMap)
unfolding alloc_at_from
pmm_alloc_at address page_count type m =
    alloc_at_from m.size 0 address (mul64 page_count page) type m

-- The loop of `pmm_alloc_ext` over the rounds left
unfoldable pub alloc_ext_from : ℕ → ℕ → ℕ → ℕ → MapType → PmmMap → Outcome (ℕ × PmmMap)
alloc_ext_from zero i length alignment type m = panic out_of_memory
alloc_ext_from (suc k) i length alignment type m =
    let rest = alloc_ext_from k (suc i) length alignment type m in
    load m i >>= λ e.
    let ue_base = math_ceil e.base alignment in
    let ue_length = sub64 e.length (sub64 ue_base e.base) in
    if not (same_type e.type free)
    then rest
    else if leb (add64 e.base e.length) ue_base
    then rest
    else if ltb ue_length length
    then rest
    else pmm_map_set ue_base length type true m >>= λ m'. ok (ue_base, m')

unfoldable pub pmm_alloc_ext : ℕ → ℕ → MapType → PmmMap → Outcome (ℕ × PmmMap)
unfolding alloc_ext_from
pmm_alloc_ext page_count alignment type m =
    alloc_ext_from m.size 0 (mul64 page_count page) alignment type m

unfoldable pub pmm_alloc : ℕ → PmmMap → Outcome (ℕ × PmmMap)
unfolding pmm_alloc_ext
pmm_alloc page_count m = pmm_alloc_ext page_count page allocated m

unfoldable pub pmm_free : ℕ → ℕ → PmmMap → Outcome PmmMap
pmm_free address page_count m = pmm_map_set address (mul64 page_count page) free true m

-- `pmm_map_snapshot_t`; `entries` is what the pointer leads to.
pub record Snapshot : Type 0 where
  pub entries : List Entry
  pub count : ℕ
  pub phys : ℕ
  pub bytes : ℕ

-- `sizeof(pmm_map_entry_t)`
abbrev pub entry_size : ℕ
entry_size = 24

-- The copy reads `count` slots of the array, which is a fault where it has fewer.
unfoldable pub copy_entries : ℕ → PmmMap → Outcome (List Entry)
copy_entries count m = if ltb pmm_map_max_entries count then fault else ok (take count m.slots)

unfoldable pub pmm_create_snapshot : PmmMap → Outcome (Snapshot × PmmMap)
unfolding copy_entries
pmm_create_snapshot m =
    let count = add64 m.size 2 in
    let bytes = math_align_up (mul64 entry_size count) page in
    pmm_alloc (bytes / page) m >>= λ (phys, m').
    if phys == 0
    then panic snapshot_alloc_failed
    else if ltb bytes (math_align_up (mul64 entry_size m'.size) page)
    then panic snapshot_too_big
    else (copy_entries count m' >>= λ entries.
        ok (record { entries = entries; count = count; phys = phys; bytes = bytes }, m'))

unfoldable pub pmm_free_snapshot : Snapshot → PmmMap → Outcome PmmMap
unfolding pmm_free
pmm_free_snapshot s m = pmm_free s.phys (s.bytes / page) m
