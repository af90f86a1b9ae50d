-- ===== src/Pagedb.antt =====
-- The page database, pre_kernel/src/memory/pagedb.c: the pages above the direct map in which the kernel
-- keeps a record for each page of memory. `ptm_map` is that of either port, and what goes to the log is
-- left out.
pub mod Segments
pub mod Covers
pub mod Pages
mod Tests
use lunar_prekernel.Base.{
  ℕ, Bool, add64, Option, Outcome, false, out_of_fuel, List, true, mul64, if◌then◌else◌, suc, ok,
  ◌/◌, not, ltb, ◌∷◌, none, panic, leb, ◌>>=◌, some, pagedb_overlaps_kernel, sub64, ◌+◌, [],
}
use lunar_prekernel.Pmm.{bad, used, MapType, Entry}
use lunar_prekernel.Ptm.{Machine}
use lunar_prekernel.Math.{math_floor, math_ceil, math_max, math_align_up}
use lunar_prekernel.Bootinfo.{BootInfo}
use lunar_prekernel.Pmm.Alloc.{page, pmm_alloc_ext, pmm_create_snapshot, pmm_free_snapshot}
use Prim.Native.Nat.{zero}

-- The `switch` on the type of an entry
unfoldable pub has_records : MapType → Bool
has_records bad = false
has_records _ = true

-- Where the records of an entry start and end, in whole pages
unfoldable pub records_start : ℕ → ℕ → Entry → ℕ
records_start pagedb_base size e = add64 pagedb_base (math_floor (mul64 (e.base / page) size) page)

unfoldable pub records_end : ℕ → ℕ → Entry → ℕ
records_end pagedb_base size e =
    add64 pagedb_base (math_ceil (mul64 (add64 e.base e.length / page) size) page)

-- The part of an entry's records that is still to map, if there is one
unfoldable pub next_segment : ℕ → ℕ → ℕ → Entry → Option (ℕ × ℕ)
next_segment pagedb_base size mapped_end e =
    let first = records_start pagedb_base size e in
    let start = if ltb first mapped_end then mapped_end else first in
    let end = records_end pagedb_base size e in
    if not (has_records e.type) then none else if leb end start then none else some (start, end)

module _ (ptm_map : ℕ → ℕ → ℕ → ℕ → Machine → Outcome Machine) where
  -- The loop over the pages of a segment; `fuel` bounds its rounds.
  unfoldable pub map_records : ℕ → ℕ → ℕ → Machine → Outcome Machine
  map_records zero at end s = out_of_fuel
  map_records (suc fuel) at end s = elim (ltb at end) [
    | false ↦ ok s
    | true ↦ pmm_alloc_ext 1 page used s.pmm >>= λ (phys, m).
        ptm_map at phys page 6 (record s { pmm = m }) >>= λ s'.
        map_records fuel (add64 at page) end s'
  ]

  -- The loop over the entries of the snapshot
  unfoldable pub map_entries : ℕ → ℕ → ℕ → List Entry → Machine → Outcome Machine
  map_entries pagedb_base size mapped_end [] s = ok s
  map_entries pagedb_base size mapped_end (e ∷ es) s =
      elim (next_segment pagedb_base size mapped_end e) [
        | none ↦ map_entries pagedb_base size mapped_end es s
        | some (start, end) ↦ map_records (sub64 end start / page + 2) start end s >>= λ s'.
            map_entries pagedb_base size end es s'
      ]

  unfoldable pub pagedb_setup : ℕ → ℕ → BootInfo → Machine → Outcome (ℕ × (ℕ × Machine))
  pagedb_setup kernel_base size boot s =
      let system_page_count = math_align_up boot.hhdm_size page / page in
      let bytes = math_align_up (mul64 system_page_count size) page in
      let pagedb_base = add64 (add64 boot.hhdm_offset boot.hhdm_size) page in
      if ltb kernel_base (add64 pagedb_base bytes)
      then panic pagedb_overlaps_kernel
      else (pmm_create_snapshot s.pmm >>= λ (snapshot, m).
          map_entries pagedb_base size pagedb_base snapshot.entries (record s { pmm = m }) >>= λ s'.
          pmm_free_snapshot snapshot s'.pmm >>= λ m'.
          ok (pagedb_base, (bytes, record s' { pmm = m' })))
