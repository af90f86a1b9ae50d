-- ===== src/Pmm/Tests.antt =====
-- Runs of the memory manager of pre_kernel/src/memory/pmm.c on a small map.
use lunar_prekernel.Pmm.{
  pmm_map_add, MapType, free, allocated, reserved, Entry, PmmMap, pmm_map_set, sweep, visit,
  cut_start, cut_end, settle, drop_entry, map_insert, map_delete, load, store, rank, same_type,
  place, place_at, find_slot, extend_before, extend_after, used, bad,
}
use lunar_prekernel.Pmm.Spans.{paint, in_range, Below, Ordered, bound, Ordered-weaken}
use lunar_prekernel.Pmm.Add.{pmm_map_add_lem, shielded}
use lunar_prekernel.Pmm.Valid.{IsValid, live, type_of, Painting, pmm_map_set-Painting}
use lunar_prekernel.Pmm.Alloc.Snap.{
  Captured, snapshot_pages, pmm_create_snapshot_lem, pmm_free_snapshot-pmm_create_snapshot,
}
use lunar_prekernel.Math.{math_align_up, not64, math_ceil, math_div_ceil}
use lunar_prekernel.Pmm.Edge.{pmm_map_set_edge}
use lunar_prekernel.Pmm.Full.{pmm_map_set_full}
use lunar_prekernel.Base.{
  ℕ, zero, suc, ◌+◌, ◌*◌, ◌≤◌, ◌<◌, ◌≡◌, refl, ◌⊎◌, inl, inr, true, false, List, [], ◌∷◌, arith,
  length, replicate, Outcome, ok, All, u64_mod, ◌≢◌, add64, panic, sub64, out_of_memory, fault,
  mul64, subst, ◌++◌, sym, snapshot_alloc_failed, some, ◌&&◌, not,
}
use lunar_prekernel.Pmm.Slots.{holding}
use lunar_prekernel.Pmm.Alloc.{
  pmm_alloc_ext, alloc_ext_from, pmm_free, pmm_alloc_at, alloc_at_from, Snapshot,
  pmm_create_snapshot, pmm_free_snapshot, pmm_alloc, copy_entries,
}
use lunar_prekernel.Pmm.Alloc.First.{Allocated, HasRoom, pmm_alloc_ext_lem}
use lunar_prekernel.Pmm.Alloc.At.{Reserved, Offers, pmm_alloc_at_lem}
use lunar_prekernel.Pmm.Alloc.Cycle.{
  Callable, pmm_alloc_ext-Took, pmm_free-Painting, pmm_free-pmm_alloc_ext, pmm_alloc_ext_disjoint,
}

abbrev entry : ℕ → ℕ → MapType → Entry
entry base length type = record { base = base; length = length; type = type }

-- The map of a small machine, and what it is after one page was allocated.
abbrev unused : Entry
unused = entry 0 0 free

abbrev regions : List Entry
regions = entry 4096 61440 free ∷ entry 65536 4096 reserved ∷ entry 131072 65536 free ∷ []

abbrev regions_after : List Entry
regions_after =
    entry 4096 4096 allocated
    ∷ entry 8192 57344 free
    ∷ entry 65536 4096 reserved
    ∷ entry 131072 65536 free
    ∷ []

abbrev machine : PmmMap
machine = holding regions (replicate 1021 unused)

abbrev machine_after : PmmMap
machine_after = holding regions_after (replicate 1020 unused)

abbrev machine_later : PmmMap
machine_later =
    holding
      (entry 4096 4096 allocated
        ∷ entry 8192 8192 used
        ∷ entry 16384 49152 free
        ∷ entry 65536 4096 reserved
        ∷ entry 131072 65536 free
        ∷ [])
      (replicate 1019 unused)

-- Single pages with a page between any two.
abbrev pages : ℕ → ℕ → List Entry
pages zero base = []
pages (suc n) base = entry base 4096 used ∷ pages n (base + 8192)

pages-Ordered : (n base : ℕ) → base + n * 8192 < u64_mod → Ordered base (pages n base)
pages-Ordered zero base h = tt
pages-Ordered (suc n) base h = (
  omega arith,
  omega arith,
  omega arith,
  Ordered-weaken (base + 8192) (base + 4096) (pages n (base + 8192)) (omega arith)
      (pages-Ordered n (base + 8192) (omega arith)),
)

bound-pages : (n lo base : ℕ) → lo ≤ base → bound lo (pages n base) ≤ base + n * 8192
bound-pages zero lo base h = omega arith
bound-pages (suc n) lo base h =
    omega (arith, bound-pages n (base + 4096) (base + 8192) (omega arith))

full-IsValid : IsValid (holding (pages 1024 0) [])
full-IsValid = record {
  slots = refl;
  size = omega arith;
  ordered = pages-Ordered 1024 0 (omega arith);
  stale = tt;
}

full_bound : bound 0 (pages 1024 0) < 8388608
full_bound = omega (arith, bound-pages 1023 4096 8192 (omega arith))

allocated_free : allocated ≢ free
allocated_free e = absurd (cc e)

Below-replicate : (k n : ℕ) (e : Entry) → e.base < k → Below k (replicate n e)
Below-replicate k zero e h = tt
Below-replicate k (suc n) e h = (h, Below-replicate k n e h)

machine-IsValid : IsValid machine
machine-IsValid = record {
  slots = refl;
  size = omega arith;
  ordered = (
    omega arith,
    omega arith,
    omega arith,
    (omega arith, omega arith, omega arith, (omega arith, omega arith, omega arith, tt)),
  );
  stale = Below-replicate _ 1021 unused (omega arith);
}

machine-Callable : Callable 1 4096 machine
machine-Callable = record {
  valid = machine-IsValid;
  room = omega arith;
  some_pages = omega arith;
  fits = omega arith;
  some_align = omega arith;
  low = (omega arith, (omega arith, (omega arith, tt)));
}

one_page : pmm_alloc_ext 1 4096 allocated machine ≡ ok (4096, machine_after)
unfolding pmm_alloc_ext alloc_ext_from pmm_map_set sweep visit cut_start cut_end settle drop_entry
    map_insert map_delete load store rank same_type place place_at find_slot extend_before
    extend_after add64 sub64 mul64 math_ceil math_div_ceil
one_page = refl

next_page : pmm_alloc_ext 2 8192 used machine_after ≡ ok (8192, machine_later)
unfolding pmm_alloc_ext alloc_ext_from pmm_map_set sweep visit cut_start cut_end settle drop_entry
    map_insert map_delete load store rank same_type place place_at find_slot extend_before
    extend_after add64 sub64 mul64 math_ceil math_div_ceil
next_page = refl

refused_address : pmm_alloc_at 61440 2 allocated machine ≡ ok (false, machine)
unfolding pmm_alloc_at alloc_at_from add64 mul64 same_type rank load
refused_address = refl

machine_after-Callable : Callable 2 8192 machine_after
machine_after-Callable = record {
  valid =
      (pmm_alloc_ext-Took 1 4096 allocated machine 4096 machine_after machine-Callable
        one_page).valid;
  room = omega arith;
  some_pages = omega arith;
  fits = omega arith;
  some_align = omega arith;
  low = (omega arith, (omega arith, (omega arith, (omega arith, tt))));
}

-- The range lies round one entry and cuts two more.
abbrev wide_out : Outcome PmmMap
wide_out = pmm_map_set 61440 73728 bad false machine

pmm_map_set-Painting_example : Painting bad 61440 73728 machine wide_out
pmm_map_set-Painting_example =
    pmm_map_set-Painting 61440 73728 bad false machine machine-IsValid (omega arith) (omega arith)
      (omega arith)
      (
        inr (unfold rank in refl, λ edge. omega arith),
        (
          inr (unfold rank in refl, λ edge. omega arith),
          (inr (unfold rank in refl, λ edge. omega arith), tt),
        ),
      )

pmm_free-Painting_example : Painting free 65536 4096 machine (pmm_free 65536 1 machine)
pmm_free-Painting_example =
    pmm_free-Painting 65536 1 machine machine-IsValid (omega arith) (omega arith) (omega arith)
      (inr (inl (omega arith, omega arith)))

pmm_alloc_ext_lem_example :
    Allocated 4096 4096 allocated machine (pmm_alloc_ext 1 4096 allocated machine)
    ⊎ ((pmm_alloc_ext 1 4096 allocated machine ≡ panic out_of_memory)
        × All (λ e. ¬ (HasRoom 4096 4096 e)) (live machine))
pmm_alloc_ext_lem_example =
    pmm_alloc_ext_lem 1 4096 allocated machine machine-IsValid (omega arith) (omega arith)
      (omega arith) (omega arith) (omega arith, (omega arith, (omega arith, tt)))

pmm_alloc_at_lem_example :
    Reserved 8192 4096 used machine (pmm_alloc_at 8192 1 used machine)
    ⊎ ((pmm_alloc_at 8192 1 used machine ≡ ok (false, machine))
        × All (λ e. ¬ (Offers 8192 4096 e)) (live machine))
pmm_alloc_at_lem_example =
    pmm_alloc_at_lem 8192 1 used machine machine-IsValid (omega arith) (omega arith) (omega arith)

pmm_free-pmm_alloc_ext_example :
    (m'' : PmmMap) × (pmm_free 4096 1 machine_after ≡ ok m'')
    × IsValid m''
    × ((a : ℕ) → type_of m'' a ≡ type_of machine a)
pmm_free-pmm_alloc_ext_example =
    pmm_free-pmm_alloc_ext 1 4096 allocated machine 4096 machine_after machine-Callable
      (omega arith) one_page

pmm_alloc_ext_disjoint_example : in_range 8192 8192 5000 ≡ false
pmm_alloc_ext_disjoint_example =
    pmm_alloc_ext_disjoint 1 2 4096 8192 allocated used machine machine_after machine_later 4096
      8192 machine-Callable allocated_free one_page machine_after-Callable next_page 5000 refl

pmm_map_set_edge_example :
    pmm_map_set 4096 131072 bad true (holding (entry 4096 61440 free ∷ []) (replicate 1023 unused))
    ≡ ok (holding (entry 4096 61440 free ∷ entry 4096 131072 bad ∷ []) (replicate 1022 unused))
pmm_map_set_edge_example =
    pmm_map_set_edge bad true (entry 4096 61440 free) unused (replicate 1022 unused) 131072
      (omega arith) (omega arith) (omega arith) (omega arith)

pmm_map_set_full_example : pmm_map_set 8388608 4096 bad true (holding (pages 1024 0) []) ≡ fault
pmm_map_set_full_example =
    pmm_map_set_full 8388608 4096 bad true (holding (pages 1024 0) []) full-IsValid refl full_bound
      (omega arith) (omega arith)

-- A snapshot of the map, in its first page.
abbrev captured : Snapshot
captured = record { entries = regions_after ++ (unused ∷ []); count = 5; phys = 4096; bytes = 4096 }

one_snapshot_page : snapshot_pages machine ≡ 1
unfolding math_align_up not64 mul64 add64 sub64
one_snapshot_page = refl

snapshot-Callable : Callable (snapshot_pages machine) 4096 machine
snapshot-Callable = subst (λ n. Callable n 4096 machine) (sym one_snapshot_page) machine-Callable

first_snapshot : pmm_create_snapshot machine ≡ ok (captured, machine_after)
unfolding pmm_create_snapshot pmm_alloc copy_entries math_align_up not64 pmm_alloc_ext
    alloc_ext_from pmm_map_set sweep visit cut_start cut_end settle drop_entry map_insert map_delete
    load store rank same_type place place_at find_slot extend_before extend_after add64 sub64 mul64
    math_ceil math_div_ceil
first_snapshot = refl

pmm_create_snapshot_lem_example :
    Captured machine (pmm_create_snapshot machine)
    ⊎ ((pmm_create_snapshot machine ≡ panic out_of_memory)
        ⊎ ((pmm_create_snapshot machine ≡ panic snapshot_alloc_failed)
            × (type_of machine 0 ≡ some free)))
pmm_create_snapshot_lem_example = pmm_create_snapshot_lem machine snapshot-Callable

pmm_free_snapshot-pmm_create_snapshot_example :
    (m'' : PmmMap) × (pmm_free_snapshot captured machine_after ≡ ok m'')
    × IsValid m''
    × ((a : ℕ) → type_of m'' a ≡ type_of machine a)
pmm_free_snapshot-pmm_create_snapshot_example =
    pmm_free_snapshot-pmm_create_snapshot machine machine_after captured snapshot-Callable
      (omega arith) first_snapshot

pmm_map_add_lem_example :
    (m' : PmmMap) × (pmm_map_add 8192 4096 free machine ≡ ok m')
    × IsValid m'
    × ((a : ℕ)
        → type_of m' a
          ≡ paint
              (in_range 8192 4096 a && not (shielded free 8192 4096 (live machine)))
              free
              (type_of machine a))
pmm_map_add_lem_example =
    pmm_map_add_lem 8192 4096 free machine machine-IsValid (omega arith) (omega arith) (
      inr (omega arith, omega arith),
      (inl (inl (inr (omega arith))), (inl (inl (inr (omega arith))), tt)),
    )
