-- ===== src/Pmm/Alloc/Snap.antt =====
-- The snapshots of the memory map in pre_kernel/src/memory/pmm.c: what `pmm_create_snapshot` holds,
-- and that `pmm_free_snapshot` gives its pages back.
use lunar_prekernel.Base.{
  ℕ, zero, suc, ◌+◌, ◌*◌, ◌/◌, ◌%◌, ◌≤◌, ◌<◌, ◌≡◌, refl, ap, ◌⊎◌, inl, inr, false, List, [], ◌∷◌,
  take, arith, mul64, add64-eq-add, mul64-eq-mul, Bool-cases, ltb, ◌==◌, Outcome, ok, panic,
  out_of_memory, snapshot_alloc_failed, some, ◌∙◌,
}
use lunar_prekernel.Math.{math_align_up}
use lunar_prekernel.Math.Align.{math_ceil_lem}
use lunar_prekernel.Math.Masks.{math_align_up_lem}
use lunar_prekernel.Pmm.{free, allocated, Entry, PmmMap, pmm_map_max_entries}
use lunar_prekernel.Pmm.Valid.{live, type_of, IsValid}
use lunar_prekernel.Pmm.Alloc.{
  page, entry_size, pmm_alloc, pmm_alloc_ext, copy_entries, Snapshot, pmm_create_snapshot,
  pmm_free_snapshot,
}
use lunar_prekernel.Pmm.Alloc.First.{pmm_alloc_ext_lem}
use lunar_prekernel.Pmm.Alloc.Cycle.{
  pmm_free-Painting, Inside-fits, Took, Callable, pmm_alloc_ext-Took,
}

take-take : (i j : ℕ) (l : List Entry) → i ≤ j → take i (take j l) ≡ take i l
take-take zero j l h = refl
take-take (suc i) zero l h = absurd (omega arith)
take-take (suc i) (suc j) [] h = refl
take-take (suc i) (suc j) (e ∷ l) h = ap (λ t. e ∷ t) (take-take i j l (omega arith))

-- The bytes of an array of entries, rounded up to pages.
abbrev pub array_bytes : ℕ → ℕ
array_bytes count = math_align_up (mul64 entry_size count) page

array_bytes_lem :
    (count : ℕ)
    → count ≤ pmm_map_max_entries
    → (entry_size * count ≤ array_bytes count)
      × (array_bytes count < entry_size * count + page)
      × (array_bytes count % page ≡ 0)
array_bytes_lem count h =
    let ceil = math_ceil_lem (entry_size * count) page (omega arith) (omega arith) in
    rw
      (
        mul64-eq-mul entry_size count (omega arith),
        math_align_up_lem 12 (omega arith) (entry_size * count) (omega arith),
      )
      ceil

-- A snapshot of a map, of which it holds all entries as they are behind the allocation of its pages.
pub record Captured (m : PmmMap) (out : Outcome (Snapshot × PmmMap)) : Type 0 where
  pub snapshot : Snapshot
  pub map : PmmMap
  pub result : out ≡ ok (snapshot, map)
  pub took : Took snapshot.bytes page allocated m snapshot.phys map
  pub holds : take map.size snapshot.entries ≡ live map
  pub stored : entry_size * snapshot.count ≤ snapshot.bytes
  pub whole : snapshot.bytes % page ≡ 0
  pub some_pages : 0 < snapshot.bytes / page

-- The call that `pmm_create_snapshot` makes of the allocator.
abbrev pub snapshot_pages : PmmMap → ℕ
snapshot_pages m = array_bytes (m.size + 2) / page

module _ (m : PmmMap) (c : Callable (snapshot_pages m) page m) where
  bytes_whole : snapshot_pages m * page ≡ array_bytes (m.size + 2)
  bytes_whole = omega (arith, array_bytes_lem (m.size + 2) c.room)

  -- Behind the allocation the snapshot is big enough.
  not_too_big :
      (m' : PmmMap)
      → m'.size ≤ m.size + 2
      → ltb (array_bytes (m.size + 2)) (array_bytes m'.size) ≡ false
  not_too_big m' grown =
      let b = array_bytes_lem (m.size + 2) c.room in
      let b' = array_bytes_lem m'.size (omega (arith, c.room)) in
      let small : array_bytes m'.size ≤ array_bytes (m.size + 2) = omega (arith, b, b') in
      ground arith

  create_stuck :
      pmm_alloc_ext (snapshot_pages m) page allocated m ≡ panic out_of_memory
      → pmm_create_snapshot m ≡ panic out_of_memory
  unfolding pmm_create_snapshot pmm_alloc
  create_stuck e = rw (add64-eq-add m.size 2 (omega (arith, c.room)), e)

  create_null :
      (m' : PmmMap)
      → pmm_alloc_ext (snapshot_pages m) page allocated m ≡ ok (0, m')
      → pmm_create_snapshot m ≡ panic snapshot_alloc_failed
  unfolding pmm_create_snapshot pmm_alloc
  create_null m' e = rw (add64-eq-add m.size 2 (omega (arith, c.room)), e)

  taken_snapshot : ℕ → PmmMap → Snapshot
  taken_snapshot x m' = record {
    entries = take (m.size + 2) m'.slots;
    count = m.size + 2;
    phys = x;
    bytes = array_bytes (m.size + 2);
  }

  create_ok :
      (x : ℕ) (m' : PmmMap)
      → (x == 0) ≡ false
      → m'.size ≤ m.size + 2
      → pmm_alloc_ext (snapshot_pages m) page allocated m ≡ ok (x, m')
      → pmm_create_snapshot m ≡ ok (taken_snapshot x m', m')
  unfolding pmm_create_snapshot pmm_alloc copy_entries taken_snapshot
  create_ok x m' found grown e =
      let inside : ltb pmm_map_max_entries (m.size + 2) ≡ false = ground (arith, c.room) in
      rw (add64-eq-add m.size 2 (omega (arith, c.room)), e, found, not_too_big m' grown, inside)

-- `pmm_create_snapshot` of a map in which its pages can be allocated: the snapshot holds all entries
-- that the map then has, in pages of its own that are large enough; or it panics, since no memory is
-- left, or since the pages lie at address 0, which then was free.
pub pmm_create_snapshot_lem :
    (m : PmmMap)
    → Callable (snapshot_pages m) page m
    → Captured m (pmm_create_snapshot m)
      ⊎ ((pmm_create_snapshot m ≡ panic out_of_memory)
          ⊎ ((pmm_create_snapshot m ≡ panic snapshot_alloc_failed) × (type_of m 0 ≡ some free)))
pmm_create_snapshot_lem m c =
    elim (pmm_alloc_ext_lem (snapshot_pages m) page allocated m c.valid c.room c.some_pages c.fits
      c.some_align c.low) [
        | inr (stuck, _) ↦ inr (inl (create_stuck m c stuck))
        | inl a ↦
            let k =
              pmm_alloc_ext-Took (snapshot_pages m) page allocated m a.address a.painting.map c
                a.result in
            elim (Bool-cases (a.address == 0)) [
              | inl null ↦
                  let at_zero : a.address ≡ 0 = ground arith in
                  inr (
                    inr (
                      create_null m c a.painting.map (rw at_zero at a.result),
                      k.was_free 0 (ground (arith, c.some_pages)),
                    ))
              | inr found ↦ inl (record {
                snapshot = taken_snapshot m c a.address a.painting.map;
                map = a.painting.map;
                result = create_ok m c a.address a.painting.map found k.grown a.result;
                took = unfold taken_snapshot in rw (bytes_whole m c) at k;
                holds =
                    unfold taken_snapshot in
                    take-take a.painting.map.size (m.size + 2) a.painting.map.slots k.grown;
                stored = unfold taken_snapshot in (array_bytes_lem (m.size + 2) c.room).0;
                whole = unfold taken_snapshot in (array_bytes_lem (m.size + 2) c.room).2;
                some_pages = unfold taken_snapshot in c.some_pages;
              })
            ]
      ]

-- Freeing a snapshot, if two slots are free behind its allocation: no address then has another type
-- than before the snapshot was made, and the map is valid.
pub pmm_free_snapshot-pmm_create_snapshot :
    (m m' : PmmMap) (s : Snapshot)
    → Callable (snapshot_pages m) page m
    → m.size + 4 ≤ pmm_map_max_entries
    → pmm_create_snapshot m ≡ ok (s, m')
    → (m'' : PmmMap) × (pmm_free_snapshot s m' ≡ ok m'')
      × IsValid m''
      × ((a : ℕ) → type_of m'' a ≡ type_of m a)
unfolding pmm_free_snapshot
pmm_free_snapshot-pmm_create_snapshot m m' s c room e = elim (pmm_create_snapshot_lem m c) [
  | inr (inl stuck) ↦ absurd (cc)
  | inr (inr (null, _)) ↦ absurd (cc)
  | inl k ↦
      let same_snapshot : k.snapshot ≡ s = cc (k.result) in
      let same_map : k.map ≡ m' = cc (k.result) in rw (same_snapshot, same_map) at (freed k)
]
  where
    freed :
        (k : Captured m (pmm_create_snapshot m))
        → (m'' : PmmMap) × (pmm_free_snapshot k.snapshot k.map ≡ ok m'')
          × IsValid m''
          × ((a : ℕ) → type_of m'' a ≡ type_of m a)
    freed k =
        let bytes : k.snapshot.bytes / page * page ≡ k.snapshot.bytes = omega (arith, k.whole) in
        let f =
          pmm_free-Painting k.snapshot.phys (k.snapshot.bytes / page) k.map k.took.valid
            (omega (arith, k.took.grown)) k.some_pages
            (rw bytes (
              omega (
                arith,
                Inside-fits 0 k.snapshot.phys k.snapshot.bytes (live k.map) k.took.valid.ordered
                    k.took.inside,
              )))
            (rw bytes k.took.inside) in
        (
          f.map,
          f.result,
          f.valid,
          λ a. f.painted a ∙ rw bytes (ground (arith, k.took.painted a, k.took.was_free a)),
        )
