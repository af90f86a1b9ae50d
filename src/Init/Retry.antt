-- ===== src/Init/Retry.antt =====
-- The loop of pre_kernel/src/init.c that allocates the block for the memory map. An allocation can add
-- entries to the map, so the loop tries again with twice as many until they fit.
use lunar_prekernel.Pmm.{PmmMap, Entry, pmm_map_max_entries, free, allocated}
use lunar_prekernel.Pmm.Spans.{type_at, Ordered, in_range, entry_end, paint}
use lunar_prekernel.Init.{memory_map_pages, memory_map_block}
use lunar_prekernel.Base.{
  ℕ, zero, suc, ◌+◌, ◌*◌, ◌%◌, ◌^◌, ◌≤◌, ◌<◌, ◌≡◌, true, none, some, List, [], ◌∷◌, arith, All,
  u64_mod, mul64-eq-mul, Outcome, sym, refl, ap, ◌∙◌, ◌⊎◌, inl, inr, false, ltb, Bool-cases, ok,
  panic, ◌>>=◌, out_of_memory,
}
use lunar_prekernel.Pmm.Alloc.{page, pmm_alloc, pmm_alloc_ext, pmm_free}
use lunar_prekernel.Bootinfo.{mm_entry_size}
use lunar_prekernel.Pmm.Valid.{IsValid, type_of, live}
use lunar_prekernel.Math.Align.{math_ceil_lem}
use lunar_prekernel.Math.Masks.{math_align_up_lem}
use lunar_prekernel.Pmm.Alloc.Cycle.{Callable, pmm_alloc_ext-Took, Took, pmm_free-Painting}
use lunar_prekernel.Pmm.Alloc.First.{pmm_alloc_ext_lem}

-- No entry lies in the last page of the address space.
abbrev pub LeavesLastPage : PmmMap → Type 0
LeavesLastPage m = (a : ℕ) → u64_mod < a + page → type_of m a ≡ none

pub low_entries :
    (lo : ℕ) (es : List Entry)
    → Ordered lo es
    → ((a : ℕ) → u64_mod < a + page → type_at es a ≡ none)
    → All (λ (e : Entry). e.base + page ≤ u64_mod) es
unfolding type_at
low_entries lo [] o h = tt
low_entries lo (e ∷ es) o h = (
  ground (arith, o.1, h e.base),
  low_entries (entry_end e) es o.3 (λ a above. ground (arith, h a above)),
)

-- A block of pages, free in `m` and allocated in the valid map `m'`, that has room for the entries of
-- `m'`; all other addresses have the type that they had.
pub record BlockOf (m : PmmMap) (phys : ℕ) (m' : PmmMap) : Type 0 where
  pub bytes : ℕ
  pub room : m'.size * mm_entry_size ≤ bytes
  pub aligned : phys % page ≡ 0
  pub was_free : (a : ℕ) → in_range phys bytes a ≡ true → type_of m a ≡ some free
  pub valid : IsValid m'
  pub painted : (a : ℕ) → type_of m' a ≡ paint (in_range phys bytes a) allocated (type_of m a)

pages_lem :
    (entries : ℕ)
    → 0 < entries
    → entries ≤ 2 ^ 32
    → (0 < memory_map_pages entries)
      × (entries * mm_entry_size ≤ memory_map_pages entries * page)
      × (memory_map_pages entries * page < u64_mod)
unfolding memory_map_pages
pages_lem entries pos small =
    let bytes = entries * 24 in
    let fits : bytes + page ≤ u64_mod = omega arith in
    let high = math_ceil_lem bytes page (omega arith) fits in
    rw (mul64-eq-mul entries 24 (omega arith), math_align_up_lem 12 (omega arith) bytes fits)
      (omega (arith, high), omega (arith, high), omega (arith, high))

-- A count doubled some times.
abbrev doubled : ℕ → ℕ → ℕ
doubled zero n = n
doubled (suc k) n = doubled k (n * 2)

doubled-ge : (k n : ℕ) → n ≤ doubled k n
doubled-ge zero n = omega arith
doubled-ge (suc k) n = omega (arith, doubled-ge k (n * 2))

Callable-memory_map_pages :
    (entries : ℕ) (m : PmmMap)
    → IsValid m
    → LeavesLastPage m
    → m.size + 2 ≤ pmm_map_max_entries
    → 0 < entries
    → entries ≤ 2 ^ 32
    → Callable (memory_map_pages entries) page m
Callable-memory_map_pages entries m v low room pos small =
    let p = pages_lem entries pos small in
    record {
      valid = v;
      room = room;
      some_pages = p.0;
      fits = p.2;
      some_align = omega arith;
      low = low_entries 0 (live m) v.ordered low;
    }

-- One round of the loop.
round_fits :
    (fuel entries phys : ℕ) (m m' : PmmMap)
    → pmm_alloc_ext (memory_map_pages entries) page allocated m ≡ ok (phys, m')
    → ltb entries m'.size ≡ false
    → memory_map_block (suc fuel) entries m ≡ ok (phys, m')
unfolding memory_map_block pmm_alloc
round_fits fuel entries phys m m' taken enough = rw (taken, ◌>>=◌, enough) refl

round_again :
    (fuel entries phys : ℕ) (m m' m'' : PmmMap)
    → pmm_alloc_ext (memory_map_pages entries) page allocated m ≡ ok (phys, m')
    → ltb entries m'.size ≡ true
    → pmm_free phys (memory_map_pages entries) m' ≡ ok m''
    → entries ≤ 2 ^ 32
    → memory_map_block (suc fuel) entries m ≡ memory_map_block fuel (entries * 2) m''
unfolding memory_map_block pmm_alloc
round_again fuel entries phys m m' m'' taken small freed bounded =
    rw (taken, ◌>>=◌, small, freed, mul64-eq-mul entries 2 (omega arith)) refl

round_stuck :
    (fuel entries : ℕ) (m : PmmMap)
    → pmm_alloc_ext (memory_map_pages entries) page allocated m ≡ panic out_of_memory
    → memory_map_block (suc fuel) entries m ≡ panic out_of_memory
unfolding memory_map_block pmm_alloc
round_stuck fuel entries m stuck = rw stuck refl

abbrev Ends : PmmMap → Outcome (ℕ × PmmMap) → Type 0
Ends m out =
    ((phys : ℕ) × (m' : PmmMap) × (out ≡ ok (phys, m')) × BlockOf m phys m')
    ⊎ (out ≡ panic out_of_memory)

-- A block of a map with the same types is one of the map.
BlockOf-same :
    (m m₁ : PmmMap) (phys : ℕ) (m' : PmmMap)
    → ((a : ℕ) → type_of m₁ a ≡ type_of m a)
    → BlockOf m₁ phys m'
    → BlockOf m phys m'
BlockOf-same m m₁ phys m' same b = record {
  bytes = b.bytes;
  room = b.room;
  aligned = b.aligned;
  was_free = λ a i. sym (same a) ∙ b.was_free a i;
  valid = b.valid;
  painted = λ a. b.painted a ∙ ap (paint (in_range phys b.bytes a) allocated) (same a);
}

-- The map behind a round that freed its block again.
record Again (fuel entries : ℕ) (m : PmmMap) (m'' : PmmMap) : Type 0 where
  goes_on : memory_map_block (suc fuel) entries m ≡ memory_map_block fuel (entries * 2) m''
  valid : IsValid m''
  same : (a : ℕ) → type_of m'' a ≡ type_of m a
  grown : m''.size ≤ m.size + 4
  too_small : entries < m.size + 2

again :
    (fuel entries : ℕ) (m : PmmMap) (x : ℕ) (m' : PmmMap)
    → entries ≤ 2 ^ 32
    → m.size + 4 ≤ pmm_map_max_entries
    → Callable (memory_map_pages entries) page m
    → Took (memory_map_pages entries * page) page allocated m x m'
    → pmm_alloc_ext (memory_map_pages entries) page allocated m ≡ ok (x, m')
    → ltb entries m'.size ≡ true
    → (m'' : PmmMap) × Again fuel entries m m''
again fuel entries m x m' small room c k e more =
    let f =
      pmm_free-Painting x (memory_map_pages entries) m' k.valid (omega (arith, k.grown))
        c.some_pages c.fits k.inside in
    (
      f.map,
      record {
        goes_on = round_again fuel entries x m m' f.map e more f.result small;
        valid = f.valid;
        same = λ a. ground (arith, f.painted a, k.painted a, k.was_free a);
        grown = omega (arith, f.grown, k.grown);
        too_small = ground (arith, k.grown);
      },
    )

one_round :
    (fuel entries : ℕ) (m : PmmMap)
    → IsValid m
    → LeavesLastPage m
    → 0 < entries
    → entries ≤ 2 ^ 32
    → m.size + 4 ≤ pmm_map_max_entries
    → Ends m (memory_map_block (suc fuel) entries m) ⊎ ((m'' : PmmMap) × Again fuel entries m m'')
one_round fuel entries m v low pos small room =
    let pages = memory_map_pages entries in
    let p = pages_lem entries pos small in
    let c = Callable-memory_map_pages entries m v low (omega arith) pos small in
    elim (pmm_alloc_ext_lem pages page allocated m v c.room c.some_pages c.fits c.some_align
      c.low) [
        | inr (stuck, _) ↦ inl (inr (round_stuck fuel entries m stuck))
        | inl a ↦
            let m' = a.painting.map in
            let k = pmm_alloc_ext-Took pages page allocated m a.address m' c a.result in
            elim (Bool-cases (ltb entries m'.size)) [
              | inl more ↦ inr (again fuel entries m a.address m' small room c k a.result more)
              | inr enough ↦ inl (
                  inl (
                    a.address,
                    m',
                    round_fits fuel entries a.address m m' a.result enough,
                    record {
                      bytes = pages * page;
                      room = ground (arith, p);
                      aligned = k.aligned;
                      was_free = k.was_free;
                      valid = k.valid;
                      painted = k.painted;
                    },
                  ))
            ]
      ]

Ends-Again :
    (fuel entries : ℕ) (m m'' : PmmMap)
    → Again fuel entries m m''
    → Ends m'' (memory_map_block fuel (entries * 2) m'')
    → Ends m (memory_map_block (suc fuel) entries m)
Ends-Again fuel entries m m'' g (inl (phys, m', e, b)) =
    inl (phys, m', g.goes_on ∙ e, BlockOf-same m m'' phys m' g.same b)
Ends-Again fuel entries m m'' g (inr stuck) = inr (g.goes_on ∙ stuck)

retry :
    (fuel entries : ℕ) (m : PmmMap)
    → IsValid m
    → LeavesLastPage m
    → 0 < entries
    → doubled fuel entries ≤ 2 ^ 32
    → m.size + 4 * suc fuel ≤ pmm_map_max_entries
    → m.size + 4 * fuel + 2 ≤ doubled fuel entries
    → Ends m (memory_map_block (suc fuel) entries m)
retry zero entries m v low pos bounded room grows =
    elim (one_round zero entries m v low pos bounded (omega arith)) [
      | inl ends ↦ ends
      | inr (m'', g) ↦ absurd (omega (arith, g.too_small))
    ]
retry (suc fuel) entries m v low pos bounded room grows =
    let small : entries ≤ 2 ^ 32 = omega (arith, doubled-ge (suc fuel) entries) in
    elim (one_round (suc fuel) entries m v low pos small (omega arith)) [
      | inl ends ↦ ends
      | inr (m'', g) ↦ Ends-Again (suc fuel) entries m m'' g (
          retry fuel (entries * 2) m'' g.valid (λ a above. g.same a ∙ low a above) (omega arith)
            bounded (omega (arith, g.grown)) (omega (arith, g.grown)))
    ]

-- The loop that allocates the memory map block, of a valid map that is not empty, leaves the last page
-- of the address space and has 24 free slots: it ends within six rounds, with a block in which all
-- entries of the map fit that there then are, or it panics with no memory left.
pub memory_map_block_lem :
    (m : PmmMap)
    → IsValid m
    → LeavesLastPage m
    → 0 < m.size
    → m.size + 24 ≤ pmm_map_max_entries
    → ((phys : ℕ) × (m' : PmmMap) × (memory_map_block 6 m.size m ≡ ok (phys, m'))
        × BlockOf m phys m')
      ⊎ (memory_map_block 6 m.size m ≡ panic out_of_memory)
memory_map_block_lem m v low pos room =
    retry 5 m.size m v low pos (omega arith) (omega arith) (omega arith)
