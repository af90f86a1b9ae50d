-- ===== src/Pmm/Alloc/Cycle.antt =====
-- Calls of the allocator of pre_kernel/src/memory/pmm.c after one another: freeing what was
-- allocated, and two allocations.
use lunar_prekernel.Base.{
  ℕ, ◌+◌, ◌*◌, ◌%◌, ◌≤◌, ◌<◌, ◌≡◌, ◌≢◌, ap, ◌∙◌, inl, inr, true, false, some, List, [], ◌∷◌, arith,
  u64_mod, All, mul64-eq-mul, Bool-cases, ok,
}
use lunar_prekernel.Pmm.{MapType, free, Entry, PmmMap, pmm_map_max_entries}
use lunar_prekernel.Pmm.Spans.{in_range, Inside, Ordered, entry_end, paint}
use lunar_prekernel.Pmm.Valid.{IsValid, live, type_of, Painting, pmm_map_set-Painting}
use lunar_prekernel.Pmm.Alloc.{page, pmm_alloc_ext, pmm_free}
use lunar_prekernel.Pmm.Alloc.Fit.{Inside-Yields}
use lunar_prekernel.Pmm.Alloc.First.{pmm_alloc_ext_lem}

pub Inside-fits : (lo b n : ℕ) (es : List Entry) → Ordered lo es → Inside b n es → b + n < u64_mod
Inside-fits lo b n [] o h = absurd h
Inside-fits lo b n (e ∷ es) o (inl h) = omega arith
Inside-fits lo b n (e ∷ es) o (inr h) = Inside-fits (entry_end e) b n es o.3 h

-- `pmm_free` of pages that lie in one entry of a valid map with two free slots: they are free, all
-- else has the type that it had, and the map stays valid.
pub pmm_free-Painting :
    (address page_count : ℕ) (m : PmmMap)
    → IsValid m
    → m.size + 2 ≤ pmm_map_max_entries
    → 0 < page_count
    → page_count * page < u64_mod
    → Inside address (page_count * page) (live m)
    → Painting free address (page_count * page) m (pmm_free address page_count m)
unfolding pmm_free
pmm_free-Painting address page_count m v room some_pages fits inside =
    rw (mul64-eq-mul page_count page fits) (
      pmm_map_set-Painting address (page_count * page) free true m v (omega arith)
        (Inside-fits 0 address (page_count * page) (live m) v.ordered inside) room
        (Inside-Yields free 0 address (page_count * page) (live m) v.ordered inside))

-- `n` bytes at the aligned address `x`, all free in `m`, have the type in the valid map `m'`, in
-- which all else is as in `m`; one entry covers them, and there are at most two entries more.
pub record Took (n align : ℕ) (t : MapType) (m : PmmMap) (x : ℕ) (m' : PmmMap) : Type 0 where
  pub aligned : x % align ≡ 0
  pub was_free : (a : ℕ) → in_range x n a ≡ true → type_of m a ≡ some free
  pub valid : IsValid m'
  pub painted : (a : ℕ) → type_of m' a ≡ paint (in_range x n a) t (type_of m a)
  pub inside : Inside x n (live m')
  pub grown : m'.size ≤ m.size + 2

-- What `pmm_alloc_ext` is called with: counts and an alignment that are not 0 and nothing that wraps,
-- in a valid map with two free slots.
pub record Callable (page_count align : ℕ) (m : PmmMap) : Type 0 where
  pub valid : IsValid m
  pub room : m.size + 2 ≤ pmm_map_max_entries
  pub some_pages : 0 < page_count
  pub fits : page_count * page < u64_mod
  pub some_align : 0 < align
  pub low : All (λ (e : Entry). e.base + align ≤ u64_mod) (live m)

-- When `pmm_alloc_ext` returns an address, it has taken the pages there.
pub pmm_alloc_ext-Took :
    (page_count align : ℕ) (t : MapType) (m : PmmMap) (x : ℕ) (m' : PmmMap)
    → Callable page_count align m
    → pmm_alloc_ext page_count align t m ≡ ok (x, m')
    → Took (page_count * page) align t m x m'
pmm_alloc_ext-Took page_count align t m x m' c e =
    elim (pmm_alloc_ext_lem page_count align t m c.valid c.room c.some_pages c.fits c.some_align
      c.low) [
        | inr (stuck, _) ↦ absurd (cc)
        | inl a ↦
            let same_address : a.address ≡ x = cc (a.result) in
            let same_map : a.painting.map ≡ m' = cc (a.result) in
            record {
              aligned = rw same_address at a.aligned;
              was_free = rw same_address at a.was_free;
              valid = rw same_map at a.painting.valid;
              painted = rw (same_address, same_map) at a.painting.painted;
              inside = rw (same_address, same_map) at a.painting.inside;
              grown = rw same_map at a.painting.grown;
            }
      ]

-- What `pmm_alloc_ext` took can be freed, if two more slots are free: no address then has another
-- type than before the allocation, and the map is valid.
pub pmm_free-pmm_alloc_ext :
    (page_count align : ℕ) (t : MapType) (m : PmmMap) (x : ℕ) (m' : PmmMap)
    → Callable page_count align m
    → m.size + 4 ≤ pmm_map_max_entries
    → pmm_alloc_ext page_count align t m ≡ ok (x, m')
    → (m'' : PmmMap) × (pmm_free x page_count m' ≡ ok m'')
      × IsValid m''
      × ((a : ℕ) → type_of m'' a ≡ type_of m a)
pmm_free-pmm_alloc_ext page_count align t m x m' c room e =
    let k = pmm_alloc_ext-Took page_count align t m x m' c e in
    let f =
      pmm_free-Painting x page_count m' k.valid (omega (arith, k.grown)) c.some_pages c.fits
        k.inside in
    (f.map, f.result, f.valid, λ a. ground (arith, f.painted a, k.painted a, k.was_free a))

-- Two allocations after one another share no address, if the first is of a type other than free.
pub pmm_alloc_ext_disjoint :
    (page_count count' align align' : ℕ) (t t' : MapType) (m m₁ m₂ : PmmMap) (x y : ℕ)
    → Callable page_count align m
    → t ≢ free
    → pmm_alloc_ext page_count align t m ≡ ok (x, m₁)
    → Callable count' align' m₁
    → pmm_alloc_ext count' align' t' m₁ ≡ ok (y, m₂)
    → (a : ℕ) → in_range x (page_count * page) a ≡ true
    → in_range y (count' * page) a ≡ false
pmm_alloc_ext_disjoint page_count count' align align' t t' m m₁ m₂ x y c other e c' e' a h =
    let k = pmm_alloc_ext-Took page_count align t m x m₁ c e in
    let k' = pmm_alloc_ext-Took count' align' t' m₁ y m₂ c' e' in
    elim (Bool-cases (in_range y (count' * page) a)) [
      | inr apart ↦ apart
      | inl both ↦
          let taken : type_of m₁ a ≡ some t = k.painted a ∙ (ap (λ b. paint b t (type_of m a)) h) in
          absurd (other (cc (taken, k'.was_free a both)))
    ]
