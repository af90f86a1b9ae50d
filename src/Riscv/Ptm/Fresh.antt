-- ===== src/Riscv/Ptm/Fresh.antt =====
-- A new page table from the allocator, for pre_kernel/src/arch/riscv64/ptm.c: pages that were free.
use lunar_prekernel.Base.{
  ℕ, suc, ◌+◌, ◌*◌, ◌%◌, ◌^◌, ◌<◌, ◌≤◌, ◌≡◌, ◌≢◌, ◌∙◌, true, false, none, some, arith, ok, bind_ok,
  leb, ltb, ◌&&◌, if◌then◌else◌, Bool, ap, Option, inl, inr, ◌⊎◌, refl, panic, out_of_memory, ◌>>=◌,
}
use lunar_prekernel.Pmm.{PmmMap, pmm_map_max_entries, free, allocated, MapType}
use lunar_prekernel.Pmm.Spans.{in_range, paint}
use lunar_prekernel.Pmm.Valid.{IsValid, type_of, live}
use lunar_prekernel.Pmm.Alloc.{page, pmm_alloc}
use lunar_prekernel.Pmm.Alloc.Cycle.{Took, pmm_alloc_ext-Took}
use native.Mathlib.Decide.{dec_lt}
use lunar_prekernel.Init.Retry.{low_entries}
use lunar_prekernel.Ptm.{Machine, new_table}
use lunar_prekernel.Pmm.Alloc.First.{pmm_alloc_ext_lem}

-- A valid map that has slots for some more allocations and only addresses that an entry can hold
pub record IsReady (n : ℕ) (m : PmmMap) : Type 0 where
  pub valid : IsValid m
  pub room : m.size + 2 * n ≤ pmm_map_max_entries
  pub low : (a : ℕ) → 2 ^ 56 ≤ a → type_of m a ≡ none

-- A cleared page that was free
pub record Cleared (n : ℕ) (s : Machine) (table : ℕ) (s' : Machine) : Type 0 where
  pub aligned : table % page ≡ 0
  pub small : table < 2 ^ 56
  pub was_free : (a : ℕ) → in_range table page a ≡ true → type_of s.pmm a ≡ some free
  pub taken : (a : ℕ) → in_range table page a ≡ true → type_of s'.pmm a ≢ some free
  pub others : (a : ℕ) → type_of s.pmm a ≢ some free → type_of s'.pmm a ≢ some free
  pub ready : IsReady n s'.pmm
  pub zero_words : (x : ℕ) → in_range table page x ≡ true → s'.words x ≡ 0
  pub other_words : (x : ℕ) → in_range table page x ≡ false → s'.words x ≡ s.words x

-- `pmm_alloc(1)` in such a map
one_page :
    (n : ℕ) (m m' : PmmMap) (table : ℕ)
    → IsReady (suc n) m
    → pmm_alloc 1 m ≡ ok (table, m')
    → Took page page allocated m table m'
unfolding pmm_alloc
one_page n m m' table r h =
    pmm_alloc_ext-Took 1 page allocated m table m'
      (record {
        valid = r.valid;
        room = omega (arith, r.room);
        some_pages = omega arith;
        fits = omega arith;
        some_align = omega arith;
        low = low_entries 0 (live m) r.valid.ordered (λ a above. r.low a (omega arith));
      })
      h

-- Painting a free range keeps what is not free, and what no entry covers.
painted_taken :
    (c : Bool) (o : Option MapType) (t : Option MapType)
    → t ≡ paint c allocated o
    → (c ≡ true) ⊎ (o ≢ some free)
    → t ≢ some free
painted_taken true o t e h f = absurd (cc)
painted_taken false o t e (inl h) f = absurd (cc)
painted_taken false o t e (inr h) f = h (cc)

painted_none :
    (c : Bool) (o : Option MapType)
    → (c ≡ true → o ≡ some free)
    → o ≡ none
    → paint c allocated o ≡ none
painted_none true o h e = let hit = h refl in absurd (cc)
painted_none false o h e = e

-- `new_table` clears a page that was free.
pub new_table-Cleared :
    (n : ℕ) (s s' : Machine) (table : ℕ)
    → IsReady (suc n) s.pmm
    → new_table s ≡ ok (table, s')
    → Cleared n s table s'
unfolding new_table
new_table-Cleared n s s' table r h =
    let ((at, pmm), made, last) = bind_ok (pmm_alloc 1 s.pmm) _ (table, s') h in
    let same : at ≡ table = cc last in
    let map_same : s'.pmm ≡ pmm = cc last in
    let words_same : s'.words ≡ (λ x. if leb at x && ltb x (at + page) then 0 else s.words x) =
      cc last in
    let took : Took page page allocated s.pmm table s'.pmm =
      one_page n s.pmm s'.pmm table r (rw (map_same, ← same) made) in
    let word : (x : ℕ) → s'.words x ≡ (if in_range table page x then 0 else s.words x) =
      λ x. ap (λ (f : ℕ → ℕ). f x) words_same ∙ rw same in
    record {
      aligned = took.aligned;
      small = below_lem s.pmm table r.low (took.was_free table (ground arith));
      was_free = took.was_free;
      taken = λ a inside.
          painted_taken (in_range table page a) (type_of s.pmm a) (type_of s'.pmm a)
            (took.painted a) (inl inside);
      others = λ a used.
          painted_taken (in_range table page a) (type_of s.pmm a) (type_of s'.pmm a)
            (took.painted a) (inr used);
      ready = record {
        valid = took.valid;
        room = omega (arith, r.room, took.grown);
        low = λ a above.
            took.painted a
            ∙ painted_none (in_range table page a) (type_of s.pmm a) (took.was_free a)
                (r.low a above);
      };
      zero_words = λ x inside. word x ∙ rw inside;
      other_words = λ x outside. word x ∙ rw outside;
    }
  where
    below_lem :
        (m : PmmMap) (a : ℕ)
        → ((b : ℕ) → 2 ^ 56 ≤ b → type_of m b ≡ none)
        → type_of m a ≡ some free
        → a < 2 ^ 56
    below_lem m a low hit = elim (dec_lt a (2 ^ 56)) [
      | yes p ↦ p
      | no p ↦ let miss = low a (omega arith) in absurd (cc)
    ]

-- The allocator gives a page, or no memory is left.
pub one_page_ends :
    (n : ℕ) (m : PmmMap)
    → IsReady (suc n) m
    → ((r : ℕ × PmmMap) × (pmm_alloc 1 m ≡ ok r)) ⊎ (pmm_alloc 1 m ≡ panic out_of_memory)
unfolding pmm_alloc
one_page_ends n m r =
    elim (pmm_alloc_ext_lem 1 page allocated m r.valid (omega (arith, r.room)) (omega arith)
      (omega arith) (omega arith)
      (low_entries 0 (live m) r.valid.ordered (λ a above. r.low a (omega arith)))) [
        | inl a ↦ inl ((a.address, a.painting.map), a.result)
        | inr e ↦ inr e.0
      ]

-- `new_table` gives a table, or no memory is left.
pub new_table_ends :
    (n : ℕ) (s : Machine)
    → IsReady (suc n) s.pmm
    → ((r : ℕ × Machine) × (new_table s ≡ ok r)) ⊎ (new_table s ≡ panic out_of_memory)
unfolding new_table
new_table_ends n s r = elim (one_page_ends n s.pmm r) [
  | inl ((at, pmm), made) ↦ inl (
    (at, record { words = λ x. if leb at x && ltb x (at + page) then 0 else s.words x; pmm = pmm }),
    rw (made, ◌>>=◌),
  )
  | inr empty ↦ inr (rw (empty, ◌>>=◌))
]
