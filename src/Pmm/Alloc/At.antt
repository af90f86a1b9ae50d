-- ===== src/Pmm/Alloc/At.antt =====
-- `pmm_alloc_at` of pre_kernel/src/memory/pmm.c: when it takes the pages at an address, and when it
-- leaves the map alone.
use native.Mathlib.Decide.{dec_lt}
use lunar_prekernel.Base.{
  ℕ, suc, ◌+◌, ◌*◌, ◌≤◌, ◌<◌, ◌≡◌, refl, sym, ap, ◌∙◌, subst, ◌⊎◌, inl, inr, Bool, true, false,
  ◌||◌, some, List, [], ◌∷◌, ◌++◌, append_assoc, length, length-append, drop, get_elem?-of_drop,
  arith, u64_mod, add64-eq-add, mul64-eq-mul, All, ltb, Bool-cases, Outcome, ok, ◌>>=◌,
  take-append-drop,
}
use lunar_prekernel.Pmm.{
  MapType, free, Entry, PmmMap, same_type, load, pmm_map_set, pmm_map_max_entries,
}
use lunar_prekernel.Pmm.Spans.{
  entry_end, in_range, type_at, Ordered, Ordered-suffix, Inside, Inside-append_right,
}
use lunar_prekernel.Pmm.Merge.{same_type-eq}
use lunar_prekernel.Pmm.Valid.{
  IsValid, live, behind, type_of, length-live, Painting, pmm_map_set-Painting,
}
use lunar_prekernel.Pmm.Alloc.{page, alloc_at_from, pmm_alloc_at}
use lunar_prekernel.Pmm.Alloc.Fit.{Inside-Yields}
use lunar_prekernel.Pmm.Alloc.First.{type_at_entry, load_of_get, same_type-free}

-- A free entry covers the range.
abbrev pub Offers : ℕ → ℕ → Entry → Type 0
Offers address n e = (e.type ≡ free) × (e.base ≤ address) × (address + n ≤ entry_end e)

-- The call took the range, which was free: it now has the type.
pub record Reserved (address n : ℕ) (t : MapType) (m : PmmMap) (out : Outcome (Bool × PmmMap))
    : Type 0 where
  pub painting : Painting t address n m (pmm_map_set address n t true m)
  pub result : out ≡ ok (true, painting.map)
  pub was_free : (a : ℕ) → in_range address n a ≡ true → type_of m a ≡ some free

module _ (address n : ℕ) (t : MapType) (m : PmmMap) (some_bytes : 0 < n)
    (fits : address + n < u64_mod) where
  dec_offers : (e : Entry) → Dec (Offers address n e)
  dec_offers e = elim (Bool-cases (same_type e.type free)) [
    | inr other ↦ no (λ h. cc (ap (λ s. same_type s free) h.0, same_type-free))
    | inl free_type ↦ elim (dec_lt address e.base) [
      | yes p ↦ no (λ h. omega arith)
      | no p ↦ elim (dec_lt (entry_end e) (address + n)) [
        | yes q ↦ no (λ h. omega arith)
        | no q ↦ yes (same_type-eq e.type free free_type, omega arith, omega arith)
      ]
    ]
  ]

  module _ (k i : ℕ) (e : Entry) (at : load m i ≡ ok e) (ends : entry_end e < u64_mod) where
    pass_at :
        ¬ (Offers address n e)
        → alloc_at_from (suc k) i address n t m ≡ alloc_at_from k (suc i) address n t m
    unfolding alloc_at_from
    pass_at lacks = elim (Bool-cases (same_type e.type free)) [
      | inr other ↦ rw (at, other)
      | inl free_type ↦
          let uncovered : ¬ ((e.base ≤ address) × (address + n ≤ entry_end e)) =
            λ h. lacks (same_type-eq e.type free free_type, h.0, h.1) in
          let outside : (ltb address e.base || ltb (entry_end e) (address + n)) ≡ true =
            ground arith in
          rw
            (at, free_type, add64-eq-add e.base e.length ends, add64-eq-add address n fits, outside)
    ]

    take_at :
        Offers address n e
        → alloc_at_from (suc k) i address n t m
          ≡ (pmm_map_set address n t true m >>= λ m'. ok (true, m'))
    unfolding alloc_at_from
    take_at offers =
        let free_type : same_type e.type free ≡ true = rw offers.0 same_type-free in
        let covers : (ltb address e.base || ltb (entry_end e) (address + n)) ≡ false =
          ground arith in
        rw (at, free_type, add64-eq-add e.base e.length ends, add64-eq-add address n fits, covers)

  module _ (v : IsValid m) (room : m.size + 2 ≤ pmm_map_max_entries) where
    taken_at :
        (k : ℕ) (done : List Entry) (e : Entry) (todo : List Entry)
        → live m ≡ done ++ (e ∷ todo)
        → load m (length done) ≡ ok e
        → Offers address n e
        → Reserved address n t m (alloc_at_from (suc k) (length done) address n t m)
    taken_at k done e todo whole at offers =
        let o : Ordered 0 (done ++ (e ∷ todo)) = subst (Ordered 0) whole v.ordered in
        let tail = Ordered-suffix 0 done (e ∷ todo) o in
        let inside : Inside address n (live m) =
          subst (Inside address n) (sym whole)
            (Inside-append_right address n done (e ∷ todo) (inl (offers.1, offers.2))) in
        let p =
          pmm_map_set-Painting address n t true m v some_bytes fits room
            (Inside-Yields t 0 address n (live m) v.ordered inside) in
        record {
          painting = p;
          result =
              take_at k (length done) e at tail.2 offers
              ∙ ap (λ o. o >>= λ m'. ok (true, m')) p.result;
          was_free = λ a h.
              ap (λ l. type_at l a) whole
              ∙ type_at_entry done e todo a o (ground arith)
              ∙ ap some offers.0;
        }

    search_at :
        (done todo : List Entry)
        → live m ≡ done ++ todo
        → drop (length done) m.slots ≡ todo ++ behind m
        → Reserved address n t m (alloc_at_from (length todo) (length done) address n t m)
          ⊎ ((alloc_at_from (length todo) (length done) address n t m ≡ ok (false, m))
              × All (λ e. ¬ (Offers address n e)) todo)
    search_at done [] whole d = inr (unfold alloc_at_from in refl, tt)
    search_at done (e ∷ todo) whole d =
        let (got, rest) = get_elem?-of_drop m.slots (length done) e (todo ++ behind m) d in
        let at : load m (length done) ≡ ok e = load_of_get m (length done) e got in
        let o : Ordered 0 (done ++ (e ∷ todo)) = subst (Ordered 0) whole v.ordered in
        let index : suc (length done) ≡ length (done ++ (e ∷ [])) =
          omega (arith, length-append done (e ∷ [])) in
        let later =
          search_at (done ++ (e ∷ [])) todo (whole ∙ sym (append_assoc done (e ∷ []) todo))
            (rw (← index) rest) in
        elim (dec_offers e) [
          | yes has ↦ inl (taken_at (length todo) done e todo whole at has)
          | no lacks ↦
              let passed : alloc_at_from (suc (length todo)) (length done) address n t m
                  ≡ alloc_at_from (length todo) (length (done ++ (e ∷ []))) address n t m =
                pass_at (length todo) (length done) e at (Ordered-suffix 0 done (e ∷ todo) o).2
                  lacks
                ∙ ap (λ i. alloc_at_from (length todo) i address n t m) index in
              elim later [
                | inl a ↦ inl (subst (Reserved address n t m) (sym passed) a)
                | inr (e', all) ↦ inr (passed ∙ e', (lacks, all))
              ]
        ]

-- `pmm_alloc_at` for a page count that is not 0 and a range that does not wrap, in a valid map with
-- two free slots: it returns true, and the range, which was free, is painted with the type; or it
-- returns false and leaves the map as it is, and then no free entry covers the range.
pub pmm_alloc_at_lem :
    (address page_count : ℕ) (t : MapType) (m : PmmMap)
    → IsValid m
    → m.size + 2 ≤ pmm_map_max_entries
    → 0 < page_count
    → address + page_count * page < u64_mod
    → Reserved address (page_count * page) t m (pmm_alloc_at address page_count t m)
      ⊎ ((pmm_alloc_at address page_count t m ≡ ok (false, m))
          × All (λ e. ¬ (Offers address (page_count * page) e)) (live m))
unfolding pmm_alloc_at
pmm_alloc_at_lem address page_count t m v room some_pages fits =
    rw (mul64-eq-mul page_count page (omega arith)) (
      rw (length-live m v) at (
        search_at address (page_count * page) t m (omega arith) fits v room [] (live m) refl
          (sym (take-append-drop m.size m.slots))))
