-- ===== src/Pmm/Alloc/First.antt =====
-- The first fit of `pmm_alloc_ext` (pre_kernel/src/memory/pmm.c): what it returns, when it panics,
-- and what it does to the map.
use native.Mathlib.Decide.{dec_lt}
use lunar_prekernel.Base.{
  ℕ, suc, ◌+◌, ◌-◌, ◌*◌, ◌%◌, ◌≤◌, ◌<◌, ◌≡◌, refl, sym, ap, ◌∙◌, subst, ◌⊎◌, inl, inr, true, false,
  some, none, List, [], ◌∷◌, ◌++◌, append_assoc, length, length-append, drop, get_elem?,
  get_elem?-of_drop, arith, u64_mod, sub64, add64-eq-add, sub64-eq-sub, mul64-eq-mul, All, ltb, leb,
  Bool-cases, Outcome, ok, panic, out_of_memory, ◌>>=◌, take-append-drop,
}
use lunar_prekernel.Math.{math_ceil}
use lunar_prekernel.Math.Align.{math_ceil_lem}
use lunar_prekernel.Pmm.{
  MapType, free, Entry, PmmMap, same_type, load, pmm_map_set, pmm_map_max_entries,
}
use lunar_prekernel.Pmm.Spans.{
  entry_end, in_range, type_at, Ordered, Inside, Inside-append_right, Ordered-prefix,
  Ordered-suffix, type_at-append, type_at_above,
}
use lunar_prekernel.Pmm.Merge.{same_type-eq}
use lunar_prekernel.Pmm.Valid.{
  IsValid, live, behind, type_of, length-live, Painting, pmm_map_set-Painting,
}
use lunar_prekernel.Pmm.Alloc.{page, alloc_ext_from, pmm_alloc_ext}
use lunar_prekernel.Pmm.Alloc.Fit.{Inside-Yields}

-- A free entry has room for `n` bytes from its first multiple of the alignment on.
abbrev pub HasRoom : ℕ → ℕ → Entry → Type 0
HasRoom n align e = (e.type ≡ free) × (math_ceil e.base align + n ≤ entry_end e)

-- `n` bytes at an aligned address, all free before, now have the type.
pub record Allocated (n align : ℕ) (t : MapType) (m : PmmMap) (out : Outcome (ℕ × PmmMap))
    : Type 0 where
  pub address : ℕ
  pub painting : Painting t address n m (pmm_map_set address n t true m)
  pub result : out ≡ ok (address, painting.map)
  pub aligned : address % align ≡ 0
  pub was_free : (a : ℕ) → in_range address n a ≡ true → type_of m a ≡ some free

pub same_type-free : same_type free free ≡ true
unfolding same_type
same_type-free = refl

-- Each address of an entry has its type.
pub type_at_entry :
    (done : List Entry) (e : Entry) (rest : List Entry) (a : ℕ)
    → Ordered 0 (done ++ (e ∷ rest))
    → in_range e.base e.length a ≡ true
    → type_at (done ++ (e ∷ rest)) a ≡ some e.type
unfolding type_at
type_at_entry done e rest a o h =
    let tail = Ordered-suffix 0 done (e ∷ rest) o in
    let above : type_at done a ≡ none =
      type_at_above 0 done a (Ordered-prefix 0 done (e ∷ rest) o) (ground arith) in
    ground (arith, type_at-append done (e ∷ rest) a)

pub load_of_get : (m : PmmMap) (i : ℕ) (e : Entry) → get_elem? m.slots i ≡ some e → load m i ≡ ok e
unfolding load
load_of_get m i e h = rw (h, load)

module _ (n align : ℕ) (t : MapType) (m : PmmMap) (pos : 0 < align) (some_bytes : 0 < n) where
  -- A round that passes an entry with no room, and one that takes an entry.
  pass_entry :
      (k i : ℕ) (e : Entry)
      → load m i ≡ ok e
      → e.base + align ≤ u64_mod
      → entry_end e < u64_mod
      → ¬ (HasRoom n align e)
      → alloc_ext_from (suc k) i n align t m ≡ alloc_ext_from k (suc i) n align t m
  unfolding alloc_ext_from
  pass_entry k i e at low ends none_there = elim (Bool-cases (same_type e.type free)) [
    | inr other ↦ rw (at, other)
    | inl free_type ↦ elim (dec_lt (math_ceil e.base align) (entry_end e)) [
      | no p ↦
          let first : leb (entry_end e) (math_ceil e.base align) ≡ true = ground arith in
          rw (at, free_type, add64-eq-add e.base e.length ends, first)
      | yes p ↦
          let ceil = math_ceil_lem e.base align pos low in
          let gap : sub64 (math_ceil e.base align) e.base ≡ math_ceil e.base align - e.base =
            sub64-eq-sub _ _ ceil.0 (omega arith) in
          let left : sub64 e.length (math_ceil e.base align - e.base)
              ≡ e.length - (math_ceil e.base align - e.base) =
            sub64-eq-sub _ _ (omega arith) (omega arith) in
          let first : leb (entry_end e) (math_ceil e.base align) ≡ false = ground arith in
          let short : ¬ (math_ceil e.base align + n ≤ entry_end e) =
            λ h. none_there (same_type-eq e.type free free_type, h) in
          let second : ltb (e.length - (math_ceil e.base align - e.base)) n ≡ true = ground arith in
          rw (at, free_type, add64-eq-add e.base e.length ends, first, gap, left, second)
    ]
  ]

  take_entry :
      (k i : ℕ) (e : Entry)
      → load m i ≡ ok e
      → e.base + align ≤ u64_mod
      → entry_end e < u64_mod
      → HasRoom n align e
      → alloc_ext_from (suc k) i n align t m ≡ (
          pmm_map_set (math_ceil e.base align) n t true m >>= λ m'. ok (math_ceil e.base align, m'))
  unfolding alloc_ext_from
  take_entry k i e at low ends room =
      let ceil = math_ceil_lem e.base align pos low in
      let free_type : same_type e.type free ≡ true = rw room.0 same_type-free in
      let gap : sub64 (math_ceil e.base align) e.base ≡ math_ceil e.base align - e.base =
        sub64-eq-sub _ _ ceil.0 (omega arith) in
      let left : sub64 e.length (math_ceil e.base align - e.base)
          ≡ e.length - (math_ceil e.base align - e.base) =
        sub64-eq-sub _ _ (omega arith) (omega arith) in
      let first : leb (entry_end e) (math_ceil e.base align) ≡ false = ground arith in
      let second : ltb (e.length - (math_ceil e.base align - e.base)) n ≡ false = ground arith in
      rw (at, free_type, add64-eq-add e.base e.length ends, first, gap, left, second)

  -- An entry with room is decided.
  dec_room : (e : Entry) → Dec (HasRoom n align e)
  dec_room e = elim (Bool-cases (same_type e.type free)) [
    | inr other ↦ no (λ h. cc (ap (λ s. same_type s free) h.0, same_type-free))
    | inl free_type ↦ elim (dec_lt (entry_end e) (math_ceil e.base align + n)) [
      | yes p ↦ no (λ h. omega arith)
      | no p ↦ yes (same_type-eq e.type free free_type, omega arith)
    ]
  ]

  module _ (v : IsValid m) (room : m.size + 2 ≤ pmm_map_max_entries)
      (low : All (λ (e : Entry). e.base + align ≤ u64_mod) (live m)) where
    taken :
        (k : ℕ) (done : List Entry) (e : Entry) (todo : List Entry)
        → live m ≡ done ++ (e ∷ todo)
        → load m (length done) ≡ ok e
        → e.base + align ≤ u64_mod
        → HasRoom n align e
        → Allocated n align t m (alloc_ext_from (suc k) (length done) n align t m)
    taken k done e todo whole at low' has =
        let c = math_ceil e.base align in
        let ceil = math_ceil_lem e.base align pos low' in
        let o : Ordered 0 (done ++ (e ∷ todo)) = subst (Ordered 0) whole v.ordered in
        let tail = Ordered-suffix 0 done (e ∷ todo) o in
        let inside : Inside c n (live m) =
          subst (Inside c n) (sym whole)
            (Inside-append_right c n done (e ∷ todo) (inl (ceil.0, has.1))) in
        let p =
          pmm_map_set-Painting c n t true m v some_bytes (omega arith) room
            (Inside-Yields t 0 c n (live m) v.ordered inside) in
        record {
          address = c;
          painting = p;
          result =
              take_entry k (length done) e at low' tail.2 has
              ∙ ap (λ o. o >>= λ m'. ok (c, m')) p.result;
          aligned = ceil.2;
          was_free = λ a h.
              ap (λ l. type_at l a) whole
              ∙ type_at_entry done e todo a o (ground arith)
              ∙ ap some has.0;
        }

    first_fit :
        (done todo : List Entry)
        → live m ≡ done ++ todo
        → drop (length done) m.slots ≡ todo ++ behind m
        → All (λ (e : Entry). e.base + align ≤ u64_mod) todo
        → Allocated n align t m (alloc_ext_from (length todo) (length done) n align t m)
          ⊎ ((alloc_ext_from (length todo) (length done) n align t m ≡ panic out_of_memory)
              × All (λ e. ¬ (HasRoom n align e)) todo)
    first_fit done [] whole d low' = inr (unfold alloc_ext_from in refl, tt)
    first_fit done (e ∷ todo) whole d low' =
        let (got, rest) = get_elem?-of_drop m.slots (length done) e (todo ++ behind m) d in
        let at : load m (length done) ≡ ok e = load_of_get m (length done) e got in
        let o : Ordered 0 (done ++ (e ∷ todo)) = subst (Ordered 0) whole v.ordered in
        let index : suc (length done) ≡ length (done ++ (e ∷ [])) =
          omega (arith, length-append done (e ∷ [])) in
        let later =
          first_fit (done ++ (e ∷ [])) todo (whole ∙ sym (append_assoc done (e ∷ []) todo))
            (rw (← index) rest) low'.1 in
        elim (dec_room e) [
          | yes has ↦ inl (taken (length todo) done e todo whole at low'.0 has)
          | no lacks ↦
              let passed : alloc_ext_from (suc (length todo)) (length done) n align t m
                  ≡ alloc_ext_from (length todo) (length (done ++ (e ∷ []))) n align t m =
                pass_entry (length todo) (length done) e at low'.0
                  (Ordered-suffix 0 done (e ∷ todo) o).2 lacks
                ∙ ap (λ i. alloc_ext_from (length todo) i n align t m) index in
              elim later [
                | inl a ↦ inl (subst (Allocated n align t m) (sym passed) a)
                | inr (e', all) ↦ inr (passed ∙ e', (lacks, all))
              ]
        ]

-- `pmm_alloc_ext` for a page count and an alignment that are not 0, in a valid map with two free
-- slots, where neither the byte count nor the rounding of an entry's base wraps: it takes aligned
-- pages that were all free and paints them with the type, or it panics with no memory left, and then
-- no free entry has room at its first aligned address.
pub pmm_alloc_ext_lem :
    (page_count align : ℕ) (t : MapType) (m : PmmMap)
    → IsValid m
    → m.size + 2 ≤ pmm_map_max_entries
    → 0 < page_count
    → page_count * page < u64_mod
    → 0 < align
    → All (λ (e : Entry). e.base + align ≤ u64_mod) (live m)
    → Allocated (page_count * page) align t m (pmm_alloc_ext page_count align t m)
      ⊎ ((pmm_alloc_ext page_count align t m ≡ panic out_of_memory)
          × All (λ e. ¬ (HasRoom (page_count * page) align e)) (live m))
unfolding pmm_alloc_ext
pmm_alloc_ext_lem page_count align t m v room some_pages fits pos low =
    rw (mul64-eq-mul page_count page fits) (
      rw (length-live m v) at (
        first_fit (page_count * page) align t m pos (omega arith) v room low [] (live m) refl
          (sym (take-append-drop m.size m.slots)) low))
