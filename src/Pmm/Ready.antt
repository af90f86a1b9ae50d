-- ===== src/Pmm/Ready.antt =====
-- The state of the loop of `pmm_map_set` (pre_kernel/src/memory/pmm.c) between two rounds, and the
-- rounds that keep it.
use lunar_prekernel.Base.{
  ℕ, suc, ◌+◌, ◌≤◌, ◌<◌, ◌≡◌, subst, ◌∙◌, sym, ◌⊎◌, inl, inr, Bool, true, false, ◌||◌, List, [],
  ◌∷◌, ◌++◌, append_assoc, max, arith, length, length-append, ltb, Outcome, u64_mod, All,
  All-append, Bool-cases,
}
use lunar_prekernel.Pmm.{MapType, Entry, PmmMap, rank, place, pmm_map_max_entries}
use lunar_prekernel.Pmm.Slots.{holding, last_of, length-middle}
use lunar_prekernel.Pmm.Spans.{
  entry_end, in_range, type_at, Ordered, top, top-append, Below, Below_weaken, paint,
  Ordered-prefix, Ordered-suffix,
}
use lunar_prekernel.Pmm.Place.{Gap, Written, place-Written}
use lunar_prekernel.Pmm.Apart.{Apart, Edge, split-Apart}
use lunar_prekernel.Pmm.Cut.{Ordered-replace, top_replace, Ordered-remove, top_remove, last_of_base}

-- The loop has passed `done`, which lies apart from the range, and has `todo` before it.
pub record Ready (b n : ℕ) (done todo stale : List Entry) : Type 0 where
  pub ordered : Ordered 0 (done ++ todo)
  pub passed : All (Apart b n) done
  pub behind : Below (max (top (done ++ todo)) (b + n)) stale
  pub slots : length (done ++ todo) + length stale ≡ pmm_map_max_entries
  pub room : length (done ++ todo) + 2 ≤ pmm_map_max_entries

-- The range outranks the entry or is forced.
abbrev pub Overrides : MapType → Bool → Entry → Type 0
Overrides t force e = (ltb (rank e.type) (rank t) || force) ≡ true

-- The entry lies apart from the range, or is overridden and shares no edge that the loop overlooks.
abbrev pub Yields : MapType → Bool → ℕ → ℕ → Entry → Type 0
Yields t force b n e = Apart b n e ⊎ (Overrides t force e × (¬ (Edge b n e)))

-- What is written over a map is so over each that differs from it in the range alone.
pub repaint :
    (j k : ℕ) (t : MapType) (b n : ℕ) (old' old : List Entry) {out : Outcome PmmMap}
    → ((a : ℕ) → in_range b n a ≡ false → type_at old' a ≡ type_at old a)
    → length old' + j ≤ length old + k
    → Written j t b n old' out
    → Written k t b n old out
repaint j k t b n old' old same small w = record {
  live = w.live;
  stale = w.stale;
  result = w.result;
  spans = record {
    ordered = w.spans.ordered;
    painted = λ a. w.spans.painted a ∙ repainted a;
    inside = w.spans.inside;
    behind = w.spans.behind;
  };
  slots = w.slots;
  grown = omega (arith, w.grown);
}
  where
    repainted :
        (a : ℕ)
        → paint (in_range b n a) t (type_at old' a) ≡ paint (in_range b n a) t (type_at old a)
    repainted a = elim (Bool-cases (in_range b n a)) [ inl e ↦ rw e | inr e ↦ rw (same a e) ]

module _ (b n : ℕ) (done : List Entry) (e : Entry) (todo stale : List Entry)
    (r : Ready b n done (e ∷ todo) stale) where
  -- The entry cut down to a part apart from the range, and passed.
  pub Ready-cut :
      (f : Entry)
      → e.base ≤ f.base
      → 0 < f.length
      → entry_end f ≤ entry_end e
      → Apart b n f
      → entry_end e ≤ max (entry_end f) (b + n)
      → Ready b n (done ++ (f ∷ [])) todo stale
  Ready-cut f start pos stops apart reach =
      let moved : done ++ (f ∷ []) ++ todo ≡ done ++ (f ∷ todo) = append_assoc done (f ∷ []) todo in
      let same : length (done ++ (f ∷ todo)) ≡ length (done ++ (e ∷ todo)) =
        length-middle done f e todo in
      record {
        ordered = rw moved (Ordered-replace e f todo 0 done r.ordered start pos stops);
        passed = All-append (Apart b n) done (f ∷ []) r.passed (apart, tt);
        behind =
            rw moved (Below_weaken _ _ stale (top_replace e f todo done (b + n) reach) r.behind);
        slots = rw (moved, same) r.slots;
        room = rw (moved, same) r.room;
      }

  pub Ready-drop : entry_end e ≤ b + n → Ready b n done todo (last_of e todo ∷ stale)
  Ready-drop covered =
      let size : length (done ++ (e ∷ todo)) ≡ suc (length (done ++ todo)) =
        omega (arith, length-append done (e ∷ todo), length-append done todo) in
      record {
        ordered = Ordered-remove e todo 0 done r.ordered;
        passed = r.passed;
        behind = (
          omega (
            arith,
            last_of_base _ e todo (Ordered-suffix 0 done (e ∷ todo) r.ordered),
            top-append done todo,
          ),
          Below_weaken _ _ stale (top_remove e todo done (b + n) covered) r.behind,
        );
        slots = omega (arith, r.slots);
        room = omega (arith, r.room);
      }

-- `place` in a map that the range lies apart from.
pub place_apart :
    (t : MapType) (b n : ℕ) (live stale : List Entry)
    → 0 < n
    → b + n < u64_mod
    → Ordered 0 live
    → All (Apart b n) live
    → Below (max (top live) (b + n)) stale
    → length live + length stale ≡ pmm_map_max_entries
    → length live < pmm_map_max_entries
    → Written 1 t b n live (place t b n (holding live stale))
place_apart t b n live stale pos fits o apart behind slots room =
    let (pre, post, same, high, after) = split-Apart 0 b n live (omega arith) o apart in
    let gap : Gap b n pre post stale = record {
      before = Ordered-prefix 0 pre post (subst (Ordered 0) same o);
      above = high;
      after = after;
      behind = subst (λ l. Below (max (top l) (b + n)) stale) same behind;
      slots = subst (λ l. length l + length stale ≡ pmm_map_max_entries) same slots;
    } in
    subst (λ l. Written 1 t b n l (place t b n (holding l stale))) (sym same)
      (place-Written t b n pos fits pre post stale gap
        (subst (λ l. length l < pmm_map_max_entries) same room))
