-- ===== src/Pmm/Edge.antt =====
-- What `pmm_map_set` (pre_kernel/src/memory/pmm.c) does with an entry that shares one end with the
-- range while the range reaches over its other end, and with a map that is full.
use lunar_prekernel.Base.{
  ℕ, ◌+◌, ◌<◌, ◌≡◌, refl, ◌∙◌, inl, Bool, true, false, none, List, [], ◌∷◌, arith, u64_mod, add64,
  add64-eq-add, leb, ◌==◌, ok,
}
use lunar_prekernel.Pmm.{MapType, Entry, PmmMap, pmm_map_set, place, find_slot, extend_before}
use lunar_prekernel.Pmm.Slots.{holding, map_insert-holding}
use lunar_prekernel.Pmm.Paint.{ranged}
use lunar_prekernel.Pmm.Merge.{after_stale}
use lunar_prekernel.Pmm.Place.{place_at_insert}
use lunar_prekernel.Pmm.Visit.{visit_edge}
use lunar_prekernel.Pmm.Sweep.{sweep_next, sweep_end}

module _ (t : MapType) (force : Bool) (e s : Entry) (stale : List Entry) (n : ℕ)
    (some_bytes : 0 < e.length) (longer : e.length < n) (fits : e.base + n < u64_mod)
    (behind : s.base < e.base + n) where
  abbrev alone : PmmMap
  alone = holding (e ∷ []) (s ∷ stale)

  slot_found : find_slot 1 alone e.base 0 ≡ ok 1
  unfolding find_slot
  slot_found = let after : leb e.base e.base ≡ true = ground arith in rw after

  before_none : extend_before alone 1 e.base n t ≡ ok none
  unfolding extend_before
  before_none = rw (add64-eq-add e.base e.length (omega arith)) (ground arith)

  placed : place t e.base n alone ≡ ok (holding (e ∷ ranged e.base n t ∷ []) stale)
  unfolding place
  placed =
      let some_range : (n == 0) ≡ false = ground arith in
      rw (some_range, slot_found)
        (place_at_insert t e.base n alone 1 before_none
            (after_stale t e.base n fits (e ∷ []) s stale behind)
          ∙ map_insert-holding (e ∷ []) [] s (ranged e.base n t) stale (omega arith))

  -- A range from the base of a map's one entry to behind its end leaves the entry as it is, forced
  -- or not, and is put behind it: the two entries overlap.
  pub pmm_map_set_edge :
      pmm_map_set e.base n t force alone ≡ ok (holding (e ∷ ranged e.base n t ∷ []) stale)
  unfolding pmm_map_set add64
  pmm_map_set_edge =
      sweep_next t force e.base n 0 alone _ 0 alone (omega arith) (
        visit_edge t force e.base n [] e [] (s ∷ stale) (omega arith) fits some_bytes (omega arith)
          (omega arith) (inl (refl, omega arith)))
      ∙ sweep_end t force e.base n 1 alone _ (omega arith)
      ∙ placed
