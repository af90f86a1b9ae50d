-- ===== src/Pmm/Full.antt =====
-- What `pmm_map_set` (pre_kernel/src/memory/pmm.c) does in a map whose array is full.
use lunar_prekernel.Base.{
  ℕ, suc, ◌+◌, ◌<◌, ◌≡◌, refl, sym, ap, ◌∙◌, subst, inl, inr, Bool, false, none, List, [], ◌∷◌,
  ◌++◌, append-nil, arith, length, length-append, length-drop, All, u64_mod, ◌==◌, ok, fault,
  snoc_cases,
}
use lunar_prekernel.Pmm.{
  MapType, Entry, PmmMap, pmm_map_max_entries, set_fuel, pmm_map_set, place, place_at, find_slot,
  extend_before, extend_after, load,
}
use lunar_prekernel.Pmm.Slots.{holding}
use lunar_prekernel.Pmm.Spans.{entry_end, Ordered, bound, bound-append, bound-ge}
use lunar_prekernel.Pmm.Merge.{find_slot_run, before_lem}
use lunar_prekernel.Pmm.Apart.{Apart}
use lunar_prekernel.Pmm.Sweep.{skip_from, Ordered-Fits}
use lunar_prekernel.Pmm.Valid.{IsValid, live, behind, holding-live, length-live}

module _ (t : MapType) (b n : ℕ) (pos : 0 < n) (fits : b + n < u64_mod) where
  All-before : (lo : ℕ) (es : List Entry) → Ordered lo es → bound lo es < b → All (Apart b n) es
  All-before lo [] o h = tt
  All-before lo (e ∷ es) o h =
      (inl (omega (arith, bound-ge (entry_end e) es o.3)), All-before (entry_end e) es o.3 h)

  load_past : (es : List Entry) → load (holding es []) (length es) ≡ fault
  unfolding load
  load_past [] = refl
  load_past (e ∷ es) = load_past es

  -- Slots past the array are read where the range is not merged with the entry before it.
  place_past :
      (es : List Entry)
      → extend_before (holding es []) (length es) b n t ≡ ok none
      → place_at t b n (holding es []) (length es) ≡ fault
  unfolding place_at extend_after
  place_past es e = rw (e, load_past es)

  before_full :
      (es : List Entry)
      → Ordered 0 es
      → bound 0 es < b
      → extend_before (holding es []) (length es) b n t ≡ ok none
  before_full es o h = elim (snoc_cases es) [
    | inl e ↦
        subst (λ l. extend_before (holding l []) (length l) b n t ≡ ok none) (sym e)
          (unfold extend_before in refl)
    | inr (ps, p, e) ↦
        let ends : entry_end p < b =
          subst (λ k. k < b) (bound-append 0 ps (p ∷ [])) (subst (λ l. bound 0 l < b) e h) in
        let last : length (ps ++ (p ∷ [])) ≡ suc (length ps) =
          omega (arith, length-append ps (p ∷ [])) in
        subst (λ l. extend_before (holding l []) (length l) b n t ≡ ok none) (sym e)
          (subst (λ k. extend_before (holding (ps ++ (p ∷ [])) []) k b n t ≡ ok none) (sym last)
            (elim (before_lem t b n fits ps p [] [] (omega arith)) [
              | inl (meets, _, _) ↦ absurd (omega arith)
              | inr none_there ↦ none_there
            ]))
  ]

  place_full :
      (es : List Entry) → Ordered 0 es → bound 0 es < b → place t b n (holding es []) ≡ fault
  unfolding place
  place_full es o h =
      let some_range : (n == 0) ≡ false = ground arith in
      let found : find_slot (length es) (holding es []) b 0 ≡ ok (length es) =
        subst (λ l. find_slot (length l) (holding es []) b 0 ≡ ok (length es)) (append-nil es)
          (find_slot_run 0 b es [] [] (holding es []) 0 (sym (append-nil (es ++ []))) o
              (omega arith) tt
            ∙ ap ok (omega arith)) in
      rw (some_range, found) (place_past es (before_full es o h))

-- In a valid map that is full, a range behind the end of the last entry is not refused by the panic
-- of `map_insert`: the slot behind the array is read before.
pub pmm_map_set_full :
    (b n : ℕ) (t : MapType) (force : Bool) (m : PmmMap)
    → IsValid m
    → m.size ≡ pmm_map_max_entries
    → bound 0 (live m) < b
    → 0 < n
    → b + n < u64_mod
    → pmm_map_set b n t force m ≡ fault
unfolding pmm_map_set
pmm_map_set_full b n t force m v full above pos fits =
    let none_behind : behind m ≡ [] =
      no_elements (behind m) (omega (arith, length-drop m.size m.slots, v.slots)) in
    let same : holding (live m) [] ≡ m =
      ap (holding (live m)) (sym none_behind) ∙ holding-live m v in
    rw same at (
      skip_from t force b n pos fits set_fuel 0 (live m) [] (Ordered-Fits 0 (live m) v.ordered)
        (All-before t b n pos fits 0 (live m) v.ordered above) (omega (arith, length-live m v))
        (omega (arith, length-live m v))
      ∙ place_full t b n pos fits (live m) v.ordered above)
  where
    no_elements : (l : List Entry) → length l ≡ 0 → l ≡ []
    no_elements [] h = refl
    no_elements (e ∷ es) h = absurd (omega arith)
