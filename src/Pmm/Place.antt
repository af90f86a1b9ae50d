-- ===== src/Pmm/Place.antt =====
-- The part of `pmm_map_set` (pre_kernel/src/memory/pmm.c) behind its loop: where a range that no
-- entry overlaps goes, by a merge with the entry before it, with the one behind it, or by an insert.
use lunar_prekernel.Base.{
  ℕ, suc, ◌+◌, ◌≤◌, ◌<◌, ◌≡◌, refl, subst, ap, ◌∙◌, sym, List, [], ◌∷◌, ◌++◌, append_assoc, arith,
  length, length-append, inl, inr, ok, add64-eq-add, u64_mod, snoc_cases, max, append-nil, Outcome,
  ◌==◌, false, some, none,
}
use lunar_prekernel.Pmm.{
  MapType, place_at, Entry, PmmMap, map_insert, pmm_map_max_entries, find_slot, extend_before,
  extend_after, place,
}
use lunar_prekernel.Pmm.Slots.{holding, length-middle, map_insert-holding}
use lunar_prekernel.Pmm.Paint.{Painted, ranged, inserted-Painted, join-Painted}
use lunar_prekernel.Pmm.Spans.{entry_end, Ordered, bound, top, Below, bound-append, top-bound}
use lunar_prekernel.Pmm.Merge.{
  StartsAfter, find_slot_run, extended, before_lem, lowered, after_lem, after_stale,
}

-- The outcome of writing a range into the map `old`: the range is painted over it, in the same
-- array, with at most `k` entries more.
pub record Written (k : ℕ) (t : MapType) (b n : ℕ) (old : List Entry) (out : Outcome PmmMap)
    : Type 0 where
  pub live : List Entry
  pub stale : List Entry
  pub result : out ≡ ok (holding live stale)
  pub spans : Painted t b n old live stale
  pub slots : length live + length stale ≡ pmm_map_max_entries
  pub grown : length live ≤ length old + k

module _ (t : MapType) (b n : ℕ) (m : PmmMap) (i : ℕ) where
  place_at_before :
      {m' : PmmMap} → extend_before m i b n t ≡ ok (some m') → place_at t b n m i ≡ ok m'
  unfolding place_at
  place_at_before e = rw e

  place_at_after :
      {m' : PmmMap}
      → extend_before m i b n t ≡ ok none
      → extend_after m i b n t ≡ ok (some m')
      → place_at t b n m i ≡ ok m'
  unfolding place_at
  place_at_after e f = rw (e, f)

  pub place_at_insert :
      extend_before m i b n t ≡ ok none
      → extend_after m i b n t ≡ ok none
      → place_at t b n m i ≡ map_insert m i (ranged b n t)
  unfolding place_at
  place_at_insert e f = rw (e, f)

-- A range between the entries `pre` and `post`, over a map with a free slot.
module _ (t : MapType) (b n : ℕ) (pre post : List Entry) (s : Entry) (stale : List Entry)
    (before : Ordered 0 pre) (above : bound 0 pre ≤ b) (pos : 0 < n) (fits : b + n < u64_mod)
    (after : Ordered (b + n) post) (behind : Below (max (top (pre ++ post)) (b + n)) (s ∷ stale))
    (slots : length (pre ++ post) + length (s ∷ stale) ≡ pmm_map_max_entries) where
  abbrev m : PmmMap
  m = holding (pre ++ post) (s ∷ stale)

  -- Behind the last entry the slot that is read is stale, and starts below the range's end.
  stale_apart : post ≡ [] → s.base < b + n
  stale_apart e =
      let low : max (top (pre ++ post)) (b + n) ≤ b + n =
        rw (e, append-nil) (omega (arith, top-bound 0 pre before)) in
      omega arith

  insert_Written :
      extend_before m (length pre) b n t ≡ ok none
      → extend_after m (length pre) b n t ≡ ok none
      → Written 1 t b n (pre ++ post) (place_at t b n m (length pre))
  insert_Written e f = record {
    live = pre ++ (ranged b n t ∷ post);
    stale = stale;
    result =
        place_at_insert t b n m (length pre) e f
        ∙ map_insert-holding pre post s (ranged b n t) stale (omega arith);
    spans = inserted-Painted t b n pre post stale before above pos fits after behind.1;
    slots = omega (arith, length-append pre post, length-append pre (ranged b n t ∷ post));
    grown = omega (arith, length-append pre post, length-append pre (ranged b n t ∷ post));
  }

-- A gap in an ordered map behind which there is a free slot: what `place` is called in.
pub record Gap (b n : ℕ) (pre post stale : List Entry) : Type 0 where
  pub before : Ordered 0 pre
  pub above : bound 0 pre ≤ b
  pub after : Ordered (b + n) post
  pub behind : Below (max (top (pre ++ post)) (b + n)) stale
  pub slots : length (pre ++ post) + length stale ≡ pmm_map_max_entries

module _ (t : MapType) (b n : ℕ) (pos : 0 < n) (fits : b + n < u64_mod) where
  -- Written in front of an entry of its type, the range makes up one entry with it.
  lowered-Painted :
      (pre : List Entry) (q : Entry) (post stale : List Entry)
      → Gap b n pre (q ∷ post) stale
      → q.base ≡ b + n
      → q.type ≡ t
      → Painted t b n (pre ++ (q ∷ post)) (pre ++ (lowered t b n fits q ∷ post)) stale
  unfolding lowered
  lowered-Painted pre q post stale g meets agrees =
      join-Painted (ranged b n t) q (lowered t b n fits q) post (omega arith) (sym agrees) refl
        (omega (arith, add64-eq-add q.length n)) refl t b n _ pre stale
        (inserted-Painted t b n pre (q ∷ post) stale g.before g.above pos fits g.after g.behind)

  -- Written behind an entry of its type, the range makes up one entry with it.
  extended-Painted :
      (pre : List Entry) (p : Entry) (post stale : List Entry)
      → Gap b n (pre ++ (p ∷ [])) post stale
      → entry_end p ≡ b
      → p.type ≡ t
      → Painted t b n (pre ++ (p ∷ []) ++ post) (pre ++ (extended t b n fits p ∷ post)) stale
  unfolding extended
  extended-Painted pre p post stale g meets agrees =
      join-Painted p (ranged b n t) (extended t b n fits p) post meets agrees refl
        (omega (arith, add64-eq-add p.length n)) agrees t b n _ pre stale
        (rw (append_assoc pre (p ∷ []) (ranged b n t ∷ post)) at (
          inserted-Painted t b n (pre ++ (p ∷ [])) post stale g.before g.above pos fits g.after
            g.behind))

  after_Written :
      (pre post : List Entry) (s : Entry) (stale : List Entry)
      → Gap b n pre post (s ∷ stale)
      → extend_before (holding (pre ++ post) (s ∷ stale)) (length pre) b n t ≡ ok none
      → Written 1 t b n
          (pre ++ post)
          (place_at t b n (holding (pre ++ post) (s ∷ stale)) (length pre))
  after_Written pre [] s stale g e =
      insert_Written t b n pre [] s stale g.before g.above pos fits g.after g.behind g.slots e (
        rw append-nil (
          after_stale t b n fits pre s stale (
            stale_apart t b n pre [] s stale g.before g.above pos fits g.after g.behind g.slots
              refl)))
  after_Written pre (q ∷ post) s stale g e = elim (after_lem t b n fits pre q post (s ∷ stale)) [
    | inr f ↦
        insert_Written t b n pre (q ∷ post) s stale g.before g.above pos fits g.after g.behind
          g.slots e f
    | inl (meets, agrees, f) ↦ record {
      live = pre ++ (lowered t b n fits q ∷ post);
      stale = s ∷ stale;
      result = place_at_after t b n (holding (pre ++ (q ∷ post)) (s ∷ stale)) (length pre) e f;
      spans = lowered-Painted pre q post (s ∷ stale) g meets agrees;
      slots = omega (arith, g.slots, length-middle pre q (lowered t b n fits q) post);
      grown = omega (arith, length-middle pre q (lowered t b n fits q) post);
    }
  ]

  first_Written :
      (post : List Entry) (s : Entry) (stale : List Entry)
      → Gap b n [] post (s ∷ stale)
      → Written 1 t b n post (place_at t b n (holding post (s ∷ stale)) 0)
  first_Written post s stale g = after_Written [] post s stale g (unfold extend_before in refl)

  behind_Written :
      (pre : List Entry) (p : Entry) (post : List Entry) (s : Entry) (stale : List Entry)
      → Gap b n (pre ++ (p ∷ [])) post (s ∷ stale)
      → Written 1 t b n (pre ++ (p ∷ []) ++ post) (
          place_at t b n (holding (pre ++ (p ∷ []) ++ post) (s ∷ stale)) (length (pre ++ (p ∷ []))))
  behind_Written pre p post s stale g =
      let ends : entry_end p ≤ b = rw (← bound-append 0 pre (p ∷ [])) g.above in
      let last : length (pre ++ (p ∷ [])) ≡ suc (length pre) =
        omega (arith, length-append pre (p ∷ [])) in
      let moved : pre ++ (p ∷ []) ++ post ≡ pre ++ (p ∷ post) = append_assoc pre (p ∷ []) post in
      let same : length (pre ++ (p ∷ []) ++ post) ≡ length (pre ++ (extended t b n fits p ∷ post)) =
        ap length moved ∙ length-middle pre p (extended t b n fits p) post in
      elim (before_lem t b n fits pre p post (s ∷ stale) ends) [
        | inr e ↦ after_Written (pre ++ (p ∷ [])) post s stale g (rw (last, moved) e)
        | inl (meets, agrees, e) ↦ record {
          live = pre ++ (extended t b n fits p ∷ post);
          stale = s ∷ stale;
          result =
              place_at_before t b n (holding (pre ++ (p ∷ []) ++ post) (s ∷ stale))
                (length (pre ++ (p ∷ []))) (rw (last, moved) e);
          spans = extended-Painted pre p post (s ∷ stale) g meets agrees;
          slots = omega (arith, g.slots);
          grown = omega arith;
        }
      ]

  -- A range in a gap is merged with a neighbour of its type, or inserted.
  place_at-Written :
      (pre post : List Entry) (s : Entry) (stale : List Entry)
      → Gap b n pre post (s ∷ stale)
      → Written 1 t b n
          (pre ++ post)
          (place_at t b n (holding (pre ++ post) (s ∷ stale)) (length pre))
  place_at-Written pre post s stale g = elim (snoc_cases pre) [
    | inl e ↦ subst Statement (sym e) (first_Written post s stale) g
    | inr (ps, p, e) ↦ subst Statement (sym e) (behind_Written ps p post s stale) g
  ]
    where
      Statement : List Entry → Type 0
      Statement xs =
          Gap b n xs post (s ∷ stale)
          → Written 1 t b n (xs ++ post)
              (place_at t b n (holding (xs ++ post) (s ∷ stale)) (length xs))

  -- What `pmm_map_set` does behind its loop, for a range that lies between the entries: the range
  -- is painted over the map.
  pub place-Written :
      (pre post stale : List Entry)
      → Gap b n pre post stale
      → length (pre ++ post) < pmm_map_max_entries
      → Written 1 t b n (pre ++ post) (place t b n (holding (pre ++ post) stale))
  unfolding place
  place-Written pre post [] g room = absurd (omega (arith, g.slots))
  place-Written pre post (s ∷ stale) g room =
      rw (zero_test, found) (place_at-Written pre post s stale g)
    where
      zero_test : (n == 0) ≡ false
      zero_test = ground arith

      starts : (post : List Entry) → Ordered (b + n) post → StartsAfter b post
      starts [] h = tt
      starts (q ∷ post) h = omega arith

      found :
          find_slot (length (pre ++ post)) (holding (pre ++ post) (s ∷ stale)) b 0 ≡ ok (length pre)
      found =
          find_slot_run 0 b pre post (s ∷ stale) (holding (pre ++ post) (s ∷ stale)) 0 refl g.before
            g.above (starts post g.after)
          ∙ ap ok (omega arith)
