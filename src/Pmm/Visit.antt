-- ===== src/Pmm/Visit.antt =====
-- One round of the loop of `pmm_map_set` (pre_kernel/src/memory/pmm.c) that may override the entry,
-- by how the entry lies to the range.
use lunar_prekernel.Base.{
  ℕ, ◌+◌, ◌-◌, ◌≤◌, ◌<◌, ◌≡◌, ap, ◌∙◌, ◌⊎◌, inl, inr, Bool, true, false, ◌||◌, ◌&&◌, ◌≢◌, List, ◌∷◌,
  ◌++◌, arith, length, ltb, ok, add64, sub64, add64-eq-add, sub64-eq-sub, u64_mod,
}
use lunar_prekernel.Pmm.{
  load, MapType, Entry, PmmMap, Round, next, split, rank, visit, cut_start, cut_end, settle,
  drop_entry, pmm_map_max_entries,
}
use lunar_prekernel.Pmm.Slots.{holding, load-holding, store-holding, map_delete-holding, last_of}
use lunar_prekernel.Pmm.Spans.{entry_end}

abbrev pub round : ℕ → ℕ → ℕ → PmmMap → Round
round i b n m = record { index = i; base = b; length = n; map = m }

-- The tests at the end of a round, at an entry that neither lies strictly in the range nor equals it.
settle_pass :
    (over : Bool) (slot : ℕ) (r : Round) (e : Entry)
    → load r.map slot ≡ ok e
    → r.base + r.length < u64_mod
    → entry_end e < u64_mod
    → (e.base ≤ r.base) ⊎ (r.base + r.length ≤ entry_end e)
    → (r.base ≢ e.base) ⊎ (r.length ≢ e.length)
    → settle over slot r ≡ ok (next r)
unfolding settle
settle_pass over slot r e at fits ends apart differs =
    rw (at, add64-eq-add r.base r.length fits, add64-eq-add e.base e.length ends) (ground arith)

settle_drop :
    (slot : ℕ) (r : Round) (e : Entry)
    → load r.map slot ≡ ok e
    → r.base + r.length < u64_mod
    → entry_end e < u64_mod
    → ((r.base < e.base) × (entry_end e < r.base + r.length))
      ⊎ ((r.base ≡ e.base) × (r.length ≡ e.length))
    → settle true slot r ≡ ok (next (drop_entry r))
unfolding settle
settle_drop slot r e at fits ends covered =
    rw (at, add64-eq-add r.base r.length fits, add64-eq-add e.base e.length ends) (ground arith)

module _ (t : MapType) (force : Bool) (b n : ℕ) (pre : List Entry) (e : Entry)
    (post stale : List Entry) (pos : 0 < n) (fits : b + n < u64_mod) (some_bytes : 0 < e.length)
    (ends : entry_end e < u64_mod) (room : length (pre ++ (e ∷ post)) ≤ pmm_map_max_entries) where
  abbrev here : Round
  here = round (length pre) b n (holding (pre ++ (e ∷ post)) stale)

  at_here : load (holding (pre ++ (e ∷ post)) stale) (length pre) ≡ ok e
  at_here = load-holding pre e post stale

  pub visit_disjoint : (entry_end e ≤ b) ⊎ (b + n ≤ e.base) → visit t force here ≡ ok (next here)
  unfolding visit
  visit_disjoint apart =
      rw (at_here, add64-eq-add b n fits, add64-eq-add e.base e.length ends, starts, stops)
        (settle_pass _ (length pre) here e at_here fits ends (ground arith) (inl (omega arith)))
    where
      starts : ltb e.base b && ltb b (entry_end e) ≡ false
      starts = ground arith

      stops : ltb e.base (b + n) && ltb (b + n) (entry_end e) ≡ false
      stops = ground arith

  -- The entry shares one end with the range, which reaches over its other end.
  pub visit_edge :
      ((b ≡ e.base) × (entry_end e < b + n)) ⊎ ((b < e.base) × (entry_end e ≡ b + n))
      → visit t force here ≡ ok (next here)
  unfolding visit
  visit_edge edge =
      rw (at_here, add64-eq-add b n fits, add64-eq-add e.base e.length ends, starts, stops)
        (settle_pass _ (length pre) here e at_here fits ends (ground arith) (ground arith))
    where
      starts : ltb e.base b && ltb b (entry_end e) ≡ false
      starts = ground arith

      stops : ltb e.base (b + n) && ltb (b + n) (entry_end e) ≡ false
      stops = ground arith

  module _ (over : (ltb (rank e.type) (rank t) || force) ≡ true) where
    -- What the entry keeps in front of the range, and behind it.
    abbrev pub front : Entry
    front = record e { length = b - e.base }

    abbrev pub back : Entry
    back = record e { base = b + n; length = entry_end e - (b + n) }

    cut_start_lem :
        e.base < b
        → b < entry_end e
        → cut_start true (length pre) here
          ≡ ok (round (length pre) b n (holding (pre ++ (front ∷ post)) stale))
    unfolding cut_start
    cut_start_lem lo hi =
        let amount : sub64 (entry_end e) b ≡ entry_end e - b =
          sub64-eq-sub (entry_end e) b (omega arith) ends in
        let left : sub64 e.length (entry_end e - b) ≡ b - e.base =
          sub64-eq-sub e.length (entry_end e - b) (omega arith) (omega arith) ∙ omega arith in
        rw (at_here, add64-eq-add e.base e.length ends, amount, left)
          (rw (store-holding pre e post stale front) (ground arith))

    -- The range starts in the entry and reaches to its end or further: the front is kept.
    pub visit-front :
        e.base < b
        → b < entry_end e
        → entry_end e ≤ b + n
        → visit t force here
          ≡ ok (next (round (length pre) b n (holding (pre ++ (front ∷ post)) stale)))
    unfolding visit
    visit-front lo hi reaches =
        rw
          (
            at_here,
            add64-eq-add b n fits,
            add64-eq-add e.base e.length ends,
            over,
            starts,
            stops,
            cut_start_lem lo hi,
          )
          (settle_pass _ (length pre)
            (round (length pre) b n (holding (pre ++ (front ∷ post)) stale)) front
            (load-holding pre front post stale) fits (omega arith) (inl (omega arith))
            (inl (omega arith)))
      where
        starts : ltb e.base b && ltb b (entry_end e) ≡ true
        starts = ground arith

        stops : ltb e.base (b + n) && ltb (b + n) (entry_end e) ≡ false
        stops = ground arith

    cut_end_lem :
        e.base < b + n
        → b + n < entry_end e
        → cut_end true (length pre) here
          ≡ ok (round (length pre) b n (holding (pre ++ (back ∷ post)) stale))
    unfolding cut_end
    cut_end_lem lo hi =
        let amount : sub64 (b + n) e.base ≡ b + n - e.base =
          sub64-eq-sub (b + n) e.base (omega arith) fits in
        let left : sub64 e.length (b + n - e.base) ≡ entry_end e - (b + n) =
          sub64-eq-sub e.length (b + n - e.base) (omega arith) (omega arith) ∙ omega arith in
        let base : add64 e.base (b + n - e.base) ≡ b + n =
          add64-eq-add e.base (b + n - e.base) (omega arith) ∙ omega arith in
        rw (at_here, add64-eq-add b n fits, amount, left, base)
          (rw (store-holding pre e post stale back) (ground arith))

    -- The range starts no later than the entry and ends in it: the part behind the range is kept.
    pub visit-back :
        b ≤ e.base
        → e.base < b + n
        → b + n < entry_end e
        → visit t force here
          ≡ ok (next (round (length pre) b n (holding (pre ++ (back ∷ post)) stale)))
    unfolding visit
    visit-back early lo hi =
        rw
          (
            at_here,
            add64-eq-add b n fits,
            add64-eq-add e.base e.length ends,
            over,
            starts,
            stops,
            cut_end_lem lo hi,
          )
          (settle_pass _ (length pre)
            (round (length pre) b n (holding (pre ++ (back ∷ post)) stale)) back
            (load-holding pre back post stale) fits (omega arith) (inr (omega arith))
            (inl (omega arith)))
      where
        starts : ltb e.base b && ltb b (entry_end e) ≡ false
        starts = ground arith

        stops : ltb e.base (b + n) && ltb (b + n) (entry_end e) ≡ true
        stops = ground arith

    -- The range lies strictly in the entry: the front is kept, and a call for the back follows.
    pub visit_split :
        e.base < b
        → b + n < entry_end e
        → visit t force here
          ≡ ok (
              split
                (b + n)
                (entry_end e - (b + n))
                e.type
                (round (length pre) b n (holding (pre ++ (front ∷ post)) stale)))
    unfolding visit
    visit_split lo hi =
        let rest : sub64 (entry_end e) (b + n) ≡ entry_end e - (b + n) =
          sub64-eq-sub (entry_end e) (b + n) (omega arith) ends in
        let kept : sub64 b e.base ≡ b - e.base =
          sub64-eq-sub b e.base (omega arith) (omega arith) in
        rw
          (
            at_here,
            add64-eq-add b n fits,
            add64-eq-add e.base e.length ends,
            over,
            starts,
            stops,
            rest,
            kept,
          )
          (rw (store-holding pre e post stale front))
      where
        starts : ltb e.base b && ltb b (entry_end e) ≡ true
        starts = ground arith

        stops : ltb e.base (b + n) && ltb (b + n) (entry_end e) ≡ true
        stops = ground arith

    -- The entry lies strictly in the range, or is the range: it is taken out.
    pub visit_drop :
        ((b < e.base) × (entry_end e < b + n)) ⊎ ((b ≡ e.base) × (n ≡ e.length))
        → visit t force here
          ≡ ok (
              next
                (round (sub64 (length pre) 1) b n (holding (pre ++ post) (last_of e post ∷ stale))))
    unfolding visit
    visit_drop covered =
        rw (at_here, add64-eq-add b n fits, add64-eq-add e.base e.length ends, over, starts, stops)
          (settle_drop (length pre) here e at_here fits ends covered
            ∙ ap (λ r. ok (next r)) dropped)
      where
        starts : ltb e.base b && ltb b (entry_end e) ≡ false
        starts = ground arith

        stops : ltb e.base (b + n) && ltb (b + n) (entry_end e) ≡ false
        stops = ground arith

        dropped :
            drop_entry here
            ≡ round (sub64 (length pre) 1) b n (holding (pre ++ post) (last_of e post ∷ stale))
        dropped = unfold drop_entry in rw (map_delete-holding pre e post stale room)
