-- ===== src/Pmm/Override.antt =====
-- `pmm_map_set` (pre_kernel/src/memory/pmm.c) where it may override every entry that the range
-- overlaps: from any round of its loop on, it paints the range over the map.
use lunar_prekernel.Base.{
  ℕ, zero, suc, ◌+◌, ◌-◌, ◌*◌, ◌≤◌, ◌<◌, ◌≡◌, refl, ap, ◌∙◌, sym, ◌⊎◌, inl, inr, Bool, true, false,
  List, [], ◌∷◌, ◌++◌, append_assoc, append-nil, arith, length, length-append, ok, Outcome, add64,
  sub64, add64-sub64_one, u64_mod, All, ◌>>=◌,
}
use lunar_prekernel.Pmm.{MapType, Entry, PmmMap, next, visit, place, sweep, pmm_map_max_entries}
use lunar_prekernel.Pmm.Slots.{holding, last_of, length-middle}
use lunar_prekernel.Pmm.Spans.{
  entry_end, in_range, Ordered, top, Below, Below_weaken, Ordered-suffix,
}
use lunar_prekernel.Pmm.Place.{Written}
use lunar_prekernel.Pmm.Apart.{Apart, Lies, lies, Apart-of_none}
use lunar_prekernel.Pmm.Cut.{type_at_replace, top_replace, type_at_remove}
use lunar_prekernel.Pmm.Hole.{head_of, tail_of, front_Ordered, hole_none, rest_same}
use lunar_prekernel.Pmm.Visit.{
  round, visit_disjoint, visit-front, visit-back, visit_split, visit_drop,
}
use lunar_prekernel.Pmm.Sweep.{
  Ordered-Fits, sweep_next, sweep_split, next_index, from_end, skip_from,
}
use lunar_prekernel.Pmm.Ready.{
  Ready, Overrides, Yields, repaint, Ready-cut, Ready-drop, place_apart,
}

module _ (t : MapType) (force : Bool) (b n : ℕ) (pos : 0 < n) (fits : b + n < u64_mod) where
  abbrev run : ℕ → List Entry → List Entry → List Entry → Outcome PmmMap
  run fuel done todo stale =
      sweep fuel t force (round (length done) b n (holding (done ++ todo) stale))

  -- A round that puts `f` in the place of the entry, and goes on behind it.
  run_cut :
      (fuel : ℕ) (done : List Entry) (e f : Entry) (todo stale : List Entry)
      → length (done ++ (e ∷ todo)) ≤ pmm_map_max_entries
      → visit t force (round (length done) b n (holding (done ++ (e ∷ todo)) stale))
        ≡ ok (next (round (length done) b n (holding (done ++ (f ∷ todo)) stale)))
      → run (suc fuel) done (e ∷ todo) stale ≡ run fuel (done ++ (f ∷ [])) todo stale
  run_cut fuel done e f todo stale room h =
      let shorter : length done < length (done ++ (e ∷ todo)) =
        omega (arith, length-append done (e ∷ todo)) in
      rw (append_assoc done (f ∷ []) todo, ← next_index done f (omega arith))
        (sweep_next t force b n (length done) (holding (done ++ (e ∷ todo)) stale) fuel
          (length done) (holding (done ++ (f ∷ todo)) stale) shorter h)

  -- A round that takes the entry out.
  run_drop :
      (fuel : ℕ) (done : List Entry) (e : Entry) (todo stale stale' : List Entry)
      → length (done ++ (e ∷ todo)) ≤ pmm_map_max_entries
      → visit t force (round (length done) b n (holding (done ++ (e ∷ todo)) stale))
        ≡ ok (next (round (sub64 (length done) 1) b n (holding (done ++ todo) stale')))
      → run (suc fuel) done (e ∷ todo) stale ≡ run fuel done todo stale'
  run_drop fuel done e todo stale stale' room h =
      let shorter : length done < length (done ++ (e ∷ todo)) =
        omega (arith, length-append done (e ∷ todo)) in
      sweep_next t force b n (length done) (holding (done ++ (e ∷ todo)) stale) fuel
        (sub64 (length done) 1) (holding (done ++ todo) stale') shorter h
      ∙ ap (λ i. sweep fuel t force (round i b n (holding (done ++ todo) stale')))
          (add64-sub64_one (length done) (omega arith))

  -- The end of the loop: the range lies apart from the entries, which were all passed.
  run_end :
      (fuel : ℕ) (done stale : List Entry)
      → Ready b n done [] stale
      → Written 2 t b n (done ++ []) (run (suc fuel) done [] stale)
  run_end fuel done stale r = rw (from_end t force b n pos fits fuel done stale) (
      repaint 1 2 t b n (done ++ []) (done ++ []) (λ a e. refl) (omega arith)
        (place_apart t b n (done ++ []) stale pos fits r.ordered (rw append-nil r.passed) r.behind
          r.slots (omega (arith, r.room))))

  -- The range lies strictly in an entry.
  module _ (done : List Entry) (e : Entry) (todo stale : List Entry)
      (r : Ready b n done (e ∷ todo) stale) (over : Overrides t force e) (lo : e.base < b)
      (hi : b + n < entry_end e) where
    abbrev fore : List Entry
    fore = done ++ (head_of e b ∷ todo)

    ends : entry_end e < u64_mod
    ends = (Ordered-suffix 0 done (e ∷ todo) r.ordered).2

    size : length fore ≡ length (done ++ (e ∷ todo))
    size = length-middle done (head_of e b) e todo

    -- The recursive call writes the part behind the range.
    back_Written :
        Written 1 e.type
          (b + n)
          (entry_end e - (b + n))
          fore
          (place e.type (b + n) (entry_end e - (b + n)) (holding fore stale))
    back_Written =
        let reach = top_replace e (head_of e b) todo done (entry_end e) (omega arith) in
        place_apart e.type (b + n) (entry_end e - (b + n)) fore stale (omega arith)
          (omega (arith, ends)) (front_Ordered b n done e todo r.ordered lo hi)
          (Apart-of_none 0 (b + n) (entry_end e - (b + n)) fore (omega arith)
            (front_Ordered b n done e todo r.ordered lo hi)
            (λ a i. hole_none b n done e todo r.ordered lo hi a (ground arith) (ground arith)))
          (Below_weaken _ _ stale (omega (arith, reach)) r.behind) (rw size r.slots)
          (rw size (omega (arith, r.room)))

    back-Apart : All (Apart b n) back_Written.live
    back-Apart = Apart-of_none 0 b n back_Written.live pos back_Written.spans.ordered λ a i.
        ground (arith, back_Written.spans.painted a, hole_none b n done e todo r.ordered lo hi a)

    run_split :
        (fuel : ℕ)
        → length (done ++ (e ∷ todo)) + 2 < fuel
        → run (suc fuel) done (e ∷ todo) stale
          ≡ place t b n (holding back_Written.live back_Written.stale)
    run_split fuel enough =
        let shorter : length done < length (done ++ (e ∷ todo)) =
          omega (arith, length-append done (e ∷ todo)) in
        let tail = Ordered-suffix 0 done (e ∷ todo) r.ordered in
        let rest = entry_end e - (b + n) in
        let back : sweep fuel e.type true (round 0 (b + n) rest (holding fore stale))
            ≡ ok (holding back_Written.live back_Written.stale) =
          skip_from e.type true (b + n) rest (omega arith) (omega arith) fuel 0 fore stale
            (Ordered-Fits 0 fore (front_Ordered b n done e todo r.ordered lo hi))
            (Apart-of_none 0 (b + n) rest fore (omega arith)
              (front_Ordered b n done e todo r.ordered lo hi)
              (λ a i. hole_none b n done e todo r.ordered lo hi a (ground arith) (ground arith)))
            (omega (arith, size, r.room)) (omega (arith, size))
          ∙ back_Written.result in
        sweep_split t force b n (length done) (holding (done ++ (e ∷ todo)) stale) fuel
          (length done) (b + n) rest e.type (holding fore stale) shorter
          (visit_split t force b n done e todo stale pos fits tail.1 tail.2 (omega (arith, r.room))
            over lo hi)
        ∙ ap (λ o. o >>= λ m. sweep fuel t force (round (add64 (length done) 1) b n m)) back
        ∙ skip_from t force b n pos fits fuel (add64 (length done) 1) back_Written.live
            back_Written.stale (Ordered-Fits 0 back_Written.live back_Written.spans.ordered)
            back-Apart (omega (arith, back_Written.grown, size, r.room))
            (omega (arith, back_Written.grown, size))

    split_Written :
        (fuel : ℕ)
        → length (done ++ (e ∷ todo)) + 2 < fuel
        → Written 2 t b n (done ++ (e ∷ todo)) (run (suc fuel) done (e ∷ todo) stale)
    split_Written fuel enough =
        let w = back_Written in
        rw (run_split fuel enough) (
          repaint 1 2 t b n w.live (done ++ (e ∷ todo))
            (λ a out. w.spans.painted a ∙ rest_same b n done e todo r.ordered lo hi a out)
            (omega (arith, w.grown, size))
            (place_apart t b n w.live w.stale pos fits w.spans.ordered back-Apart
              (Below_weaken _ _ w.stale (omega arith) w.spans.behind) w.slots
              (omega (arith, w.grown, size, r.room))))

  -- The entry is passed, cut down to `f`, and the rest of the loop does its work.
  cut_Written :
      (fuel : ℕ) (done : List Entry) (e f : Entry) (todo stale : List Entry)
      → length (done ++ (e ∷ todo)) ≤ pmm_map_max_entries
      → visit t force (round (length done) b n (holding (done ++ (e ∷ todo)) stale))
        ≡ ok (next (round (length done) b n (holding (done ++ (f ∷ todo)) stale)))
      → e.type ≡ f.type
      → ((a : ℕ) → in_range b n a ≡ false → in_range e.base e.length a ≡ in_range f.base f.length a)
      → Written 2 t b n (done ++ (f ∷ []) ++ todo) (run fuel (done ++ (f ∷ [])) todo stale)
      → Written 2 t b n (done ++ (e ∷ todo)) (run (suc fuel) done (e ∷ todo) stale)
  cut_Written fuel done e f todo stale room h type cover w =
      let moved : done ++ (f ∷ []) ++ todo ≡ done ++ (f ∷ todo) = append_assoc done (f ∷ []) todo in
      let same : length (done ++ (f ∷ todo)) ≡ length (done ++ (e ∷ todo)) =
        length-middle done f e todo in
      rw (run_cut fuel done e f todo stale room h) (
        repaint 2 2 t b n (done ++ (f ∷ []) ++ todo) (done ++ (e ∷ todo))
          (λ a out. rw moved (sym (type_at_replace e f todo done a type (cover a out))))
          (rw moved (omega (arith, same))) w)

  -- The entry is taken out, and the rest of the loop does its work.
  drop_Written :
      (fuel : ℕ) (done : List Entry) (e : Entry) (todo stale : List Entry)
      → Ready b n done (e ∷ todo) stale
      → ((b < e.base) × (entry_end e < b + n)) ⊎ ((b ≡ e.base) × (n ≡ e.length))
      → visit t force (round (length done) b n (holding (done ++ (e ∷ todo)) stale))
        ≡ ok (
            next
              (round (sub64 (length done) 1) b n (holding (done ++ todo) (last_of e todo ∷ stale))))
      → Written 2 t b n (done ++ todo) (run fuel done todo (last_of e todo ∷ stale))
      → Written 2 t b n (done ++ (e ∷ todo)) (run (suc fuel) done (e ∷ todo) stale)
  drop_Written fuel done e todo stale r covered h w =
      rw (run_drop fuel done e todo stale (last_of e todo ∷ stale) (omega (arith, r.room)) h) (
        repaint 2 2 t b n (done ++ todo) (done ++ (e ∷ todo))
          (λ a out. sym (type_at_remove e todo done a (ground arith)))
          (omega (arith, length-append done (e ∷ todo), length-append done todo)) w)

  -- Rounds that keep the part of the entry in front of the range, or the part behind it.
  front_Written :
      (fuel : ℕ) (done : List Entry) (e : Entry) (todo stale : List Entry)
      → Ready b n done (e ∷ todo) stale
      → Overrides t force e
      → e.base < b
      → b < entry_end e
      → entry_end e ≤ b + n
      → (Ready b n (done ++ (head_of e b ∷ [])) todo stale
          → Written 2 t b n
              (done ++ (head_of e b ∷ []) ++ todo)
              (run fuel (done ++ (head_of e b ∷ [])) todo stale))
      → Written 2 t b n (done ++ (e ∷ todo)) (run (suc fuel) done (e ∷ todo) stale)
  front_Written fuel done e todo stale r over lo mid hi on =
      let tail = Ordered-suffix 0 done (e ∷ todo) r.ordered in
      let room : length (done ++ (e ∷ todo)) ≤ pmm_map_max_entries = omega (arith, r.room) in
      cut_Written fuel done e (head_of e b) todo stale room
        (visit-front t force b n done e todo stale pos fits tail.1 tail.2 room over lo mid hi) refl
        (λ a out. ground arith)
        (on (
          Ready-cut b n done e todo stale r (head_of e b) (omega arith) (omega arith) (omega arith)
            (inl (omega arith)) (omega arith)))

  rear_Written :
      (fuel : ℕ) (done : List Entry) (e : Entry) (todo stale : List Entry)
      → Ready b n done (e ∷ todo) stale
      → Overrides t force e
      → b ≤ e.base
      → e.base < b + n
      → b + n < entry_end e
      → (Ready b n (done ++ (tail_of e (b + n) ∷ [])) todo stale
          → Written 2 t b n
              (done ++ (tail_of e (b + n) ∷ []) ++ todo)
              (run fuel (done ++ (tail_of e (b + n) ∷ [])) todo stale))
      → Written 2 t b n (done ++ (e ∷ todo)) (run (suc fuel) done (e ∷ todo) stale)
  rear_Written fuel done e todo stale r over lo mid hi on =
      let tail = Ordered-suffix 0 done (e ∷ todo) r.ordered in
      let room : length (done ++ (e ∷ todo)) ≤ pmm_map_max_entries = omega (arith, r.room) in
      cut_Written fuel done e (tail_of e (b + n)) todo stale room
        (visit-back t force b n done e todo stale pos fits tail.1 tail.2 room over lo mid hi) refl
        (λ a out. ground arith)
        (on (
          Ready-cut b n done e todo stale r (tail_of e (b + n)) (omega arith) (omega arith)
            (omega arith) (inr (omega arith)) (omega arith)))

  -- From any round on, with enough fuel, the loop and what follows it paint the range over the map.
  run_Written :
      (fuel : ℕ) (done todo stale : List Entry)
      → Ready b n done todo stale
      → All (Yields t force b n) todo
      → length todo + length (done ++ todo) + 2 < fuel
      → Written 2 t b n (done ++ todo) (run fuel done todo stale)
  run_Written zero done todo stale r y h = absurd (omega arith)
  run_Written (suc fuel) done [] stale r y h = run_end fuel done stale r
  run_Written (suc fuel) done (e ∷ todo) stale r y h =
      let tail = Ordered-suffix 0 done (e ∷ todo) r.ordered in
      let room : length (done ++ (e ∷ todo)) ≤ pmm_map_max_entries = omega (arith, r.room) in
      let size : (f : Entry) → length (done ++ (f ∷ []) ++ todo) ≡ length (done ++ (e ∷ todo)) =
        λ f. ap length (append_assoc done (f ∷ []) todo) ∙ length-middle done f e todo in
      let less : length (done ++ (e ∷ todo)) ≡ suc (length (done ++ todo)) =
        omega (arith, length-append done (e ∷ todo), length-append done todo) in
      let on = λ (f : Entry) (r' : Ready b n (done ++ (f ∷ [])) todo stale).
        run_Written fuel (done ++ (f ∷ [])) todo stale r' y.1 (omega (arith, size f)) in
      let pass = λ (apart : Apart b n e).
        cut_Written fuel done e e todo stale room
          (visit_disjoint t force b n done e todo stale pos fits tail.1 tail.2 room apart) refl
          (λ a out. refl)
          (on e (
            Ready-cut b n done e todo stale r e (omega arith) tail.1 (omega arith) apart
              (omega arith))) in
      elim y.0 [
        | inl apart ↦ pass apart
        | inr (over, no_edge) ↦ elim (lies b n e no_edge) [
          | Lies.apart apart ↦ pass apart
          | Lies.front lo mid hi ↦
              front_Written fuel done e todo stale r over lo mid hi (on (head_of e b))
          | Lies.back lo mid hi ↦
              rear_Written fuel done e todo stale r over lo mid hi (on (tail_of e (b + n)))
          | Lies.round_it lo hi ↦ split_Written done e todo stale r over lo hi fuel (omega arith)
          | Lies.covered c ↦
              drop_Written fuel done e todo stale r c
                (visit_drop t force b n done e todo stale pos fits tail.1 tail.2 room over c)
                (run_Written fuel done todo (last_of e todo ∷ stale)
                  (Ready-drop b n done e todo stale r (ground arith)) y.1 (omega (arith, less)))
        ]
      ]

  -- The call on a map whose entries all yield to the range.
  pub sweep_Written :
      (fuel : ℕ) (live stale : List Entry)
      → Ordered 0 live
      → Below (top live) stale
      → length live + length stale ≡ pmm_map_max_entries
      → length live + 2 ≤ pmm_map_max_entries
      → All (Yields t force b n) live
      → 2 * length live + 2 < fuel
      → Written 2 t b n live (sweep fuel t force (round 0 b n (holding live stale)))
  sweep_Written fuel live stale o behind slots room y enough =
      run_Written fuel [] live stale
        (record {
          ordered = o;
          passed = tt;
          behind = Below_weaken _ _ stale (omega arith) behind;
          slots = slots;
          room = room;
        })
        y (omega arith)
