-- ===== src/Pmm/Sweep.antt =====
-- The whole of `pmm_map_set` (pre_kernel/src/memory/pmm.c) where it may override what the range
-- overlaps: the loop cuts the range out of the entries, and what follows it writes the range in.
use lunar_prekernel.Base.{
  ℕ, zero, suc, ◌+◌, ◌≤◌, ◌<◌, ◌≡◌, ap, ◌∙◌, Bool, true, false, List, [], ◌∷◌, ◌++◌, append_assoc,
  arith, length, length-append, take, drop, length-take, length-drop, All-drop, take-append-drop,
  ltb, ok, Outcome, add64, add64-eq-add, u64_mod, All, ◌>>=◌,
}
use native.Mathlib.Decide.{dec_lt}
use lunar_prekernel.Pmm.{
  MapType, Entry, PmmMap, next, split, visit, place, sweep, pmm_map_max_entries,
}
use lunar_prekernel.Pmm.Slots.{holding}
use lunar_prekernel.Pmm.Spans.{entry_end, Ordered}
use lunar_prekernel.Pmm.Apart.{Apart}
use lunar_prekernel.Pmm.Visit.{round, visit_disjoint}

-- An entry takes up addresses, and its end does not wrap.
abbrev pub Fits : Entry → Type 0
Fits e = (0 < e.length) × (entry_end e < u64_mod)

pub Ordered-Fits : (lo : ℕ) (es : List Entry) → Ordered lo es → All Fits es
Ordered-Fits lo [] h = tt
Ordered-Fits lo (e ∷ es) h = ((h.1, h.2), Ordered-Fits (entry_end e) es h.3)

-- The loop's end, and one more round of it.
module _ (t : MapType) (force : Bool) (b n : ℕ) (i : ℕ) (m : PmmMap) where
  pub sweep_end : (fuel : ℕ) → m.size ≤ i → sweep (suc fuel) t force (round i b n m) ≡ place t b n m
  unfolding sweep
  sweep_end fuel h = let done : ltb i m.size ≡ false = ground arith in rw (done, sweep)

  pub sweep_next :
      (fuel i' : ℕ) (m' : PmmMap)
      → i < m.size
      → visit t force (round i b n m) ≡ ok (next (round i' b n m'))
      → sweep (suc fuel) t force (round i b n m) ≡ sweep fuel t force (round (add64 i' 1) b n m')
  unfolding sweep
  sweep_next fuel i' m' h e = let more : ltb i m.size ≡ true = ground arith in rw (more, e, sweep)

  pub sweep_split :
      (fuel i' b' n' : ℕ) (t' : MapType) (m' : PmmMap)
      → i < m.size
      → visit t force (round i b n m) ≡ ok (split b' n' t' (round i' b n m'))
      → sweep (suc fuel) t force (round i b n m) ≡ (
          sweep fuel t' true (round 0 b' n' m') >>= λ m''.
          sweep fuel t force (round (add64 i' 1) b n m''))
  unfolding sweep
  sweep_split fuel i' b' n' t' m' h e =
      let more : ltb i m.size ≡ true = ground arith in rw (more, e, sweep)

-- The index of the next round, and the list with an entry passed on to the front.
pub next_index :
    (done : List Entry) (e : Entry)
    → length done < pmm_map_max_entries
    → add64 (length done) 1 ≡ length (done ++ (e ∷ []))
next_index done e h =
    add64-eq-add (length done) 1 (omega arith) ∙ omega (arith, length-append done (e ∷ []))

module _ (t : MapType) (force : Bool) (b n : ℕ) (pos : 0 < n) (fits : b + n < u64_mod) where
  abbrev pub from : ℕ → List Entry → List Entry → List Entry → Outcome PmmMap
  from fuel done todo stale =
      sweep fuel t force (round (length done) b n (holding (done ++ todo) stale))

  -- Rounds over an entry that is left alone.
  pub from_pass :
      (fuel : ℕ) (done : List Entry) (e : Entry) (todo stale : List Entry)
      → Fits e
      → Apart b n e
      → length (done ++ (e ∷ todo)) ≤ pmm_map_max_entries
      → from (suc fuel) done (e ∷ todo) stale ≡ from fuel (done ++ (e ∷ [])) todo stale
  from_pass fuel done e todo stale f apart room =
      let shorter : length done < length (done ++ (e ∷ todo)) =
        omega (arith, length-append done (e ∷ todo)) in
      rw (append_assoc done (e ∷ []) todo, ← next_index done e (omega arith))
        (sweep_next t force b n (length done) (holding (done ++ (e ∷ todo)) stale) fuel
          (length done) (holding (done ++ (e ∷ todo)) stale) shorter
          (visit_disjoint t force b n done e todo stale pos fits f.0 f.1 room apart))

  pub from_end :
      (fuel : ℕ) (done stale : List Entry)
      → from (suc fuel) done [] stale ≡ place t b n (holding (done ++ []) stale)
  from_end fuel done stale =
      sweep_end t force b n (length done) (holding (done ++ []) stale) fuel
        (omega (arith, length-append done []))

  -- The loop passes over entries that lie apart from the range.
  pub from_skip :
      (fuel : ℕ) (done todo stale : List Entry)
      → All Fits todo
      → All (Apart b n) todo
      → length (done ++ todo) ≤ pmm_map_max_entries
      → length todo < fuel
      → from fuel done todo stale ≡ place t b n (holding (done ++ todo) stale)
  from_skip zero done todo stale f apart room h = absurd (omega arith)
  from_skip (suc fuel) done [] stale f apart room h = from_end fuel done stale
  from_skip (suc fuel) done (e ∷ todo) stale f apart room h =
      from_pass fuel done e todo stale f.0 apart.0 room
      ∙ from_skip fuel (done ++ (e ∷ [])) todo stale f.1 apart.1
          (rw (append_assoc done (e ∷ []) todo) room) (omega arith)
      ∙ ap (λ l. place t b n (holding l stale)) (append_assoc done (e ∷ []) todo)

  -- So it does from any index on.
  pub skip_from :
      (fuel i : ℕ) (live stale : List Entry)
      → All Fits live
      → All (Apart b n) live
      → length live ≤ pmm_map_max_entries
      → length live < fuel
      → sweep fuel t force (round i b n (holding live stale)) ≡ place t b n (holding live stale)
  skip_from zero i live stale f apart room h = absurd (omega arith)
  skip_from (suc fuel) i live stale f apart room h = elim (dec_lt (length live) i) [
    | yes p ↦ sweep_end t force b n i (holding live stale) fuel (omega arith)
    | no p ↦
        let cut : length (take i live) ≡ i = omega (arith, length-take i live) in
        rw (take-append-drop i live, cut) at
          (from_skip (suc fuel) (take i live) (drop i live) stale (All-drop Fits i live f)
            (All-drop (Apart b n) i live apart) (rw (take-append-drop i live) room)
            (omega (arith, length-drop i live)))
  ]
