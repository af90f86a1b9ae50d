-- ===== src/Pmm/Add.antt =====
-- What `pmm_map_add` of pre_kernel/src/memory/pmm.c does, which sets a range without force: it gives way
-- to an entry of a type that is no lower.
use native.Mathlib.Decide.{dec_lt}
use lunar_prekernel.Pmm.{
  MapType, Entry, PmmMap, rank, stop, visit, sweep, set_fuel, pmm_map_set, pmm_map_add,
  pmm_map_max_entries, ℕ,
}
use lunar_prekernel.Pmm.Slots.{holding, load-holding}
use lunar_prekernel.Pmm.Spans.{entry_end, in_range, Ordered, paint}
use lunar_prekernel.Pmm.Apart.{Apart}
use lunar_prekernel.Pmm.Ready.{Yields}
use lunar_prekernel.Pmm.Visit.{round}
use lunar_prekernel.Pmm.Sweep.{Fits, Ordered-Fits, from, from_pass}
use lunar_prekernel.Pmm.Valid.{
  IsValid, live, behind, type_of, holding-live, length-live, pmm_map_set-Painting,
}
use lunar_prekernel.Base.{
  ℕ, zero, suc, ◌+◌, ◌≤◌, ◌<◌, ◌≡◌, refl, sym, ap, ◌∙◌, ◌⊎◌, inl, inr, Bool, true, false, not, ◌&&◌,
  ◌||◌, List, [], ◌∷◌, ◌++◌, append_assoc, arith, ltb, leb, ◌==◌, Bool-cases, length, All,
  length-append, u64_mod, add64-eq-add, ok,
}

-- An entry of a type that is no lower reaches over both ends of the range.
abbrev outranked : MapType → ℕ → ℕ → Entry → Bool
outranked t b n e = leb (rank t) (rank e.type) && ltb e.base b && ltb (b + n) (entry_end e)

abbrev pub shielded : MapType → ℕ → ℕ → List Entry → Bool
shielded t b n [] = false
shielded t b n (e ∷ es) = outranked t b n e || shielded t b n es

-- The entry lies apart from the range, or is of a lower type and does not share just one edge with a range
-- that reaches over its other edge, or reaches over both ends of the range.
abbrev pub Allows : MapType → ℕ → ℕ → Entry → Type 0
Allows t b n e = Yields t false b n e ⊎ ((e.base < b) × (b + n < entry_end e))

record Shield (t : MapType) (b n : ℕ) (es : List Entry) : Type 0 where
  before : List Entry
  entry : Entry
  after : List Entry
  same : es ≡ before ++ (entry ∷ after)
  over : outranked t b n entry ≡ true

shield_lem :
    (t : MapType) (b n : ℕ) (es : List Entry)
    → All (Allows t b n) es
    → (All (Yields t false b n) es × (shielded t b n es ≡ false))
      ⊎ (Shield t b n es × (shielded t b n es ≡ true))
shield_lem t b n [] h = inl (tt, refl)
shield_lem t b n (e ∷ es) h = elim (Bool-cases (outranked t b n e)) [
  | inl over ↦
      inr (record { before = []; entry = e; after = es; same = refl; over = over }, rw over refl)
  | inr not_over ↦ elim (shield_lem t b n es h.1) [
    | inr (s, found) ↦ inr (
      record {
        before = e ∷ s.before;
        entry = s.entry;
        after = s.after;
        same = ap (λ l. e ∷ l) s.same;
        over = s.over;
      },
      rw (not_over, found) refl,
    )
    | inl (ys, clear) ↦ inl ((yields e h.0 not_over, ys), rw (not_over, clear) refl)
  ]
]
  where
    yields : (x : Entry) → Allows t b n x → outranked t b n x ≡ false → Yields t false b n x
    yields x (inl y) lower = y
    yields x (inr inside) lower =
        inr (ground (arith, lower, inside), λ edge. ground (arith, inside, edge))

-- In order, an entry ends where a later one starts, or before.
ends_before :
    (lo : ℕ) (before : List Entry) (e : Entry) (after : List Entry)
    → Ordered lo (before ++ (e ∷ after))
    → (lo ≤ e.base) × All (λ x. entry_end x ≤ e.base) before
ends_before lo [] e after o = (o.0, tt)
ends_before lo (x ∷ xs) e after o =
    let later = ends_before (entry_end x) xs e after o.3 in
    (omega (arith, later.0, o.0), (later.0, later.1))

module _ (t : MapType) (b n : ℕ) (pos : 0 < n) (fits : b + n < u64_mod) where
  -- The loop stops at the entry.
  stops :
      (done : List Entry) (e : Entry) (after stale : List Entry)
      → entry_end e < u64_mod
      → outranked t b n e ≡ true
      → visit t false (round (length done) b n (holding (done ++ (e ∷ after)) stale))
        ≡ ok (stop (holding (done ++ (e ∷ after)) stale))
  unfolding visit
  stops done e after stale ends over =
      let weaker : (ltb (rank e.type) (rank t) || false) ≡ false = ground (arith, over) in
      let starts : ltb e.base b && ltb b (entry_end e) ≡ true = ground (arith, over) in
      let reaches : ltb e.base (b + n) && ltb (b + n) (entry_end e) ≡ true = ground (arith, over) in
      rw
        (
          load-holding done e after stale,
          add64-eq-add b n fits,
          add64-eq-add e.base e.length ends,
          weaker,
          starts,
          reaches,
        )
        refl

  keeps :
      (fuel : ℕ) (done before : List Entry) (e : Entry) (after stale : List Entry)
      → All Fits (before ++ (e ∷ after))
      → All (λ x. entry_end x ≤ e.base) before
      → outranked t b n e ≡ true
      → length (done ++ (before ++ (e ∷ after))) ≤ pmm_map_max_entries
      → length before < fuel
      → from t false b n pos fits fuel done (before ++ (e ∷ after)) stale
        ≡ ok (holding (done ++ (before ++ (e ∷ after))) stale)
  unfolding sweep
  keeps zero done before e after stale f low over room enough = absurd (omega arith)
  keeps (suc fuel) done [] e after stale f low over room enough =
      let more : ltb (length done) (length (done ++ (e ∷ after))) ≡ true =
        ground (arith, length-append done (e ∷ after)) in
      rw (more, stops done e after stale f.0.1 over, sweep) refl
  keeps (suc fuel) done (x ∷ xs) e after stale f low over room enough =
      let apart : Apart b n x = inl (ground (arith, low.0, over)) in
      let assoc = append_assoc done (x ∷ []) (xs ++ (e ∷ after)) in
      from_pass t false b n pos fits fuel done x (xs ++ (e ∷ after)) stale f.0 apart room
      ∙ keeps fuel (done ++ (x ∷ [])) xs e after stale f.1 low.1 over (rw assoc room) (omega arith)
      ∙ ap (λ l. ok (holding l stale)) assoc

  -- A range within an entry of a type that is no lower changes nothing.
  kept_lem : (m : PmmMap) → IsValid m → Shield t b n (live m) → pmm_map_set b n t false m ≡ ok m
  unfolding pmm_map_set
  kept_lem m v s =
      let ordered : Ordered 0 (s.before ++ (s.entry ∷ s.after)) = rw s.same at v.ordered in
      let size : length (s.before ++ (s.entry ∷ s.after)) ≤ pmm_map_max_entries =
        omega (arith, ap (λ (l : List Entry). length l) s.same, length-live m v, v.size) in
      let split = length-append s.before (s.entry ∷ s.after) in
      let whole : holding (s.before ++ (s.entry ∷ s.after)) (behind m) ≡ m =
        ap (λ l. holding l (behind m)) (sym s.same) ∙ holding-live m v in
      let run =
        keeps set_fuel [] s.before s.entry s.after (behind m)
          (Ordered-Fits 0 (s.before ++ (s.entry ∷ s.after)) ordered)
          (ends_before 0 s.before s.entry s.after ordered).1 s.over size
          (omega (arith, size, split)) in
      rw whole at run

unshielded : (c s : Bool) → s ≡ false → c ≡ (c && not s)
unshielded true s e = rw e refl
unshielded false s e = refl

kept_off : (c s : Bool) → s ≡ true → false ≡ (c && not s)
kept_off true s e = rw e refl
kept_off false s e = refl

-- `pmm_map_add` of a range, which may be empty, that does not wrap, in a valid map with two free slots.
-- Each entry lies apart from the range, or is of a lower type and does not share just one edge with a
-- range that reaches over its other edge, or reaches over both ends of the range. The map stays valid
-- and all addresses off the range keep their types. The range has the type, unless it lies within an
-- entry of a type that is no lower; then nothing changes.
pub pmm_map_add_lem :
    (b n : ℕ) (t : MapType) (m : PmmMap)
    → IsValid m
    → b + n < u64_mod
    → m.size + 2 ≤ pmm_map_max_entries
    → All (Allows t b n) (live m)
    → (m' : PmmMap) × (pmm_map_add b n t m ≡ ok m')
      × IsValid m'
      × ((a : ℕ)
          → type_of m' a ≡ paint (in_range b n a && not (shielded t b n (live m))) t (type_of m a))
unfolding pmm_map_add
pmm_map_add_lem b n t m v fits room h = elim (dec_lt 0 n) [
  | no p ↦
      let none_left : n ≡ 0 = omega arith in
      let empty : (n == 0) ≡ true = ground arith in
      (m, rw empty refl, v, λ a. let out : in_range b n a ≡ false = ground arith in rw out refl)
  | yes p ↦
      let some_left : (n == 0) ≡ false = ground arith in
      elim (shield_lem t b n (live m) h) [
        | inl (y, clear) ↦
            let f = pmm_map_set-Painting b n t false m v p fits room y in
            (
              f.map,
              rw some_left f.result,
              f.valid,
              λ a.
                  f.painted a
                  ∙ ap (λ c. paint c t (type_of m a))
                      (unshielded (in_range b n a) (shielded t b n (live m)) clear),
            )
        | inr (s, found) ↦ (
          m,
          rw some_left (kept_lem t b n p fits m v s),
          v,
          λ a.
              ap (λ c. paint c t (type_of m a))
                (kept_off (in_range b n a) (shielded t b n (live m)) found),
        )
      ]
]
