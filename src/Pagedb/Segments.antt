-- ===== src/Pagedb/Segments.antt =====
-- The segments of pre_kernel/src/memory/pagedb.c: which pages of the page database are mapped.
use native.Mathlib.Decide.{dec_lt}
use lunar_prekernel.Base.{
  All-map, ℕ, ◌≤◌, ◌<◌, max, ◌≡◌, refl, Bool, true, false, ◌&&◌, ◌||◌, Option, none, some, List, [],
  ◌∷◌, arith, ltb, leb, All,
}
use lunar_prekernel.Pmm.{Entry}
use lunar_prekernel.Pagedb.{next_segment, has_records, records_start, records_end}

-- The segment to map next, if there is one, and then the rest from where it ends.
abbrev pub extend : Option (ℕ × ℕ) → (ℕ → List (ℕ × ℕ)) → ℕ → List (ℕ × ℕ)
extend none rest mapped_end = rest mapped_end
extend (some (start, end)) rest mapped_end = (start, end) ∷ rest end

-- The segments that the loop maps, in turn.
abbrev pub plan : ℕ → ℕ → List Entry → ℕ → List (ℕ × ℕ)
plan pagedb_base size [] mapped_end = []
plan pagedb_base size (e ∷ es) mapped_end =
    extend (next_segment pagedb_base size mapped_end e) (plan pagedb_base size es) mapped_end

-- An address lies in one of the segments.
abbrev pub in_plan : List (ℕ × ℕ) → ℕ → Bool
in_plan [] a = false
in_plan ((start, end) ∷ rest) a = (leb start a && ltb a end) || in_plan rest a

-- An address is that of a record of some entry.
abbrev pub wanted : ℕ → ℕ → List Entry → ℕ → Bool
wanted pagedb_base size [] a = false
wanted pagedb_base size (e ∷ es) a =
    (has_records e.type
      && leb (records_start pagedb_base size e) a
      && ltb a (records_end pagedb_base size e))
    || wanted pagedb_base size es a

-- The segments follow one another from an address on, and none is empty.
abbrev pub Rising : ℕ → List (ℕ × ℕ) → Type 0
Rising lo [] = Unit
Rising lo ((start, end) ∷ rest) = (lo ≤ start) × (start < end) × Rising end rest

module _ (pagedb_base size : ℕ) where
  next_segment-none :
      (mapped_end a : ℕ) (e : Entry)
      → next_segment pagedb_base size mapped_end e ≡ none
      → mapped_end ≤ a
      → (has_records e.type
          && leb (records_start pagedb_base size e) a
          && ltb a (records_end pagedb_base size e))
        ≡ false
  unfolding next_segment
  next_segment-none mapped_end a e h above = ground arith

  pub next_segment-some :
      (mapped_end start end : ℕ) (e : Entry)
      → next_segment pagedb_base size mapped_end e ≡ some (start, end)
      → (has_records e.type ≡ true)
        × (start ≡ max (records_start pagedb_base size e) mapped_end)
        × (end ≡ records_end pagedb_base size e)
        × (start < end)
  unfolding next_segment
  next_segment-some mapped_end start end e h = ground arith

  Rising-extend :
      (mapped_end : ℕ) (e : Entry) (rest : ℕ → List (ℕ × ℕ)) (o : Option (ℕ × ℕ))
      → next_segment pagedb_base size mapped_end e ≡ o
      → ((b : ℕ) → Rising b (rest b))
      → Rising mapped_end (extend o rest mapped_end)
  Rising-extend mapped_end e rest none h r = r mapped_end
  Rising-extend mapped_end e rest (some (start, end)) h r =
      let k = next_segment-some mapped_end start end e h in (omega (arith, k), k.3, r end)

  -- The segments are not empty, and each starts where the one before it ended or later.
  pub plan-Rising :
      (es : List Entry) (mapped_end : ℕ) → Rising mapped_end (plan pagedb_base size es mapped_end)
  plan-Rising [] mapped_end = tt
  plan-Rising (e ∷ es) mapped_end =
      Rising-extend mapped_end e (plan pagedb_base size es)
        (next_segment pagedb_base size mapped_end e) refl (plan-Rising es)

  wanted-none :
      (a : ℕ) (es : List Entry)
      → All (λ e. a < records_start pagedb_base size e) es
      → wanted pagedb_base size es a ≡ false
  wanted-none a [] h = refl
  wanted-none a (e ∷ es) h = ground (arith, wanted-none a es h.1)

  -- No entry's records start before those of an entry before it.
  abbrev pub InOrder : List Entry → Type 0
  InOrder [] = Unit
  InOrder (e ∷ es) =
      All (λ x. records_start pagedb_base size e ≤ records_start pagedb_base size x) es × InOrder es

  in_plan-extend :
      (mapped_end a : ℕ) (e : Entry) (es : List Entry) (o : Option (ℕ × ℕ))
      → next_segment pagedb_base size mapped_end e ≡ o
      → All (λ x. records_start pagedb_base size e ≤ records_start pagedb_base size x) es
      → ((b : ℕ)
          → in_plan (plan pagedb_base size es b) a ≡ (leb b a && wanted pagedb_base size es a))
      → in_plan (extend o (plan pagedb_base size es) mapped_end) a
        ≡ (leb mapped_end a && wanted pagedb_base size (e ∷ es) a)
  in_plan-extend mapped_end a e es none h order rest = elim (dec_lt a mapped_end) [
    | yes low ↦ ground (arith, rest mapped_end)
    | no high ↦ ground (arith, rest mapped_end, next_segment-none mapped_end a e h (omega arith))
  ]
  in_plan-extend mapped_end a e es (some (start, end)) h order rest =
      let k = next_segment-some mapped_end start end e h in
      elim (dec_lt a (records_start pagedb_base size e)) [
        | yes low ↦
            let later : wanted pagedb_base size es a ≡ false =
              wanted-none a es (All-map _ _ es (λ x r. omega arith) order) in
            ground (arith, rest end, k, later)
        | no high ↦ ground (arith, rest end, k)
      ]

  pub in_plan_lem :
      (mapped_end a : ℕ) (es : List Entry)
      → InOrder es
      → in_plan (plan pagedb_base size es mapped_end) a
        ≡ (leb mapped_end a && wanted pagedb_base size es a)
  in_plan_lem mapped_end a [] o = ground arith
  in_plan_lem mapped_end a (e ∷ es) o =
      in_plan-extend mapped_end a e es (next_segment pagedb_base size mapped_end e) refl o.0
        (λ b. in_plan_lem b a es o.1)
