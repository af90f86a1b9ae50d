-- ===== src/Pmm/Hole.antt =====
-- The case of `pmm_map_set` (pre_kernel/src/memory/pmm.c) in which the range lies strictly in one
-- entry: the entry keeps the part in front of the range, and the part behind it is written anew.
use lunar_prekernel.Base.{
  ℕ, ◌+◌, ◌-◌, ◌≤◌, ◌<◌, ◌≡◌, refl, sym, false, none, some, List, ◌∷◌, ◌++◌, arith, Bool-cases, inl,
  inr,
}
use lunar_prekernel.Pmm.{Entry}
use lunar_prekernel.Pmm.Spans.{
  entry_end, in_range, type_at, Ordered, paint, Ordered-prefix, Ordered-suffix, type_at-append,
  type_at_above, type_at_below,
}
use lunar_prekernel.Pmm.Cut.{Ordered-replace, type_at_replace}

-- The part of an entry in front of `b`.
abbrev pub head_of : Entry → ℕ → Entry
head_of e b = record e { length = b - e.base }

-- The part of an entry from `k` on.
abbrev pub tail_of : Entry → ℕ → Entry
tail_of e k = record e { base = k; length = entry_end e - k }

module _ (b n : ℕ) (done : List Entry) (e : Entry) (todo : List Entry)
    (o : Ordered 0 (done ++ (e ∷ todo))) (lo : e.base < b) (hi : b + n < entry_end e) where
  pub front_Ordered : Ordered 0 (done ++ (head_of e b ∷ todo))
  front_Ordered =
      let tail = Ordered-suffix 0 done (e ∷ todo) o in
      Ordered-replace e (head_of e b) todo 0 done o (omega arith) (omega arith) (omega arith)

  done_none : (a : ℕ) → e.base ≤ a → type_at done a ≡ none
  done_none a h =
      let tail = Ordered-suffix 0 done (e ∷ todo) o in
      type_at_above 0 done a (Ordered-prefix 0 done (e ∷ todo) o) (omega arith)

  -- Between the front and the entry's old end nothing has a type.
  pub hole_none :
      (a : ℕ) → b ≤ a → a < entry_end e → type_at (done ++ (head_of e b ∷ todo)) a ≡ none
  unfolding type_at
  hole_none a h k =
      let tail = Ordered-suffix 0 done (e ∷ todo) o in
      ground (
        arith,
        type_at-append done (head_of e b ∷ todo) a,
        done_none a,
        type_at_below (entry_end e) todo a tail.3,
      )

  pub entry_some : (a : ℕ) → b ≤ a → a < entry_end e → type_at (done ++ (e ∷ todo)) a ≡ some e.type
  unfolding type_at
  entry_some a h k = ground (arith, type_at-append done (e ∷ todo) a, done_none a)

  cover_front :
      (a : ℕ)
      → in_range b n a ≡ false
      → in_range (b + n) (entry_end e - (b + n)) a ≡ false
      → in_range e.base e.length a ≡ in_range e.base (b - e.base) a
  cover_front a out out' = ground arith

  -- Away from the range, the front and the back have the type that the entry had.
  pub rest_same :
      (a : ℕ)
      → in_range b n a ≡ false
      → paint
          (in_range (b + n) (entry_end e - (b + n)) a)
          e.type
          (type_at (done ++ (head_of e b ∷ todo)) a)
        ≡ type_at (done ++ (e ∷ todo)) a
  rest_same a out = elim (Bool-cases (in_range (b + n) (entry_end e - (b + n)) a)) [
    | inl e' ↦ rw e' (sym (entry_some a (ground arith) (ground arith)))
    | inr e' ↦ rw e' (sym (type_at_replace e (head_of e b) todo done a refl (cover_front a out e')))
  ]
