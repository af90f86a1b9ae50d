-- ===== src/Pmm/Paint.antt =====
-- How the memory map of pre_kernel/src/memory/pmm.c changes when a range is written into a gap
-- between its entries: what an insert does to the map from addresses to types, and that a merge of
-- two adjacent entries of one type does nothing to it.
use lunar_prekernel.Base.{
  ℕ, ◌+◌, ◌≤◌, ◌<◌, ◌≡◌, ◌∙◌, sym, inl, inr, List, [], ◌∷◌, ◌++◌, max, arith, u64_mod,
}
use lunar_prekernel.Pmm.{MapType, Entry}
use lunar_prekernel.Pmm.Spans.{
  entry_end, in_range, type_at, Ordered, bound, top, Below, Below_weaken, Inside, paint,
  type_at-append, type_at_below, type_at_above, Ordered-append, top-append, Inside-append_right,
}

-- `live` is `old` with the range painted over: ordered, with one entry round the range, and with
-- the slots `stale` starting below the largest end.
pub record Painted (t : MapType) (b n : ℕ) (old live stale : List Entry) : Type 0 where
  pub ordered : Ordered 0 live
  pub painted : (a : ℕ) → type_at live a ≡ paint (in_range b n a) t (type_at old a)
  pub inside : Inside b n live
  pub behind : Below (top live) stale

abbrev pub ranged : ℕ → ℕ → MapType → Entry
ranged b n t = record { base = b; length = n; type = t }

module _ (t : MapType) (b n : ℕ) (pre post stale : List Entry) (before : Ordered 0 pre)
    (above : bound 0 pre ≤ b) (pos : 0 < n) (fits : b + n < u64_mod) (after : Ordered (b + n) post)
    (behind : Below (max (top (pre ++ post)) (b + n)) stale) where
  type_at_inserted :
      (a : ℕ)
      → type_at (pre ++ (ranged b n t ∷ post)) a
        ≡ paint (in_range b n a) t (type_at (pre ++ post) a)
  unfolding type_at
  type_at_inserted a = ground (
    arith,
    type_at-append pre (ranged b n t ∷ post) a,
    type_at-append pre post a,
    type_at_above 0 pre a before,
    type_at_below (b + n) post a after,
  )

  top_inserted : max (top (pre ++ post)) (b + n) ≤ top (pre ++ (ranged b n t ∷ post))
  top_inserted = omega (arith, top-append pre post, top-append pre (ranged b n t ∷ post))

  pub inserted-Painted : Painted t b n (pre ++ post) (pre ++ (ranged b n t ∷ post)) stale
  inserted-Painted = record {
    ordered = Ordered-append 0 pre (ranged b n t ∷ post) before (above, pos, fits, after);
    painted = type_at_inserted;
    inside = Inside-append_right b n pre (ranged b n t ∷ post) (inl (omega arith, omega arith));
    behind = Below_weaken _ _ stale top_inserted behind;
  }

-- Two adjacent entries of one type, and the entry that they make up.
module _ (p v j : Entry) (ys : List Entry) (meets : entry_end p ≡ v.base) (agrees : p.type ≡ v.type)
    (base : j.base ≡ p.base) (size : j.length ≡ p.length + v.length) (type : j.type ≡ v.type) where
  Ordered-join :
      (lo : ℕ) (xs : List Entry) → Ordered lo (xs ++ (p ∷ v ∷ ys)) → Ordered lo (xs ++ (j ∷ ys))
  Ordered-join lo [] h =
      let same : entry_end v ≡ entry_end j = omega arith in
      (omega arith, omega arith, omega arith, rw same at h.3.3)
  Ordered-join lo (x ∷ xs) h = (h.0, h.1, h.2, Ordered-join (entry_end x) xs h.3)

  type_at_join :
      (xs : List Entry) (a : ℕ) → type_at (xs ++ (p ∷ v ∷ ys)) a ≡ type_at (xs ++ (j ∷ ys)) a
  unfolding type_at
  type_at_join [] a = ground arith
  type_at_join (x ∷ xs) a = ground (arith, type_at_join xs a)

  top_join : (xs : List Entry) → top (xs ++ (p ∷ v ∷ ys)) ≡ top (xs ++ (j ∷ ys))
  top_join [] = omega arith
  top_join (x ∷ xs) = omega (arith, top_join xs)

  Inside-join :
      (b n : ℕ) (xs : List Entry) → Inside b n (xs ++ (p ∷ v ∷ ys)) → Inside b n (xs ++ (j ∷ ys))
  Inside-join b n [] (inl h) = inl (omega arith, omega arith)
  Inside-join b n [] (inr (inl h)) = inl (omega arith, omega arith)
  Inside-join b n [] (inr (inr h)) = inr h
  Inside-join b n (x ∷ xs) (inl h) = inl h
  Inside-join b n (x ∷ xs) (inr h) = inr (Inside-join b n xs h)

  pub join-Painted :
      (t : MapType) (b n : ℕ) (old xs stale : List Entry)
      → Painted t b n old (xs ++ (p ∷ v ∷ ys)) stale
      → Painted t b n old (xs ++ (j ∷ ys)) stale
  join-Painted t b n old xs stale h = record {
    ordered = Ordered-join 0 xs h.ordered;
    painted = λ a. sym (type_at_join xs a) ∙ h.painted a;
    inside = Inside-join b n xs h.inside;
    behind = rw (top_join xs) at h.behind;
  }
