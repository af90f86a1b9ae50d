-- ===== src/Pmm/Cut.antt =====
-- What it does to the entries of pre_kernel/src/memory/pmm.c when one of them is cut down to a part
-- of itself, or taken out.
use lunar_prekernel.Base.{ℕ, ◌≤◌, ◌<◌, ◌≡◌, false, List, [], ◌∷◌, ◌++◌, max, arith}
use lunar_prekernel.Pmm.{Entry}
use lunar_prekernel.Pmm.Slots.{last_of}
use lunar_prekernel.Pmm.Spans.{
  entry_end, in_range, type_at, Ordered, Ordered-weaken, top, top-append,
}

module _ (e f : Entry) (rest : List Entry) where
  pub Ordered-replace :
      (lo : ℕ) (done : List Entry)
      → Ordered lo (done ++ (e ∷ rest))
      → e.base ≤ f.base
      → 0 < f.length
      → entry_end f ≤ entry_end e
      → Ordered lo (done ++ (f ∷ rest))
  Ordered-replace lo [] o start pos stops =
      (omega arith, pos, omega arith, Ordered-weaken (entry_end e) (entry_end f) rest stops o.3)
  Ordered-replace lo (x ∷ done) o start pos stops =
      (o.0, o.1, o.2, Ordered-replace (entry_end x) done o.3 start pos stops)

  -- Where the two entries cover the same, the maps agree.
  pub type_at_replace :
      (done : List Entry) (a : ℕ)
      → e.type ≡ f.type
      → in_range e.base e.length a ≡ in_range f.base f.length a
      → type_at (done ++ (e ∷ rest)) a ≡ type_at (done ++ (f ∷ rest)) a
  unfolding type_at
  type_at_replace [] a same cover = rw (cover, same)
  type_at_replace (x ∷ done) a same cover = rw (type_at_replace done a same cover)

  pub top_replace :
      (done : List Entry) (k : ℕ)
      → entry_end e ≤ max (entry_end f) k
      → max (top (done ++ (e ∷ rest))) k ≤ max (top (done ++ (f ∷ rest))) k
  top_replace done k h = omega (arith, top-append done (e ∷ rest), top-append done (f ∷ rest))

module _ (e : Entry) (rest : List Entry) where
  pub Ordered-remove :
      (lo : ℕ) (done : List Entry) → Ordered lo (done ++ (e ∷ rest)) → Ordered lo (done ++ rest)
  Ordered-remove lo [] o = Ordered-weaken (entry_end e) lo rest (omega arith) o.3
  Ordered-remove lo (x ∷ done) o = (o.0, o.1, o.2, Ordered-remove (entry_end x) done o.3)

  pub type_at_remove :
      (done : List Entry) (a : ℕ)
      → in_range e.base e.length a ≡ false
      → type_at (done ++ (e ∷ rest)) a ≡ type_at (done ++ rest) a
  unfolding type_at
  type_at_remove [] a off = rw off
  type_at_remove (x ∷ done) a off = rw (type_at_remove done a off)

  pub top_remove :
      (done : List Entry) (k : ℕ)
      → entry_end e ≤ k
      → max (top (done ++ (e ∷ rest))) k ≤ max (top (done ++ rest)) k
  top_remove done k h = omega (arith, top-append done (e ∷ rest), top-append done rest)

-- The last entry starts below the largest end.
pub last_of_base :
    (lo : ℕ) (e : Entry) (rest : List Entry)
    → Ordered lo (e ∷ rest)
    → (last_of e rest).base < max (entry_end e) (top rest)
last_of_base lo e [] o = omega arith
last_of_base lo e (x ∷ rest) o = omega (arith, last_of_base (entry_end e) x rest o.3)
