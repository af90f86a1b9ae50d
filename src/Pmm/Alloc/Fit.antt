-- ===== src/Pmm/Alloc/Fit.antt =====
-- Every call of the allocator of pre_kernel/src/memory/pmm.c, and what it does to the map.
use lunar_prekernel.Base.{
  ℕ, ◌+◌, ◌≤◌, ◌≡◌, refl, inl, inr, Bool, true, false, ◌||◌, List, [], ◌∷◌, arith, All, ltb,
}
use lunar_prekernel.Pmm.{MapType, Entry, rank}
use lunar_prekernel.Pmm.Spans.{entry_end, Ordered, Inside}
use lunar_prekernel.Pmm.Ready.{Yields}

forced : (b : Bool) → (b || true) ≡ true
forced true = refl
forced false = refl

-- Behind the start of an ordered list all entries lie apart from what ends before it.
apart_before :
    (t : MapType) (lo b n : ℕ) (es : List Entry)
    → Ordered lo es
    → b + n ≤ lo
    → All (Yields t true b n) es
apart_before t lo b n [] o h = tt
apart_before t lo b n (e ∷ es) o h =
    (inl (inr (omega arith)), apart_before t (entry_end e) b n es o.3 (omega arith))

Inside-ge : (lo b n : ℕ) (es : List Entry) → Ordered lo es → Inside b n es → lo ≤ b
Inside-ge lo b n [] o h = absurd h
Inside-ge lo b n (e ∷ es) o (inl h) = omega arith
Inside-ge lo b n (e ∷ es) o (inr h) = omega (arith, Inside-ge (entry_end e) b n es o.3 h)

-- A range in one entry can be forced: the others lie apart from it.
pub Inside-Yields :
    (t : MapType) (lo b n : ℕ) (es : List Entry)
    → Ordered lo es
    → Inside b n es
    → All (Yields t true b n) es
Inside-Yields t lo b n [] o h = absurd h
Inside-Yields t lo b n (e ∷ es) o (inl h) = (
  inr (forced (ltb (rank e.type) (rank t)), λ edge. omega arith),
  apart_before t (entry_end e) b n es o.3 (omega arith),
)
Inside-Yields t lo b n (e ∷ es) o (inr h) =
    (inl (inl (Inside-ge (entry_end e) b n es o.3 h)), Inside-Yields t (entry_end e) b n es o.3 h)
