-- ===== src/Pmm/Spans.antt =====
-- The entries of pre_kernel/src/memory/pmm.c as a map from addresses to types: which addresses an
-- entry covers, what an ordered list of entries is, and what lies below, above and inside it.
use lunar_prekernel.Base.{
  ℕ, ◌+◌, ◌≤◌, ◌<◌, ◌≡◌, refl, ◌⊎◌, inr, Bool, ◌&&◌, Option, none, some, List, [], ◌∷◌, ◌++◌, max,
  arith, ltb, leb, if◌then◌else◌, All, u64_mod,
}
use lunar_prekernel.Pmm.{MapType, Entry}

abbrev pub entry_end : Entry → ℕ
entry_end e = e.base + e.length

-- The address `a` lies in the `n` bytes from `b` on.
abbrev pub in_range : ℕ → ℕ → ℕ → Bool
in_range b n a = leb b a && ltb a (b + n)

-- The type that a list of entries gives to an address: that of the first entry that covers it.
unfoldable pub type_at : List Entry → ℕ → Option MapType
type_at [] a = none
type_at (e ∷ es) a = if in_range e.base e.length a then some e.type else type_at es a

-- Entries from `lo` on that are not empty, do not wrap, and follow one another with no overlap.
abbrev pub Ordered : ℕ → List Entry → Type 0
Ordered lo [] = Unit
Ordered lo (e ∷ es) =
    (lo ≤ e.base) × (0 < e.length) × (entry_end e < u64_mod) × Ordered (entry_end e) es

-- Where the last entry ends.
abbrev pub bound : ℕ → List Entry → ℕ
bound lo [] = lo
bound lo (e ∷ es) = bound (entry_end e) es

-- The largest end of an entry, or 1.
abbrev pub top : List Entry → ℕ
top [] = 1
top (e ∷ es) = max (entry_end e) (top es)

-- Every entry starts below `k`.
abbrev pub Below : ℕ → List Entry → Type 0
Below k es = All (λ (s : Entry). s.base < k) es

-- One entry covers the whole range.
abbrev pub Inside : ℕ → ℕ → List Entry → Type 0
Inside b n [] = ⊥
Inside b n (e ∷ es) = ((e.base ≤ b) × (b + n ≤ entry_end e)) ⊎ Inside b n es

abbrev pub or_else : Option MapType → Option MapType → Option MapType
or_else (some t) o = some t
or_else none o = o

-- A range painted with a type over an older map.
abbrev pub paint : Bool → MapType → Option MapType → Option MapType
paint c t o = if c then some t else o

pub type_at-append :
    (xs ys : List Entry) (a : ℕ) → type_at (xs ++ ys) a ≡ or_else (type_at xs a) (type_at ys a)
unfolding type_at
type_at-append [] ys a = refl
type_at-append (x ∷ xs) ys a = ground (arith, type_at-append xs ys a)

pub type_at_below :
    (lo : ℕ) (es : List Entry) (a : ℕ) → Ordered lo es → a < lo → type_at es a ≡ none
unfolding type_at
type_at_below lo [] a h k = refl
type_at_below lo (e ∷ es) a h k = ground (arith, type_at_below (entry_end e) es a h.3)

pub bound-ge : (lo : ℕ) (es : List Entry) → Ordered lo es → lo ≤ bound lo es
bound-ge lo [] h = omega arith
bound-ge lo (e ∷ es) h = omega (arith, bound-ge (entry_end e) es h.3)

pub type_at_above :
    (lo : ℕ) (es : List Entry) (a : ℕ) → Ordered lo es → bound lo es ≤ a → type_at es a ≡ none
unfolding type_at
type_at_above lo [] a h k = refl
type_at_above lo (e ∷ es) a h k =
    ground (arith, type_at_above (entry_end e) es a h.3, bound-ge (entry_end e) es h.3)

pub bound-append : (lo : ℕ) (xs ys : List Entry) → bound lo (xs ++ ys) ≡ bound (bound lo xs) ys
bound-append lo [] ys = refl
bound-append lo (x ∷ xs) ys = bound-append (entry_end x) xs ys

pub Ordered-append :
    (lo : ℕ) (xs ys : List Entry) → Ordered lo xs → Ordered (bound lo xs) ys → Ordered lo (xs ++ ys)
Ordered-append lo [] ys h k = k
Ordered-append lo (x ∷ xs) ys h k = (h.0, h.1, h.2, Ordered-append (entry_end x) xs ys h.3 k)

pub Ordered-prefix : (lo : ℕ) (xs ys : List Entry) → Ordered lo (xs ++ ys) → Ordered lo xs
Ordered-prefix lo [] ys h = tt
Ordered-prefix lo (x ∷ xs) ys h = (h.0, h.1, h.2, Ordered-prefix (entry_end x) xs ys h.3)

pub Ordered-suffix :
    (lo : ℕ) (xs ys : List Entry) → Ordered lo (xs ++ ys) → Ordered (bound lo xs) ys
Ordered-suffix lo [] ys h = h
Ordered-suffix lo (x ∷ xs) ys h = Ordered-suffix (entry_end x) xs ys h.3

-- An ordered list stays so from a lower start.
pub Ordered-weaken : (lo lo' : ℕ) (es : List Entry) → lo' ≤ lo → Ordered lo es → Ordered lo' es
Ordered-weaken lo lo' [] k h = tt
Ordered-weaken lo lo' (e ∷ es) k h = (omega arith, h.1, h.2, h.3)

pub top-pos : (es : List Entry) → 0 < top es
top-pos [] = omega arith
top-pos (e ∷ es) = omega (arith, top-pos es)

pub top-append : (xs ys : List Entry) → top (xs ++ ys) ≡ max (top xs) (top ys)
top-append [] ys = omega (arith, top-pos ys)
top-append (x ∷ xs) ys = omega (arith, top-append xs ys)

-- What ends last is the last entry.
pub top-bound : (lo : ℕ) (es : List Entry) → Ordered lo es → top es ≤ max 1 (bound lo es)
top-bound lo [] h = omega arith
top-bound lo (e ∷ es) h =
    omega (arith, top-bound (entry_end e) es h.3, bound-ge (entry_end e) es h.3)

pub Below_weaken : (j k : ℕ) (es : List Entry) → j ≤ k → Below j es → Below k es
Below_weaken j k [] h b = tt
Below_weaken j k (e ∷ es) h b = (omega arith, Below_weaken j k es h b.1)

pub Inside-append_right : (b n : ℕ) (xs ys : List Entry) → Inside b n ys → Inside b n (xs ++ ys)
Inside-append_right b n [] ys h = h
Inside-append_right b n (x ∷ xs) ys h = inr (Inside-append_right b n xs ys h)
