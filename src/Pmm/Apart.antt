-- ===== src/Pmm/Apart.antt =====
-- How the entries of the map of pre_kernel/src/memory/pmm.c lie to a range: apart from it, or
-- overlapping it in one of the ways that a round of the loop of `pmm_map_set` tells apart.
use lunar_prekernel.Base.{
  ℕ, ◌+◌, ◌≤◌, ◌<◌, ◌≡◌, refl, ap, ◌⊎◌, inl, inr, true, none, List, [], ◌∷◌, ◌++◌, max, arith, All,
}
use native.Mathlib.Decide.{dec_lt}
use lunar_prekernel.Pmm.{Entry}
use lunar_prekernel.Pmm.Spans.{entry_end, in_range, type_at, Ordered, bound}

abbrev pub Apart : ℕ → ℕ → Entry → Type 0
Apart b n e = (entry_end e ≤ b) ⊎ (b + n ≤ e.base)

-- The range shares one end with the entry and reaches over the other.
abbrev pub Edge : ℕ → ℕ → Entry → Type 0
Edge b n e = ((b ≡ e.base) × (entry_end e < b + n)) ⊎ ((b < e.base) × (entry_end e ≡ b + n))

-- The ways that an entry lies to a range, but for `Edge`.
pub data Lies (b n : ℕ) (e : Entry) : Type 0 where
  apart : Apart b n e → Lies b n e
  front : e.base < b → b < entry_end e → entry_end e ≤ b + n → Lies b n e
  back : b ≤ e.base → e.base < b + n → b + n < entry_end e → Lies b n e
  round_it : e.base < b → b + n < entry_end e → Lies b n e
  covered : ((b < e.base) × (entry_end e < b + n)) ⊎ ((b ≡ e.base) × (n ≡ e.length)) → Lies b n e

pub lies : (b n : ℕ) (e : Entry) → ¬ (Edge b n e) → Lies b n e
lies b n e h = elim (dec_lt b (entry_end e)) [
  | no p ↦ Lies.apart (inl (omega arith))
  | yes p ↦ elim (dec_lt e.base (b + n)) [
    | no q ↦ Lies.apart (inr (omega arith))
    | yes q ↦ elim (dec_lt e.base b) [
      | yes r ↦ elim (dec_lt (b + n) (entry_end e)) [
        | yes s ↦ Lies.round_it r s
        | no s ↦ Lies.front r p (omega arith)
      ]
      | no r ↦ elim (dec_lt (b + n) (entry_end e)) [
        | yes s ↦ Lies.back (omega arith) q s
        | no s ↦ Lies.covered (elim (dec_lt b e.base) [
          | yes u ↦ inl (u, ground arith)
          | no u ↦ inr (omega arith, ground arith)
        ])
      ]
    ]
  ]
]

-- Entries that give no type to the range lie apart from it.
pub Apart-of_none :
    (lo b n : ℕ) (es : List Entry)
    → 0 < n
    → Ordered lo es
    → ((a : ℕ) → in_range b n a ≡ true → type_at es a ≡ none)
    → All (Apart b n) es
unfolding type_at
Apart-of_none lo b n [] pos o h = tt
Apart-of_none lo b n (e ∷ es) pos o h =
    (head, Apart-of_none (entry_end e) b n es pos o.3 (λ a i. ground (arith, h a i)))
  where
    head : Apart b n e
    head = elim (dec_lt b (entry_end e)) [
      | no p ↦ inl (omega arith)
      | yes p ↦ elim (dec_lt e.base (b + n)) [
        | no q ↦ inr (omega arith)
        | yes q ↦ absurd (ground (arith, h (max b e.base)))
      ]
    ]

-- Ordered entries apart from a range fall into those that end before it and those behind it.
pub split-Apart :
    (lo b n : ℕ) (es : List Entry)
    → lo ≤ b
    → Ordered lo es
    → All (Apart b n) es
    → (pre : List Entry) × (post : List Entry) × (es ≡ pre ++ post)
      × (bound lo pre ≤ b)
      × Ordered (b + n) post
split-Apart lo b n [] low o h = ([], [], refl, low, tt)
split-Apart lo b n (e ∷ es) low o (inr above, rest) =
    ([], e ∷ es, refl, low, (above, o.1, o.2, o.3))
split-Apart lo b n (e ∷ es) low o (inl below, rest) =
    let (pre, post, same, high, after) = split-Apart (entry_end e) b n es below o.3 rest in
    (e ∷ pre, post, ap (◌∷◌ e) same, high, after)
