-- ===== src/Mem/Match.antt =====
-- What the functions of pre_kernel/src/runtime/mem.c that read a counted range return.
use native.Mathlib.Decide.{dec_lt}
use lunar_prekernel.Base.{
  ℕ, zero, suc, ◌+◌, ◌%◌, ◌≤◌, ◌<◌, ◌≡◌, refl, ◌⊎◌, inl, inr, true, false, ltb, ◌==◌, Option, none,
  some, arith, Bool-cases,
}
use lunar_prekernel.Mem.{Memory, ℤ, pos, negsuc, compare_from, memcmp, find_byte, memchr}

-- The bytes at the indices from `lo` to `hi` are the same behind both pointers.
abbrev pub Agree : ℕ → ℕ → ℕ → ℕ → Memory → Type 0
Agree a b lo hi m = (j : ℕ) → lo ≤ j → j < hi → m (a + j) ≡ m (b + j)

-- None of these bytes is `c`.
abbrev pub Lacks : ℕ → ℕ → ℕ → ℕ → Memory → Type 0
Lacks s c lo hi m = (j : ℕ) → lo ≤ j → j < hi → ¬ (m (s + j) ≡ c)

pub Agree-cons :
    (a b lo hi : ℕ) (m : Memory)
    → m (a + lo) ≡ m (b + lo)
    → Agree a b (suc lo) hi m
    → Agree a b lo hi m
Agree-cons a b lo hi m first rest j low high = elim (dec_lt lo j) [
  | yes p ↦ rest j p high
  | no p ↦ let same : j ≡ lo = omega arith in rw same first
]

pub Lacks-cons :
    (s c lo hi : ℕ) (m : Memory) → ¬ (m (s + lo) ≡ c) → Lacks s c (suc lo) hi m → Lacks s c lo hi m
Lacks-cons s c lo hi m first rest j low high = elim (dec_lt lo j) [
  | yes p ↦ rest j p high
  | no p ↦ let same : j ≡ lo = omega arith in rw same first
]

-- The value tells how the bytes at the first index that differs compare.
abbrev pub Tells : ℕ → ℕ → ℤ → Type 0
Tells a b v = ((b < a) × (v ≡ negsuc 0)) ⊎ ((a < b) × (v ≡ pos 1))

-- A comparison of the indices from `lo` to `hi`.
abbrev pub Compares : ℕ → ℕ → ℕ → ℕ → Memory → ℤ → Type 0
Compares lhs rhs lo hi m v =
    ((v ≡ pos 0) × Agree lhs rhs lo hi m)
    ⊎ ((i : ℕ) × (lo ≤ i) × (i < hi) × Agree lhs rhs lo i m × Tells (m (lhs + i)) (m (rhs + i)) v)

compare_from_lem :
    (k i lhs rhs : ℕ) (m : Memory) → Compares lhs rhs i (i + k) m (compare_from k i lhs rhs m)
unfolding compare_from
compare_from_lem zero i lhs rhs m = inl (refl, λ j low high. absurd (omega arith))
compare_from_lem (suc k) i lhs rhs m = elim (dec_lt (m (rhs + i)) (m (lhs + i))) [
  | yes p ↦
      let over : ltb (m (rhs + i)) (m (lhs + i)) ≡ true = ground arith in
      rw over
        (inr (i, omega arith, omega arith, (λ j low high. absurd (omega arith)), inl (p, refl)))
  | no p ↦
      let not_over : ltb (m (rhs + i)) (m (lhs + i)) ≡ false = ground arith in
      elim (dec_lt (m (lhs + i)) (m (rhs + i))) [
        | yes q ↦
            let under : ltb (m (lhs + i)) (m (rhs + i)) ≡ true = ground arith in
            rw (not_over, under)
              (inr
                (i, omega arith, omega arith, (λ j low high. absurd (omega arith)), inr (q, refl)))
        | no q ↦
            let not_under : ltb (m (lhs + i)) (m (rhs + i)) ≡ false = ground arith in
            let same : m (lhs + i) ≡ m (rhs + i) = omega arith in
            rw (not_over, not_under)
              (elim (compare_from_lem k (suc i) lhs rhs m) [
                | inl (v, all) ↦ inl (
                  v,
                  Agree-cons lhs rhs i (i + suc k) m same (λ j low high. all j low (omega arith)),
                )
                | inr (d, low, high, all, tells) ↦
                    inr (d, omega arith, omega arith, Agree-cons lhs rhs i d m same all, tells)
              ])
      ]
]

-- `memcmp` is 0 if all `count` bytes agree; else, at the first index that differs, it is -1 if the
-- left byte is the larger one and 1 if it is the smaller one.
pub memcmp_lem :
    (lhs rhs count : ℕ) (m : Memory) → Compares lhs rhs 0 count m (memcmp lhs rhs count m)
unfolding memcmp
memcmp_lem lhs rhs count m =
    let sum : 0 + count ≡ count = omega arith in rw sum at (compare_from_lem count 0 lhs rhs m)

-- A search of the indices from `lo` to `hi` for a byte.
abbrev pub Finds : ℕ → ℕ → ℕ → ℕ → Memory → Option ℕ → Type 0
Finds s c lo hi m v =
    ((v ≡ none) × Lacks s c lo hi m)
    ⊎ ((i : ℕ) × (lo ≤ i) × (i < hi) × Lacks s c lo i m × (m (s + i) ≡ c) × (v ≡ some (s + i)))

find_byte_lem : (k i s c : ℕ) (m : Memory) → Finds s (c % 256) i (i + k) m (find_byte k i s c m)
unfolding find_byte
find_byte_lem zero i s c m = inl (refl, λ j low high. absurd (omega arith))
find_byte_lem (suc k) i s c m = elim (Bool-cases (m (s + i) == c % 256)) [
  | inl here ↦
      let is : m (s + i) ≡ c % 256 = ground arith in
      rw here (inr (i, omega arith, omega arith, (λ j low high. absurd (omega arith)), is, refl))
  | inr other ↦
      let differs : ¬ (m (s + i) ≡ c % 256) = ground arith in
      rw other (elim (find_byte_lem k (suc i) s c m) [
        | inl (v, all) ↦ inl (
          v,
          Lacks-cons s (c % 256) i (i + suc k) m differs (λ j low high. all j low (omega arith)),
        )
        | inr (d, low, high, all, is, v) ↦
            inr (d, omega arith, omega arith, Lacks-cons s (c % 256) i d m differs all, is, v)
      ])
]

-- `memchr` returns the address of the first of the `n` bytes that is the low byte of `c`, and the
-- null pointer if none is.
pub memchr_lem : (s c n : ℕ) (m : Memory) → Finds s (c % 256) 0 n m (memchr s c n m)
unfolding memchr
memchr_lem s c n m = let sum : 0 + n ≡ n = omega arith in rw sum at (find_byte_lem n 0 s c m)
