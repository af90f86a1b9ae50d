-- ===== src/Mem/Str.antt =====
-- What the functions of pre_kernel/src/runtime/mem.c on strings that end with a 0 byte return.
use native.Mathlib.Decide.{dec_lt}
use lunar_prekernel.Base.{
  ℕ, zero, suc, ◌+◌, ◌≤◌, ◌<◌, ◌≡◌, ◌≢◌, refl, ap, ◌∙◌, ◌⊎◌, inl, inr, true, false, ◌==◌, arith, ok,
  min, Bool-cases,
}
use lunar_prekernel.Mem.{
  Memory, byte_difference, strlen_from, strlen, strnlen_from, strnlen, strcmp,
}
use lunar_prekernel.Mem.Match.{Agree, Lacks}

-- The string has `k` bytes, and then a 0.
abbrev pub EndsAt : ℕ → ℕ → Memory → Type 0
EndsAt s k m = Lacks s 0 0 k m × (m (s + k) ≡ 0)

strlen_from_lem :
    (fuel length str k : ℕ) (m : Memory)
    → length ≤ k
    → k < length + fuel
    → EndsAt str k m
    → strlen_from fuel length str m ≡ ok k
unfolding strlen_from
strlen_from_lem zero length str k m low enough ends = absurd (omega arith)
strlen_from_lem (suc fuel) length str k m low enough ends = elim (dec_lt length k) [
  | yes p ↦
      let more : (m (str + length) == 0) ≡ false = ground (arith, ends.0 length (omega arith) p) in
      rw more (strlen_from_lem fuel (suc length) str k m p (omega arith) ends)
  | no p ↦
      let same : length ≡ k = omega arith in
      let done : (m (str + k) == 0) ≡ true = ground (arith, ends.1) in rw (same, done)
]

-- `strlen` of a string that ends after `k` bytes is `k`; more fuel than `k` is enough.
pub strlen_lem :
    (fuel str k : ℕ) (m : Memory) → k < fuel → EndsAt str k m → strlen fuel str m ≡ ok k
unfolding strlen
strlen_lem fuel str k m enough ends =
    strlen_from_lem fuel 0 str k m (omega arith) (omega arith) ends

strnlen_from_lem :
    (rounds len s k : ℕ) (m : Memory)
    → len ≤ k
    → EndsAt s k m
    → strnlen_from rounds len s m ≡ min k (len + rounds)
unfolding strnlen_from
strnlen_from_lem zero len s k m low ends = omega arith
strnlen_from_lem (suc rounds) len s k m low ends = elim (dec_lt len k) [
  | yes p ↦
      let more : (m (s + len) == 0) ≡ false = ground (arith, ends.0 len (omega arith) p) in
      rw more (strnlen_from_lem rounds (suc len) s k m p ends ∙ omega arith)
  | no p ↦
      let same : len ≡ k = omega arith in
      let done : (m (s + k) == 0) ≡ true = ground (arith, ends.1) in rw (same, done) (omega arith)
]

-- `strnlen` of a string that ends after `k` bytes is `k`, but no more than `maxlen`.
pub strnlen_lem : (s maxlen k : ℕ) (m : Memory) → EndsAt s k m → strnlen s maxlen m ≡ min k maxlen
unfolding strnlen
strnlen_lem s maxlen k m ends = strnlen_from_lem maxlen 0 s k m (omega arith) ends ∙ omega arith

-- A string without its first byte.
pub EndsAt-tail : (s k : ℕ) (m : Memory) → EndsAt s (suc k) m → EndsAt (suc s) k m
EndsAt-tail s k m ends = (
  (λ j low high e.
      let moved : suc s + j ≡ s + suc j = omega arith in
      ends.0 (suc j) (omega arith) (omega arith) (rw moved at e)),
  let moved : suc s + k ≡ s + suc k = omega arith in rw moved ends.1,
)

pub Agree-tail :
    (a b k : ℕ) (m : Memory) → m a ≡ m b → Agree (suc a) (suc b) 0 k m → Agree a b 0 (suc k) m
Agree-tail a b k m first rest zero low high =
    let l : a + 0 ≡ a = omega arith in let r : b + 0 ≡ b = omega arith in rw (l, r) first
Agree-tail a b k m first rest (suc j) low high =
    let l : a + suc j ≡ suc a + j = omega arith in
    let r : b + suc j ≡ suc b + j = omega arith in rw (l, r) (rest j (omega arith) (omega arith))

-- `strcmp`, where the first string ends after `k` bytes and the fuel is more than `k`, returns the
-- difference of the bytes at an index up to which the strings agree; there they differ, or both
-- strings or the first one end.
pub strcmp_lem :
    (fuel s1 s2 k : ℕ) (m : Memory)
    → k < fuel
    → EndsAt s1 k m
    → (i : ℕ) × (i ≤ k)
      × Agree s1 s2 0 i m
      × ((i ≡ k) ⊎ (m (s1 + i) ≢ m (s2 + i)))
      × (strcmp fuel s1 s2 m ≡ ok (byte_difference (m (s1 + i)) (m (s2 + i))))
unfolding strcmp
strcmp_lem zero s1 s2 k m enough ends = absurd (omega arith)
strcmp_lem (suc fuel) s1 s2 zero m enough ends =
    let l : s1 + 0 ≡ s1 = omega arith in
    let r : s2 + 0 ≡ s2 = omega arith in
    let ended : (m s1 == 0) ≡ true = ground (arith, rw l at ends.1) in
    (0, omega arith, (λ j low high. absurd (omega arith)), inl refl, rw (l, r, ended))
strcmp_lem (suc fuel) s1 s2 (suc k) m enough ends =
    let l : s1 + 0 ≡ s1 = omega arith in
    let r : s2 + 0 ≡ s2 = omega arith in
    let first : ¬ (m s1 ≡ 0) = λ e. ends.0 0 (omega arith) (omega arith) (rw l e) in
    let more : (m s1 == 0) ≡ false = ground (arith, first) in
    elim (Bool-cases (m s1 == m s2)) [
      | inr differ ↦
          let other : m (s1 + 0) ≢ m (s2 + 0) = rw (l, r) (ground arith) in
          (0, omega arith, (λ j low high. absurd (omega arith)), inr other, rw (l, r, more, differ))
      | inl same ↦
          let (i, below, all, stop, result) =
            strcmp_lem fuel (suc s1) (suc s2) k m (omega arith) (EndsAt-tail s1 k m ends) in
          let l' : s1 + suc i ≡ suc s1 + i = omega arith in
          let r' : s2 + suc i ≡ suc s2 + i = omega arith in
          (
            suc i,
            omega arith,
            Agree-tail s1 s2 i m (ground arith) all,
            elim stop [ inl e ↦ inl (ap suc e) | inr other ↦ inr (rw (l', r') other) ],
            rw (more, same, l', r') result,
          )
    ]
