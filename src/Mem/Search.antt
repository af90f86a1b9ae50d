-- ===== src/Mem/Search.antt =====
-- What `strstr` and `strrchr` of pre_kernel/src/runtime/mem.c find.
use native.Mathlib.Decide.{dec_lt}
use lunar_prekernel.Base.{
  ℕ, zero, suc, ◌+◌, ◌%◌, ◌≤◌, ◌<◌, ◌≡◌, refl, sym, ap, ◌∙◌, ◌⊎◌, inl, inr, true, false, ◌==◌,
  Option, none, some, arith, Outcome, ok, Bool-cases,
}
use lunar_prekernel.Mem.{Memory, matches, strstr_from, strstr, last_from, strrchr}
use lunar_prekernel.Mem.Match.{Agree, Lacks, Lacks-cons}
use lunar_prekernel.Mem.Str.{EndsAt, EndsAt-tail, Agree-tail}

Agree-rest : (a b k : ℕ) (m : Memory) → Agree a b 0 (suc k) m → Agree (suc a) (suc b) 0 k m
Agree-rest a b k m all j low high =
    let l : a + suc j ≡ suc a + j = omega arith in
    let r : b + suc j ≡ suc b + j = omega arith in
    rw (l, r) at (all (suc j) (omega arith) (omega arith))

Agree-first : (a b k : ℕ) (m : Memory) → Agree a b 0 (suc k) m → m a ≡ m b
Agree-first a b k m all =
    let l : a + 0 ≡ a = omega arith in
    let r : b + 0 ≡ b = omega arith in rw (l, r) at (all 0 (omega arith) (omega arith))

matches_lem :
    (fuel h n k : ℕ) (m : Memory)
    → k < fuel
    → EndsAt n k m
    → ((matches fuel h n m ≡ ok true) × Agree h n 0 k m)
      ⊎ ((matches fuel h n m ≡ ok false) × (¬ (Agree h n 0 k m)))
unfolding matches
matches_lem zero h n k m enough ends = absurd (omega arith)
matches_lem (suc fuel) h n zero m enough ends =
    let r : n + 0 ≡ n = omega arith in
    let ended : (m n == 0) ≡ true = ground (arith, rw r at ends.1) in
    inl (ground arith, λ j low high. absurd (omega arith))
matches_lem (suc fuel) h n (suc k) m enough ends =
    let r : n + 0 ≡ n = omega arith in
    let first : ¬ (m n ≡ 0) = λ e. ends.0 0 (omega arith) (omega arith) (rw r e) in
    elim (Bool-cases (m h == m n)) [
      | inr differ ↦ inr (ground arith, λ all. absurd (ground (arith, Agree-first h n k m all)))
      | inl same ↦
          elim (matches_lem fuel (suc h) (suc n) k m (omega arith) (EndsAt-tail n k m ends)) [
            | inl (e, all) ↦ inl (ground arith, Agree-tail h n k m (ground arith) all)
            | inr (e, lacks) ↦ inr (ground arith, λ all. lacks (Agree-rest h n k m all))
          ]
    ]

-- The `k` bytes of the needle stand at none of the first `hi` indices.
abbrev pub Absent : ℕ → ℕ → ℕ → ℕ → Memory → Type 0
Absent h n k hi m = (j : ℕ) → j < hi → ¬ (Agree (h + j) n 0 k m)

-- The outcome of a search of the first `hi` indices for the `k` bytes of the needle.
abbrev pub Locates : ℕ → ℕ → ℕ → ℕ → Memory → Outcome (Option ℕ) → Type 0
Locates h n k hi m out =
    ((out ≡ ok none) × Absent h n k hi m)
    ⊎ ((i : ℕ) × (i < hi) × Absent h n k i m × Agree (h + i) n 0 k m × (out ≡ ok (some (h + i))))

Absent-cons :
    (h n k hi : ℕ) (m : Memory)
    → ¬ (Agree h n 0 k m)
    → Absent (suc h) n k hi m
    → Absent h n k (suc hi) m
Absent-cons h n k hi m first rest zero high = let l : h + 0 ≡ h = omega arith in rw l first
Absent-cons h n k hi m first rest (suc j) high =
    let l : h + suc j ≡ suc h + j = omega arith in rw l (rest j (omega arith))

strstr_from_lem :
    (fuel inner h n hi k : ℕ) (m : Memory)
    → hi < fuel
    → k < inner
    → EndsAt h hi m
    → EndsAt n k m
    → Locates h n k hi m (strstr_from fuel inner h n m)
unfolding strstr_from
strstr_from_lem zero inner h n hi k m enough enough' ends ends' = absurd (omega arith)
strstr_from_lem (suc fuel) inner h n zero k m enough enough' ends ends' =
    let l : h + 0 ≡ h = omega arith in
    let ended : (m h == 0) ≡ true = ground (arith, rw l at ends.1) in
    rw ended (inl (refl, λ j high. absurd (omega arith)))
strstr_from_lem (suc fuel) inner h n (suc hi) k m enough enough' ends ends' =
    let l : h + 0 ≡ h = omega arith in
    let first : ¬ (m h ≡ 0) = λ e. ends.0 0 (omega arith) (omega arith) (rw l e) in
    let more : (m h == 0) ≡ false = ground (arith, first) in
    elim (matches_lem inner h n k m enough' ends') [
      | inl (e, all) ↦
          rw (more, e)
            (inr (
              0,
              omega arith,
              (λ j high. absurd (omega arith)),
              rw l all,
              ap (λ a. ok (some a)) (sym l),
            ))
      | inr (e, lacks) ↦
          rw (more, e)
            (elim (strstr_from_lem fuel inner (suc h) n hi k m (omega arith) enough'
              (EndsAt-tail h hi m ends) ends') [
                | inl (v, absent) ↦ inl (v, Absent-cons h n k hi m lacks absent)
                | inr (i, below, absent, all, v) ↦
                    let l' : h + suc i ≡ suc h + i = omega arith in
                    inr (
                      suc i,
                      omega arith,
                      Absent-cons h n k i m lacks absent,
                      rw l' all,
                      v ∙ ap (λ a. ok (some a)) (sym l'),
                    )
              ])
    ]

-- `strstr` returns where the needle first stands in the haystack, and the null pointer if it stands
-- nowhere; an empty needle stands at the start. Both strings end, and the fuel is more than the
-- length of each.
pub strstr_lem :
    (fuel h n hi k : ℕ) (m : Memory)
    → hi < fuel
    → k < fuel
    → EndsAt h hi m
    → EndsAt n k m
    → Locates h n k (suc hi) m (strstr fuel h n m)
unfolding strstr
strstr_lem fuel h n hi zero m enough enough' ends ends' =
    let l : h + 0 ≡ h = omega arith in
    let r : n + 0 ≡ n = omega arith in
    let empty : (m n == 0) ≡ true = ground (arith, rw r at ends'.1) in
    rw empty (
      inr (
        0,
        omega arith,
        (λ j high. absurd (omega arith)),
        (λ j low high. absurd (omega arith)),
        ap (λ a. ok (some a)) (sym l),
      ))
strstr_lem fuel h n hi (suc k) m enough enough' ends ends' =
    let r : n + 0 ≡ n = omega arith in
    let first : ¬ (m n ≡ 0) = λ e. ends'.0 0 (omega arith) (omega arith) (rw r e) in
    let more : (m n == 0) ≡ false = ground (arith, first) in
    rw more (elim (strstr_from_lem fuel fuel h n hi (suc k) m enough enough' ends ends') [
      | inr (i, below, lacks, all, v) ↦ inr (i, omega arith, lacks, all, v)
      | inl (v, absent) ↦ inl (
        v,
        λ j high. elim (dec_lt j hi) [
          | yes p ↦ absent j p
          | no p ↦ λ all.
              let same : j ≡ hi = omega arith in
              let equal : m (h + j) ≡ m n = Agree-first (h + j) n k m all in
              first (sym equal ∙ ap (λ i. m (h + i)) same ∙ ends.1)
        ],
      )
    ])

-- The outcome of a search for the last index up to `k` where the byte is `c`, where `last` was
-- found before.
abbrev FindsLast : ℕ → ℕ → ℕ → Option ℕ → Memory → Outcome (Option ℕ) → Type 0
FindsLast s c k last m out =
    ((out ≡ ok last) × Lacks s c 0 (suc k) m)
    ⊎ ((i : ℕ) × (i ≤ k)
        × Lacks s c (suc i) (suc k) m
        × (m (s + i) ≡ c)
        × (out ≡ ok (some (s + i))))

Lacks-shift : (s c lo hi : ℕ) (m : Memory) → Lacks (suc s) c lo hi m → Lacks s c (suc lo) (suc hi) m
Lacks-shift s c lo hi m h zero low high = absurd (omega arith)
Lacks-shift s c lo hi m h (suc j) low high =
    let l : s + suc j ≡ suc s + j = omega arith in rw l (h j (omega arith) (omega arith))

last_from_lem :
    (fuel s c k : ℕ) (last : Option ℕ) (m : Memory)
    → k < fuel
    → EndsAt s k m
    → FindsLast s (c % 256) k last m (last_from fuel s c last m)
unfolding last_from
last_from_lem zero s c k last m enough ends = absurd (omega arith)
last_from_lem (suc fuel) s c zero last m enough ends =
    let l : s + 0 ≡ s = omega arith in
    let ended : (m s == 0) ≡ true = ground (arith, rw l at ends.1) in
    elim (Bool-cases (m s == c % 256)) [
      | inl here ↦
          rw (ended, here)
            (inr (
              0,
              omega arith,
              (λ j low high. absurd (omega arith)),
              rw l (ground arith),
              ap (λ a. ok (some a)) (sym l),
            ))
      | inr other ↦
          rw (ended, other)
            (inl (
              refl,
              Lacks-cons s (c % 256) 0 1 m (rw l (ground arith))
                  (λ j low high. absurd (omega arith)),
            ))
    ]
last_from_lem (suc fuel) s c (suc k) last m enough ends =
    let l : s + 0 ≡ s = omega arith in
    let first : ¬ (m s ≡ 0) = λ e. ends.0 0 (omega arith) (omega arith) (rw l e) in
    let more : (m s == 0) ≡ false = ground (arith, first) in
    let on = λ (found : Option ℕ).
      last_from_lem fuel (suc s) c k found m (omega arith) (EndsAt-tail s k m ends) in
    elim (Bool-cases (m s == c % 256)) [
      | inl here ↦
          rw (more, here)
            (elim (on (some s)) [
              | inl (v, lacks) ↦ inr (
                0,
                omega arith,
                Lacks-shift s (c % 256) 0 (suc k) m lacks,
                rw l (ground arith),
                v ∙ ap (λ a. ok (some a)) (sym l),
              )
              | inr found ↦ inr (later s (c % 256) k m _ found)
            ])
      | inr other ↦
          rw (more, other)
            (elim (on last) [
              | inl (v, lacks) ↦ inl (
                v,
                Lacks-cons s (c % 256) 0 (suc (suc k)) m (rw l (ground arith))
                    (Lacks-shift s (c % 256) 0 (suc k) m lacks),
              )
              | inr found ↦ inr (later s (c % 256) k m _ found)
            ])
    ]
  where
    later :
        (s c k : ℕ) (m : Memory) (out : Outcome (Option ℕ))
        → (i : ℕ) × (i ≤ k)
          × Lacks (suc s) c (suc i) (suc k) m
          × (m (suc s + i) ≡ c)
          × (out ≡ ok (some (suc s + i)))
        → (i : ℕ) × (i ≤ suc k)
          × Lacks s c (suc i) (suc (suc k)) m
          × (m (s + i) ≡ c)
          × (out ≡ ok (some (s + i)))
    later s c k m out (i, below, lacks, is, v) =
        let l' : s + suc i ≡ suc s + i = omega arith in
        (
          suc i,
          omega arith,
          Lacks-shift s c (suc i) (suc k) m lacks,
          rw l' is,
          v ∙ ap (λ a. ok (some a)) (sym l'),
        )

-- `strrchr` returns the address of the last byte of the string that is the low byte of `c`, the
-- final 0 included, and the null pointer if none is; the fuel is more than the string's length.
strrchr_lem :
    (fuel s c k : ℕ) (m : Memory)
    → k < fuel
    → EndsAt s k m
    → FindsLast s (c % 256) k none m (strrchr fuel s c m)
unfolding strrchr
strrchr_lem fuel s c k m enough ends = last_from_lem fuel s c k none m enough ends
