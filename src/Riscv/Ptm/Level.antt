-- ===== src/Riscv/Ptm/Level.antt =====
-- The page size that `choose_target_level` (pre_kernel/src/arch/riscv64/ptm.c) picks.
use native.Mathlib.Decide.{dec_lt}
use lunar_prekernel.Base.{
  ℕ, zero, suc, ◌%◌, ◌≤◌, ◌<◌, ◌≡◌, true, false, ◌&&◌, leb, ◌==◌, arith, inl, inr, Bool-cases, min,
  mul64, ltb,
}
use lunar_prekernel.Math.{math_min}
use lunar_prekernel.Pmm.Alloc.{page}
use lunar_prekernel.Riscv.Ptm.{page_size_at_level, choose_from, choose_target_level}

-- A page of the level fits at both addresses and in what remains.
abbrev pub FitsLevel : ℕ → ℕ → ℕ → ℕ → Type 0
FitsLevel vaddr paddr remain level =
    (vaddr % page_size_at_level level ≡ 0)
    × (paddr % page_size_at_level level ≡ 0)
    × (page_size_at_level level ≤ remain)

-- The level fits, and no other up to `top` that is higher does.
abbrev pub Highest : ℕ → ℕ → ℕ → ℕ → ℕ → Type 0
Highest top vaddr paddr remain level =
    (1 ≤ level)
    × (level ≤ top)
    × FitsLevel vaddr paddr remain level
    × ((j : ℕ) → level < j → j ≤ top → ¬ (FitsLevel vaddr paddr remain j))

choose_from_lem :
    (top vaddr paddr remain : ℕ)
    → 0 < top
    → FitsLevel vaddr paddr remain 1
    → Highest top vaddr paddr remain (choose_from top vaddr paddr remain)
unfolding choose_from
choose_from_lem zero vaddr paddr remain h f = absurd (omega arith)
choose_from_lem (suc zero) vaddr paddr remain h f =
    (omega arith, omega arith, f, λ j low high. absurd (omega arith))
choose_from_lem (suc (suc k)) vaddr paddr remain h f =
    let pgsz = page_size_at_level (suc (suc k)) in
    elim (Bool-cases (vaddr % pgsz == 0 && paddr % pgsz == 0 && leb pgsz remain)) [
      | inl fits ↦ rw fits (
        omega arith,
        omega arith,
        (ground arith, ground arith, ground arith),
        λ j low high. absurd (omega arith),
      )
      | inr not_fits ↦
          let lower = choose_from_lem (suc k) vaddr paddr remain (omega arith) f in
          let refused : ¬ (FitsLevel vaddr paddr remain (suc (suc k))) =
            λ g. absurd (ground arith) in
          rw not_fits (
            lower.0,
            omega (arith, lower.1),
            lower.2,
            λ j low high. elim (dec_lt j (suc (suc k))) [
              | yes p ↦ lower.3 j low (omega arith)
              | no p ↦ let same : j ≡ suc (suc k) = omega arith in rw same refused
            ],
          )
    ]

-- `choose_target_level`, for page-aligned addresses and at least a page that remains, gives a level
-- that the tables have and of which a page fits at both addresses and in what remains; no higher level
-- up to 3 of the tables has such pages.
pub choose_target_level_lem :
    (vaddr paddr remain max_levels : ℕ)
    → 0 < max_levels
    → vaddr % page ≡ 0
    → paddr % page ≡ 0
    → page ≤ remain
    → Highest
        (min max_levels 3)
        vaddr
        paddr
        remain
        (choose_target_level vaddr paddr remain max_levels)
unfolding choose_target_level math_min page_size_at_level mul64
choose_target_level_lem vaddr paddr remain max_levels h v p r = elim (dec_lt max_levels 3) [
  | yes few ↦
      let test : ltb max_levels 3 ≡ true = ground arith in
      let least : min max_levels 3 ≡ max_levels = omega arith in
      rw (test, least) (choose_from_lem max_levels vaddr paddr remain h (v, p, r))
  | no many ↦
      let test : ltb max_levels 3 ≡ false = ground arith in
      let least : min max_levels 3 ≡ 3 = omega arith in
      rw (test, least) (choose_from_lem 3 vaddr paddr remain (omega arith) (v, p, r))
]
