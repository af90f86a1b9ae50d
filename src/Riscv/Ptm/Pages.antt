-- ===== src/Riscv/Ptm/Pages.antt =====
-- How `ptm_map` and `ptm_map_at` (pre_kernel/src/arch/riscv64/ptm.c) cut a mapping into pages, and what
-- becomes of the tables.
use lunar_prekernel.Base.{
  subst, ℕ, zero, suc, ◌+◌, ◌-◌, ◌/◌, ◌%◌, ◌≤◌, ◌<◌, ◌≡◌, ◌∙◌, ◌⊎◌, inl, inr, refl, List, [], ◌∷◌,
  min, arith, u64_mod, sub64, add64-eq-add, sub64-eq-sub, Outcome, ok, panic, out_of_memory,
  walked_into_leaf, ◌>>=◌, bind_same, true, false, ltb, ◌||◌, ◌==◌, not, mul64, Bool-cases, ap,
}
use lunar_prekernel.Pmm.Alloc.{page}
use lunar_prekernel.Ptm.{Machine}
use lunar_prekernel.Riscv.Ptm.{
  page_size_at_level, choose_target_level, map_page, map_from, ptm_map_at,
}
use lunar_prekernel.Riscv.Ptm.Level.{Highest, choose_target_level_lem}
use lunar_prekernel.Riscv.Ptm.Fresh.{IsReady}
use lunar_prekernel.Riscv.Ptm.Tables.{Tables}

-- The calls of `map_page` for pages of some levels that follow one another
unfoldable pub map_pages : ℕ → ℕ → ℕ → ℕ → ℕ → List ℕ → Machine → Outcome Machine
map_pages root levels vaddr paddr flags [] s = ok s
map_pages root levels vaddr paddr flags (l ∷ ls) s =
    map_page root levels vaddr paddr l flags s >>= λ s'.
    map_pages root levels (vaddr + page_size_at_level l) (paddr + page_size_at_level l) flags ls s'

-- The pages make up the length, each of the highest level that fits there.
abbrev pub Cut : ℕ → ℕ → ℕ → ℕ → List ℕ → Type 0
Cut levels vaddr paddr bytes [] = bytes ≡ 0
Cut levels vaddr paddr bytes (l ∷ ls) =
    Highest (min levels 3) vaddr paddr bytes l
    × Cut levels (vaddr + page_size_at_level l) (paddr + page_size_at_level l)
        (bytes - page_size_at_level l) ls

-- The levels of the highest pages that fit, one after the other, for at most so many pages
unfoldable pub pages_left : ℕ → ℕ → ℕ → ℕ → ℕ → List ℕ
pages_left zero levels vaddr paddr bytes = []
pages_left (suc fuel) levels vaddr paddr zero = []
pages_left (suc fuel) levels vaddr paddr (suc b) =
    let level = choose_target_level vaddr paddr (suc b) levels in
    let size = page_size_at_level level in
    level ∷ pages_left fuel levels (vaddr + size) (paddr + size) (suc b - size)

abbrev pub pages_of : ℕ → ℕ → ℕ → ℕ → List ℕ
pages_of levels vaddr paddr bytes = pages_left (suc (bytes / page)) levels vaddr paddr bytes

pub pages_left-next :
    (fuel levels vaddr paddr bytes level : ℕ)
    → 0 < bytes
    → choose_target_level vaddr paddr bytes levels ≡ level
    → pages_left (suc fuel) levels vaddr paddr bytes
      ≡ level
        ∷ pages_left fuel levels
            (vaddr + page_size_at_level level)
            (paddr + page_size_at_level level)
            (bytes - page_size_at_level level)
unfolding pages_left
pages_left-next fuel levels vaddr paddr zero level pos chosen = absurd (omega arith)
pages_left-next fuel levels vaddr paddr (suc b) level pos chosen = rw (pages_left, chosen) refl

-- The sizes of pages are whole multiples of the smallest one.
sizes : (l : ℕ) → 1 ≤ l → l ≤ 3 → (page_size_at_level l % page ≡ 0) × (page ≤ page_size_at_level l)
unfolding page_size_at_level mul64
sizes zero low high = absurd (omega arith)
sizes (suc zero) low high = (refl, omega arith)
sizes (suc (suc zero)) low high = (refl, omega arith)
sizes (suc (suc (suc zero))) low high = (refl, omega arith)
sizes (suc (suc (suc (suc l)))) low high = absurd (omega arith)

-- A round of the loop that maps a page
round_lem :
    (fuel root levels vaddr paddr offset bytes flags level : ℕ) (s : Machine)
    → ltb offset bytes ≡ true
    → sub64 bytes offset ≡ bytes - offset
    → choose_target_level vaddr paddr (bytes - offset) levels ≡ level
    → vaddr + page_size_at_level level < u64_mod
    → paddr + page_size_at_level level < u64_mod
    → offset + page_size_at_level level < u64_mod
    → map_from (suc fuel) root levels vaddr paddr offset bytes flags s ≡ (
        map_page root levels vaddr paddr level flags s >>= λ s'.
        map_from fuel root levels
          (vaddr + page_size_at_level level)
          (paddr + page_size_at_level level)
          (offset + page_size_at_level level)
          bytes
          flags
          s')
unfolding map_from
round_lem fuel root levels vaddr paddr offset bytes flags level s more left chosen v p o =
    let size = page_size_at_level level in
    rw (
      more,
      map_from,
      left,
      chosen,
      add64-eq-add vaddr size v,
      add64-eq-add paddr size p,
      add64-eq-add offset size o,
    )

-- What the loop does, for the bytes that are left
abbrev CutsFrom : ℕ → ℕ → ℕ → ℕ → ℕ → ℕ → ℕ → ℕ → Type 0
CutsFrom fuel root levels vaddr paddr offset bytes flags =
    Cut levels vaddr paddr (bytes - offset) (pages_left fuel levels vaddr paddr (bytes - offset))
    × ((s : Machine)
        → map_from fuel root levels vaddr paddr offset bytes flags s
          ≡ map_pages root levels vaddr paddr flags
              (pages_left fuel levels vaddr paddr (bytes - offset)) s)

with_page :
    (fuel root levels vaddr paddr offset bytes flags level : ℕ)
    → ((s : Machine)
        → map_from (suc fuel) root levels vaddr paddr offset bytes flags s ≡ (
            map_page root levels vaddr paddr level flags s >>= λ s'.
            map_from fuel root levels
              (vaddr + page_size_at_level level)
              (paddr + page_size_at_level level)
              (offset + page_size_at_level level)
              bytes
              flags
              s'))
    → pages_left (suc fuel) levels vaddr paddr (bytes - offset)
      ≡ level
        ∷ pages_left fuel levels
            (vaddr + page_size_at_level level)
            (paddr + page_size_at_level level)
            (bytes - offset - page_size_at_level level)
    → Highest (min levels 3) vaddr paddr (bytes - offset) level
    → CutsFrom fuel root levels
        (vaddr + page_size_at_level level)
        (paddr + page_size_at_level level)
        (offset + page_size_at_level level)
        bytes
        flags
    → CutsFrom (suc fuel) root levels vaddr paddr offset bytes flags
unfolding map_pages
with_page fuel root levels vaddr paddr offset bytes flags level round next best done =
    let size = page_size_at_level level in
    let rest : bytes - (offset + size) ≡ bytes - offset - size = omega arith in
    let (cut, same) =
      subst
        (λ n.
          Cut levels (vaddr + size) (paddr + size) n
            (pages_left fuel levels (vaddr + size) (paddr + size) n)
          × ((s : Machine)
              → map_from fuel root levels (vaddr + size) (paddr + size) (offset + size) bytes flags
                  s
                ≡ map_pages root levels (vaddr + size) (paddr + size) flags
                    (pages_left fuel levels (vaddr + size) (paddr + size) n) s))
        rest done in
    rw next (
      (best, cut),
      λ s. round s ∙ bind_same (map_page root levels vaddr paddr level flags s) _ _ same,
    )

-- The loop with enough rounds for the pages that are left
map_from_lem :
    (fuel root levels vaddr paddr offset bytes flags : ℕ)
    → 0 < levels
    → vaddr % page ≡ 0
    → paddr % page ≡ 0
    → (bytes - offset) % page ≡ 0
    → offset ≤ bytes
    → vaddr + (bytes - offset) < u64_mod
    → paddr + (bytes - offset) < u64_mod
    → bytes < u64_mod
    → (bytes - offset) / page < fuel
    → CutsFrom fuel root levels vaddr paddr offset bytes flags
map_from_lem zero root levels vaddr paddr offset bytes flags some_level v p l within v_fits p_fits
      b_fits enough =
    absurd (omega arith)
map_from_lem (suc fuel) root levels vaddr paddr offset bytes flags some_level v p l within v_fits
      p_fits b_fits enough =
    elim (Bool-cases (ltb offset bytes)) [
      | inr done ↦
          let all : bytes - offset ≡ 0 = ground arith in
          unfold map_from map_pages pages_left in rw all (refl, λ s. rw (done, map_from))
      | inl more ↦
          let left : sub64 bytes offset ≡ bytes - offset =
            sub64-eq-sub bytes offset within b_fits in
          let some_left : page ≤ bytes - offset = ground arith in
          let level = choose_target_level vaddr paddr (bytes - offset) levels in
          let best =
            choose_target_level_lem vaddr paddr (bytes - offset) levels some_level v p some_left in
          let size = page_size_at_level level in
          let whole = sizes level best.0 (omega (arith, best.1)) in
          let fits : size ≤ bytes - offset = best.2.2 in
          with_page fuel root levels vaddr paddr offset bytes flags level
            (λ s.
              round_lem fuel root levels vaddr paddr offset bytes flags level s more left refl
                (omega (arith, fits)) (omega (arith, fits)) (omega (arith, fits)))
            (pages_left-next fuel levels vaddr paddr (bytes - offset) level (omega arith) refl) best
            (map_from_lem fuel root levels (vaddr + size) (paddr + size) (offset + size) bytes flags
              some_level (omega (arith, whole.0, v)) (omega (arith, whole.0, p))
              (omega (arith, whole.0, l, fits)) (omega (arith, fits)) (omega (arith, fits))
              (omega (arith, fits)) b_fits (omega (arith, whole.1, fits)))
    ]

-- Only the smallest page fits into one page.
only_smallest : (l : ℕ) → 1 ≤ l → l ≤ 3 → page_size_at_level l ≤ page → l ≡ 1
unfolding page_size_at_level mul64
only_smallest zero low high fits = absurd (omega arith)
only_smallest (suc zero) low high fits = refl
only_smallest (suc (suc zero)) low high fits = absurd (omega arith)
only_smallest (suc (suc (suc zero))) low high fits = absurd (omega arith)
only_smallest (suc (suc (suc (suc l)))) low high fits = absurd (omega arith)

choose_smallest :
    (vaddr paddr levels : ℕ)
    → 0 < levels
    → vaddr % page ≡ 0
    → paddr % page ≡ 0
    → choose_target_level vaddr paddr page levels ≡ 1
choose_smallest vaddr paddr levels some_level v p =
    let best = choose_target_level_lem vaddr paddr page levels some_level v p (omega arith) in
    only_smallest (choose_target_level vaddr paddr page levels) best.0 (omega (arith, best.1))
      best.2.2

-- Of a single page, `ptm_map_at` is one call of `map_page`.
pub ptm_map_at-one :
    (root levels vaddr paddr flags : ℕ) (s : Machine)
    → 0 < levels
    → vaddr % page ≡ 0
    → paddr % page ≡ 0
    → vaddr + page < u64_mod
    → paddr + page < u64_mod
    → ptm_map_at root levels vaddr paddr page flags s
      ≡ (map_page root levels vaddr paddr 1 flags s >>= λ s'. ok s')
unfolding ptm_map_at map_pages pages_left page_size_at_level mul64
ptm_map_at-one root levels vaddr paddr flags s some_level v p v_fits p_fits =
    let aligned : (not (paddr % page == 0) || not (vaddr % page == 0) || not (page % page == 0))
        ≡ false =
      ground arith in
    let cuts =
      map_from_lem 2 root levels vaddr paddr 0 page flags some_level v p (omega arith) (omega arith)
        (omega arith) (omega arith) (omega arith) (omega arith) in
    let next =
      pages_left-next 1 levels vaddr paddr page 1 (omega arith)
        (choose_smallest vaddr paddr levels some_level v p) in
    rw aligned (cuts.1 s ∙ ap (λ ls. map_pages root levels vaddr paddr flags ls s) next)

-- The ways in which a mapping can end
abbrev pub MapsOrStops : (ℕ → ℕ) → ℕ → Outcome Machine → Type 0
MapsOrStops level_of n out =
    ((s' : Machine) × (levels : ℕ → ℕ) × (out ≡ ok s')
      × Tables levels s'
      × IsReady n s'.pmm
      × ((t : ℕ) → 0 < level_of t → levels t ≡ level_of t))
    ⊎ ((out ≡ panic out_of_memory) ⊎ (out ≡ panic walked_into_leaf))
