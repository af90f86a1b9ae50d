-- ===== src/Init/Block.antt =====
-- The memory map that pre_kernel/src/init.c hands over: how much of the direct map it needs, the block
-- that is allocated for it, and its entries.
use lunar_prekernel.Base.{
  ℕ, suc, ◌≤◌, max, ◌≡◌, refl, sym, ap, ◌∙◌, inl, inr, Option, none, some, List, [], ◌∷◌, ◌++◌,
  append_assoc, arith, if◌then◌else◌, Bool-cases, length, All, length-append, add64, add64-eq-add,
  ok,
}
use lunar_prekernel.Pmm.{Entry, PmmMap}
use lunar_prekernel.Bootinfo.{MmEntry, MmType}
use lunar_prekernel.Pmm.Spans.{type_at, entry_end, in_range}
use lunar_prekernel.Math.{math_max}
use lunar_prekernel.Pmm.Slots.{holding, load-holding}
use lunar_prekernel.Init.{mm_entries_from, hhdm_size_from, mm_type}
use lunar_prekernel.Pmm.Valid.{IsValid, live, type_of, behind, length-live, holding-live}
use lunar_prekernel.Pmm.Sweep.{Fits, Ordered-Fits}

abbrev pub mm_entry : Entry → MmEntry
mm_entry e = record { type = mm_type e.type; phys_base = e.base; length = e.length }

abbrev pub mm_entries : List Entry → List MmEntry
mm_entries [] = []
mm_entries (e ∷ es) = mm_entry e ∷ mm_entries es

-- The type that the kernel's list gives to an address.
abbrev pub mm_type_at : List MmEntry → ℕ → Option MmType
mm_type_at [] a = none
mm_type_at (e ∷ es) a = if in_range e.phys_base e.length a then some e.type else mm_type_at es a

length-mm_entries : (es : List Entry) → length (mm_entries es) ≡ length es
length-mm_entries [] = refl
length-mm_entries (e ∷ es) = ap suc (length-mm_entries es)

mm_type_at-mm_entries :
    (es : List Entry) (a : ℕ)
    → mm_type_at (mm_entries es) a ≡ elim (type_at es a) [ none ↦ none | some t ↦ some (mm_type t) ]
unfolding type_at
mm_type_at-mm_entries [] a = refl
mm_type_at-mm_entries (e ∷ es) a = elim (Bool-cases (in_range e.base e.length a)) [
  | inl inside ↦ rw inside refl
  | inr out ↦ rw out (mm_type_at-mm_entries es a)
]

math_max_lem : (a b : ℕ) → math_max a b ≡ max a b
unfolding math_max
math_max_lem a b = ground arith

-- The largest of a size and the ends of the entries.
abbrev highest : ℕ → List Entry → ℕ
highest size [] = size
highest size (e ∷ es) = highest (max size (entry_end e)) es

module _ (stale : List Entry) where
  -- One entry further in an array.
  move_on :
      {A : Type 0} (f : ℕ → PmmMap → A) (pre : List Entry) (e : Entry) (es : List Entry)
      → f (suc (length pre)) (holding (pre ++ (e ∷ es)) stale)
        ≡ f (length (pre ++ (e ∷ []))) (holding ((pre ++ (e ∷ [])) ++ es) stale)
  move_on f pre e es =
      let index : suc (length pre) ≡ length (pre ++ (e ∷ [])) =
        omega (arith, length-append pre (e ∷ [])) in
      ap (λ i. f i (holding (pre ++ (e ∷ es)) stale)) index
      ∙ ap (λ xs. f (length (pre ++ (e ∷ []))) (holding xs stale))
          (sym (append_assoc pre (e ∷ []) es))

  mm_entries_run :
      (pre es : List Entry)
      → mm_entries_from (length es) (length pre) (holding (pre ++ es) stale) ≡ ok (mm_entries es)
  unfolding mm_entries_from
  mm_entries_run pre [] = refl
  mm_entries_run pre (e ∷ es) =
      rw
        (
          load-holding pre e es stale,
          move_on (mm_entries_from (length es)) pre e es,
          mm_entries_run (pre ++ (e ∷ [])) es,
        )
        refl

  hhdm_size_run :
      (pre es : List Entry) (size : ℕ)
      → All Fits es
      → hhdm_size_from (length es) (length pre) size (holding (pre ++ es) stale)
        ≡ ok (highest size es)
  unfolding hhdm_size_from
  hhdm_size_run pre [] size f = refl
  hhdm_size_run pre (e ∷ es) size f =
      let end : math_max size (add64 e.base e.length) ≡ max size (entry_end e) =
        ap (math_max size) (add64-eq-add e.base e.length f.0.1) ∙ math_max_lem size (entry_end e) in
      rw
        (
          load-holding pre e es stale,
          end,
          move_on (λ i m. hhdm_size_from (length es) i (max size (entry_end e)) m) pre e es,
        )
        (hhdm_size_run (pre ++ (e ∷ [])) es (max size (entry_end e)) f.1)

highest-bounds :
    (es : List Entry) (size : ℕ)
    → (size ≤ highest size es)
      × All (λ e. entry_end e ≤ highest size es) es
      × ((s : ℕ) → size ≤ s → All (λ e. entry_end e ≤ s) es → highest size es ≤ s)
highest-bounds [] size = (omega arith, tt, λ s h _. h)
highest-bounds (e ∷ es) size =
    let (low, all, least) = highest-bounds es (max size (entry_end e)) in
    (omega arith, (omega arith, all), λ s h k. least s (omega arith) k.1)

-- A valid map is its entries in use and the slots behind them.
whole :
    {A : Type 0} (f : ℕ → PmmMap → A) (a : A) (m : PmmMap)
    → IsValid m
    → f (length (live m)) (holding (live m) (behind m)) ≡ a
    → f m.size m ≡ a
whole f a m v e =
    ap (λ k. f k m) (sym (length-live m v)) ∙ ap (f (length (live m))) (sym (holding-live m v)) ∙ e

-- `hhdm_size` of a valid map is the least size that is no less than what the boot protocol gave and
-- reaches the end of each entry.
pub hhdm_size_lem :
    (boot : ℕ) (m : PmmMap)
    → IsValid m
    → (size : ℕ) × (hhdm_size_from m.size 0 boot m ≡ ok size)
      × (boot ≤ size)
      × All (λ e. entry_end e ≤ size) (live m)
      × ((s : ℕ) → boot ≤ s → All (λ e. entry_end e ≤ s) (live m) → size ≤ s)
hhdm_size_lem boot m v =
    let (low, all, least) = highest-bounds (live m) boot in
    let run = hhdm_size_run (behind m) [] (live m) boot (Ordered-Fits 0 (live m) v.ordered) in
    (highest boot (live m), whole (λ k. hhdm_size_from k 0 boot) _ m v run, low, all, least)

-- The loop that writes the memory map, of a valid map: the kernel's list has the entries in use, one
-- for one, and gives each address the kernel's name for the type that the map gives it.
pub mm_entries_lem :
    (m : PmmMap)
    → IsValid m
    → (out : List MmEntry) × (mm_entries_from m.size 0 m ≡ ok out)
      × (length out ≡ m.size)
      × ((a : ℕ)
          → mm_type_at out a ≡ elim (type_of m a) [ none ↦ none | some t ↦ some (mm_type t) ])
mm_entries_lem m v =
    let run = mm_entries_run (behind m) [] (live m) in
    (
      mm_entries (live m),
      whole (λ k. mm_entries_from k 0) _ m v run,
      length-mm_entries (live m) ∙ length-live m v,
      mm_type_at-mm_entries (live m),
    )
