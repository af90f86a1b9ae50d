-- ===== src/Pagedb/Pages.antt =====
-- The single pages that pre_kernel/src/memory/pagedb.c maps for the segments of its plan.
use lunar_prekernel.Pagedb.{map_records, map_entries, next_segment, ℕ, List, Outcome}
use lunar_prekernel.Pagedb.Segments.{plan, Rising, plan-Rising, next_segment-some}
use lunar_prekernel.Pagedb.Covers.{RecordsFit, records_bounds, map_plan, map_entries-map_plan}
use lunar_prekernel.Base.{
  ℕ, zero, suc, ◌+◌, ◌-◌, ◌*◌, ◌/◌, ◌%◌, ◌≤◌, ◌<◌, ◌≡◌, refl, ◌∙◌, subst, inl, inr, true, false,
  List, [], ◌∷◌, arith, ltb, Option-cases, All, u64_mod, add64, sub64, add64-eq-add, sub64-eq-sub,
  Outcome, ok, panic, fault, out_of_fuel, ◌>>=◌, bind_same,
}
use lunar_prekernel.Pmm.Alloc.{page, pmm_alloc_ext}
use lunar_prekernel.Pmm.{Entry, used}
use lunar_prekernel.Ptm.{Machine}

-- So many pages one behind the other, and then some more
abbrev pub pages_then : ℕ → ℕ → List ℕ → List ℕ
pages_then zero at rest = rest
pages_then (suc k) at rest = at ∷ pages_then k (at + page) rest

-- The pages of some segments
abbrev pub pages_of : List (ℕ × ℕ) → List ℕ
pages_of [] = []
pages_of ((start, end) ∷ rest) = pages_then ((end - start) / page) start (pages_of rest)

-- The pages lie one behind the other, none over another.
abbrev pub Spaced : ℕ → List ℕ → Type 0
Spaced lo [] = Unit
Spaced lo (at ∷ rest) = (lo ≤ at) × Spaced (at + page) rest

-- Segments of whole pages below the end of the address space
abbrev Whole : ℕ × ℕ → Type 0
Whole (start, end) = (start < end) × ((end - start) % page ≡ 0) × (end < u64_mod)

Spaced-weaken : (lo lo' : ℕ) (pages : List ℕ) → lo' ≤ lo → Spaced lo pages → Spaced lo' pages
Spaced-weaken lo lo' [] low spaced = tt
Spaced-weaken lo lo' (at ∷ rest) low spaced = (omega (arith, spaced.0), spaced.1)

pages_then-Spaced :
    (k lo at : ℕ) (rest : List ℕ)
    → lo ≤ at
    → Spaced (at + k * page) rest
    → Spaced lo (pages_then k at rest)
pages_then-Spaced zero lo at rest above later =
    Spaced-weaken (at + 0 * page) lo rest (omega arith) later
pages_then-Spaced (suc k) lo at rest above later =
    let next : at + suc k * page ≡ at + page + k * page = omega arith in
    (
      above,
      pages_then-Spaced k (at + page) (at + page) rest (omega arith)
          (subst (λ x. Spaced x rest) next later),
    )

module _ (pagedb_base size : ℕ) where
  plan-Whole :
      (es : List Entry) (mapped_end : ℕ)
      → All (RecordsFit pagedb_base size) es
      → pagedb_base ≤ mapped_end
      → (mapped_end - pagedb_base) % page ≡ 0
      → All Whole (plan pagedb_base size es mapped_end)
  plan-Whole [] mapped_end fits above aligned = tt
  plan-Whole (e ∷ es) mapped_end fits above aligned =
      elim (Option-cases (next_segment pagedb_base size mapped_end e)) [
        | inl h ↦ rw h (plan-Whole es mapped_end fits.1 above aligned)
        | inr ((start, end), h) ↦
            let b = records_bounds pagedb_base size e fits.0 in
            let k = next_segment-some pagedb_base size mapped_end start end e h in
            rw h (
              (k.3, omega (arith, b.1, b.4, b.6, k), omega (arith, b.7, k)),
              plan-Whole es end fits.1 (omega (arith, b.1, k)) (omega (arith, b.6, k)),
            )
      ]

bind_assoc :
    {A B C : Type 0} (o : Outcome A) (f : A → Outcome B) (g : B → Outcome C)
    → ((o >>= f) >>= g) ≡ (o >>= λ a. f a >>= g)
bind_assoc (ok a) f g = refl
bind_assoc (panic p) f g = refl
bind_assoc fault f g = refl
bind_assoc out_of_fuel f g = refl

module _ (ptm_map : ℕ → ℕ → ℕ → ℕ → Machine → Outcome Machine) where
  -- A page of its own for each address, to be read and written there
  abbrev pub map_each : List ℕ → Machine → Outcome Machine
  map_each [] s = ok s
  map_each (at ∷ rest) s = pmm_alloc_ext 1 page used s.pmm >>= λ (phys, m).
      ptm_map at phys page 6 (record s { pmm = m }) >>= λ s'. map_each rest s'

  map_records-map_each :
      (k fuel at end : ℕ) (rest : List ℕ) (s : Machine)
      → end ≡ at + k * page
      → end < u64_mod
      → k < fuel
      → (map_records ptm_map fuel at end s >>= λ s'. map_each rest s')
        ≡ map_each (pages_then k at rest) s
  unfolding map_records
  map_records-map_each k zero at end rest s whole fits enough = absurd (omega arith)
  map_records-map_each zero (suc fuel) at end rest s whole fits enough =
      let done : ltb at end ≡ false = ground arith in rw (done, map_records)
  map_records-map_each (suc k) (suc fuel) at end rest s whole fits enough =
      let more : ltb at end ≡ true = ground arith in
      let next : add64 at page ≡ at + page = add64-eq-add at page (omega arith) in
      rw (more, map_records, next)
        (bind_assoc (pmm_alloc_ext 1 page used s.pmm) _ _
          ∙ bind_same (pmm_alloc_ext 1 page used s.pmm) _ _ λ got.
            bind_assoc (ptm_map at got.0 page 6 (record s { pmm = got.1 })) _ _
            ∙ bind_same (ptm_map at got.0 page 6 (record s { pmm = got.1 })) _ _ λ s'.
              map_records-map_each k fuel (at + page) end rest s' (omega arith) fits (omega arith))

  map_plan-map_each :
      (segments : List (ℕ × ℕ)) (s : Machine)
      → All Whole segments
      → map_plan ptm_map segments s ≡ map_each (pages_of segments) s
  map_plan-map_each [] s whole = refl
  map_plan-map_each ((start, end) ∷ rest) s whole =
      let long : sub64 end start ≡ end - start =
        sub64-eq-sub end start (omega (arith, whole.0)) (omega (arith, whole.0)) in
      bind_same (map_records ptm_map (sub64 end start / page + 2) start end s) _ _
        (λ s'. map_plan-map_each rest s' whole.1)
      ∙ map_records-map_each ((end - start) / page) (sub64 end start / page + 2) start end
          (pages_of rest) s (omega (arith, whole.0)) (omega (arith, whole.0)) (omega (arith, long))

pages_of-Spaced :
    (lo : ℕ) (segments : List (ℕ × ℕ))
    → Rising lo segments
    → All Whole segments
    → Spaced lo (pages_of segments)
pages_of-Spaced lo [] rising whole = tt
pages_of-Spaced lo ((start, end) ∷ rest) rising whole =
    let stop : end ≡ start + (end - start) / page * page = omega (arith, whole.0) in
    pages_then-Spaced ((end - start) / page) lo start (pages_of rest) rising.0
      (subst (λ x. Spaced x (pages_of rest)) stop (pages_of-Spaced end rest rising.2 whole.1))

-- The loop over the entries of the snapshot, whose records do not reach the end of the address space: for
-- each page of its plan, in turn, it allocates a page of memory and maps it there, to be read and
-- written. The pages of the plan lie one behind the other from the start of the page database on, so
-- none is mapped twice.
pub map_entries-map_each :
    (ptm_map : ℕ → ℕ → ℕ → ℕ → Machine → Outcome Machine) (pagedb_base size : ℕ) (es : List Entry)
    (s : Machine)
    → All (RecordsFit pagedb_base size) es
    → (map_entries ptm_map pagedb_base size pagedb_base es s
        ≡ map_each ptm_map (pages_of (plan pagedb_base size es pagedb_base)) s)
      × Spaced pagedb_base (pages_of (plan pagedb_base size es pagedb_base))
map_entries-map_each ptm_map pagedb_base size es s fits =
    let segments = plan pagedb_base size es pagedb_base in
    let whole = plan-Whole pagedb_base size es pagedb_base fits (omega arith) (omega arith) in
    (
      map_entries-map_plan ptm_map pagedb_base size es pagedb_base s
          ∙ map_plan-map_each ptm_map segments s whole,
      pages_of-Spaced pagedb_base segments (plan-Rising pagedb_base size es pagedb_base) whole,
    )
