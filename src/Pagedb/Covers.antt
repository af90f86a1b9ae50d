-- ===== src/Pagedb/Covers.antt =====
-- What pre_kernel/src/memory/pagedb.c maps: the pages of its plan, in which each page of memory that an
-- entry counts has its record.

use native.Mathlib.Nat.{mul-le-mul_right}
use lunar_prekernel.Base.{
  ℕ, suc, ◌+◌, ◌-◌, ◌*◌, ◌/◌, ◌%◌, ◌≤◌, ◌<◌, ◌≡◌, ◌≢◌, refl, ◌∙◌, inl, inr, true, List, [], ◌∷◌,
  ◌++◌, arith, Option-cases, All, u64_mod, sub64, add64-eq-add, mul64-eq-mul, Outcome, ok, ◌>>=◌,
  bind_same,
}
use lunar_prekernel.Ptm.{Machine}
use lunar_prekernel.Pmm.{
  Entry, MapType, free, allocated, used, reserved, bad, acpi_reclaimable, acpi_nvs,
  bootloader_reclaimable, efi_reclaimable,
}
use lunar_prekernel.Pagedb.{
  records_start, map_records, map_entries, records_end, has_records, next_segment,
}
use lunar_prekernel.Pmm.Spans.{entry_end, Ordered}
use lunar_prekernel.Pmm.Alloc.{page}
use lunar_prekernel.Pagedb.Segments.{plan, InOrder, wanted, in_plan, in_plan_lem}
use lunar_prekernel.Math.Align.{math_floor_lem, math_ceil_lem}
use lunar_prekernel.Math.{math_floor, math_ceil}

module _ (ptm_map : ℕ → ℕ → ℕ → ℕ → Machine → Outcome Machine) where
  -- The pages of some segments, one after another.
  abbrev pub map_plan : List (ℕ × ℕ) → Machine → Outcome Machine
  map_plan [] s = ok s
  map_plan ((start, end) ∷ rest) s =
      map_records ptm_map (sub64 end start / page + 2) start end s >>= λ s'. map_plan rest s'

  -- The loop over the entries maps the segments of its plan in turn.
  pub map_entries-map_plan :
      (pagedb_base size : ℕ) (es : List Entry) (mapped_end : ℕ) (s : Machine)
      → map_entries ptm_map pagedb_base size mapped_end es s
        ≡ map_plan (plan pagedb_base size es mapped_end) s
  unfolding map_entries
  map_entries-map_plan pagedb_base size [] mapped_end s = refl
  map_entries-map_plan pagedb_base size (e ∷ es) mapped_end s =
      elim (Option-cases (next_segment pagedb_base size mapped_end e)) [
        | inl h ↦ rw (h, map_entries) (map_entries-map_plan pagedb_base size es mapped_end s)
        | inr ((start, end), h) ↦
            rw (h, map_entries)
              (bind_same (map_records ptm_map (sub64 end start / page + 2) start end s) _ _
                (map_entries-map_plan pagedb_base size es end))
      ]

module _ (pagedb_base size : ℕ) where
  -- The records of an entry end a page before the end of the address space.
  abbrev pub RecordsFit : Entry → Type 0
  RecordsFit e =
      (entry_end e < u64_mod) × (pagedb_base + entry_end e / page * size + page ≤ u64_mod)

  pub records_bounds :
      (e : Entry)
      → RecordsFit e
      → (floor : ℕ) × (records_start pagedb_base size e ≡ pagedb_base + floor)
        × (floor ≤ e.base / page * size)
        × (e.base / page * size < floor + page)
        × (floor % page ≡ 0)
        × (pagedb_base + entry_end e / page * size ≤ records_end pagedb_base size e)
        × ((records_end pagedb_base size e - pagedb_base) % page ≡ 0)
        × (records_end pagedb_base size e < u64_mod)
  unfolding records_start records_end
  records_bounds e fits =
      let first = e.base / page * size in
      let last = entry_end e / page * size in
      let up : first ≤ last = mul-le-mul_right size (omega arith) in
      let low = math_floor_lem first page (omega arith) (omega (arith, up, fits)) in
      let high = math_ceil_lem last page (omega arith) (omega (arith, fits)) in
      rw
        (
          add64-eq-add e.base e.length fits.0,
          mul64-eq-mul (e.base / page) size (omega (arith, up, fits)),
          mul64-eq-mul (entry_end e / page) size (omega (arith, fits)),
          add64-eq-add pagedb_base (math_floor first page) (omega (arith, low, up, fits)),
          add64-eq-add pagedb_base (math_ceil last page) (omega (arith, high, fits)),
        )
        (
          math_floor first page,
          refl,
          low.0,
          low.1,
          low.2,
          omega (arith, high),
          omega (arith, high.2),
          omega (arith, high, fits),
        )

  start_le :
      (e x : Entry)
      → RecordsFit e
      → RecordsFit x
      → e.base ≤ x.base
      → records_start pagedb_base size e ≤ records_start pagedb_base size x
  start_le e x fe fx h =
      let a = records_bounds e fe in
      let b = records_bounds x fx in
      let up : e.base / page * size ≤ x.base / page * size = mul-le-mul_right size (omega arith) in
      omega (arith, a, b, up)

  in_order :
      (lo : ℕ) (es : List Entry) → Ordered lo es → All RecordsFit es → InOrder pagedb_base size es
  in_order lo [] o f = tt
  in_order lo (e ∷ es) o f =
      (later (entry_end e) e es f.0 o.3 f.1 (omega arith), in_order (entry_end e) es o.3 f.1)
    where
      later :
          (b : ℕ) (x : Entry) (xs : List Entry)
          → RecordsFit x
          → Ordered b xs
          → All RecordsFit xs
          → x.base ≤ b
          → All (λ y. records_start pagedb_base size x ≤ records_start pagedb_base size y) xs
      later b x [] fx p q h = tt
      later b x (y ∷ ys) fx p q h =
          (start_le x y fx q.0 (omega arith), later (entry_end y) x ys fx p.3 q.1 (omega arith))

  wanted-append :
      (a : ℕ) (before : List Entry) (e : Entry) (after : List Entry)
      → has_records e.type ≡ true
      → records_start pagedb_base size e ≤ a
      → a < records_end pagedb_base size e
      → wanted pagedb_base size (before ++ (e ∷ after)) a ≡ true
  wanted-append a [] e after h lo hi = ground arith
  wanted-append a (x ∷ xs) e after h lo hi = ground (arith, wanted-append a xs e after h lo hi)

  -- Only bad memory has no records.
  counted_type : (t : MapType) → t ≢ bad → has_records t ≡ true
  unfolding has_records
  counted_type free h = refl
  counted_type allocated h = refl
  counted_type used h = refl
  counted_type reserved h = refl
  counted_type bad h = absurd (h refl)
  counted_type acpi_reclaimable h = refl
  counted_type acpi_nvs h = refl
  counted_type bootloader_reclaimable h = refl
  counted_type efi_reclaimable h = refl

  -- Of ordered entries whose records do not reach the end of the address space: each byte of the record
  -- of each whole page of an entry that is not bad lies in a segment of the plan.
  pub plan_covers :
      (before : List Entry) (e : Entry) (after : List Entry) (p i : ℕ)
      → Ordered 0 (before ++ (e ∷ after))
      → All RecordsFit (before ++ (e ∷ after))
      → e.type ≢ bad
      → e.base / page ≤ p
      → p < entry_end e / page
      → i < size
      → in_plan
          (plan pagedb_base size (before ++ (e ∷ after)) pagedb_base)
          (pagedb_base + p * size + i)
        ≡ true
  plan_covers before e after p i o f h from to inside =
      let a = pagedb_base + p * size + i in
      let b = records_bounds e (middle before f) in
      let low : e.base / page * size ≤ p * size = mul-le-mul_right size from in
      let high : suc p * size ≤ entry_end e / page * size = mul-le-mul_right size to in
      let next : suc p * size ≡ p * size + size = omega arith in
      in_plan_lem pagedb_base size pagedb_base a (before ++ (e ∷ after))
        (in_order 0 (before ++ (e ∷ after)) o f)
      ∙ ground (
        arith,
        wanted-append a before e after (counted_type e.type h) (omega (arith, b, low))
            (omega (arith, b, high, next)),
      )
    where
      middle : (xs : List Entry) → All RecordsFit (xs ++ (e ∷ after)) → RecordsFit e
      middle [] f' = f'.0
      middle (x ∷ xs) f' = middle xs f'.1
