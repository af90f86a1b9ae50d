-- ===== src/Pmm/Merge.antt =====
-- The slot that `pmm_map_set` (pre_kernel/src/memory/pmm.c) finds for a range, and its two tests for a
-- merge with a neighbour.
use lunar_prekernel.Base.{
  ℕ, suc, ◌+◌, ◌≤◌, ◌<◌, ◌≡◌, refl, ap, ◌∙◌, sym, List, [], ◌∷◌, ◌++◌, arith, length, drop,
  get_elem?-of_drop, Bool-cases, inl, inr, ok, add64, add64-eq-add, u64_mod, ◌==◌, ==_iff,
  if◌then◌else◌, true, ◌&&◌, ◌⊎◌, some, none,
}
use lunar_prekernel.Pmm.{
  MapType, free, allocated, used, bootloader_reclaimable, efi_reclaimable, acpi_reclaimable,
  acpi_nvs, reserved, bad, rank, Entry, PmmMap, find_slot, extend_before, extend_after, same_type,
}
use lunar_prekernel.Pmm.Slots.{holding, load-holding, store-holding, load_behind}
use lunar_prekernel.Pmm.Spans.{entry_end, Ordered, bound, bound-ge}

-- The first entry, if any, starts behind `b`.
abbrev pub StartsAfter : ℕ → List Entry → Type 0
StartsAfter b [] = Unit
StartsAfter b (q ∷ post) = b < q.base

-- `find_slot` stops behind the entries that end by the range's start.
pub find_slot_run :
    (lo b : ℕ) (pre post stale : List Entry) (m : PmmMap) (i : ℕ)
    → drop i m.slots ≡ pre ++ post ++ stale
    → Ordered lo pre
    → bound lo pre ≤ b
    → StartsAfter b post
    → find_slot (length (pre ++ post)) m b i ≡ ok (i + length pre)
unfolding find_slot
find_slot_run lo b [] [] stale m i d o h s = ground arith
find_slot_run lo b [] (q ∷ post) stale m i d o h s =
    let (at, _) = get_elem?-of_drop m.slots i q (post ++ stale) d in ground arith
find_slot_run lo b (p ∷ pre) post stale m i d o h s =
    let (at, behind) = get_elem?-of_drop m.slots i p (pre ++ post ++ stale) d in
    ground (
      arith,
      find_slot_run (entry_end p) b pre post stale m (suc i) behind o.3 h s,
      bound-ge (entry_end p) pre o.3,
    )

type_of_rank : ℕ → MapType
type_of_rank r =
    if r == 0
    then free
    else if r == 1
    then allocated
    else if r == 2
    then used
    else if r == 3
    then bootloader_reclaimable
    else if r == 4
    then efi_reclaimable
    else if r == 5
    then acpi_reclaimable
    else if r == 6
    then acpi_nvs
    else if r == 7
    then reserved
    else bad

type_of_rank-rank : (t : MapType) → type_of_rank (rank t) ≡ t
unfolding type_of_rank rank
type_of_rank-rank free = refl
type_of_rank-rank _ = refl

-- Types with the same value are the same.
pub same_type-eq : (s t : MapType) → same_type s t ≡ true → s ≡ t
unfolding same_type
same_type-eq s t h =
    sym (type_of_rank-rank s)
    ∙ ap type_of_rank ((==_iff (rank s) (rank t)).0 h)
    ∙ type_of_rank-rank t

module _ (t : MapType) (b n : ℕ) (fits : b + n < u64_mod) where
  unfoldable pub extended : Entry → Entry
  extended p = record p { length = add64 p.length n }

  -- The entry before the slot takes the range in, or it is not of the type or does not meet it.
  pub before_lem :
      (pre : List Entry) (p : Entry) (post stale : List Entry)
      → entry_end p ≤ b
      → ((entry_end p ≡ b)
          × (p.type ≡ t)
          × (extend_before (holding (pre ++ (p ∷ post)) stale) (suc (length pre)) b n t
              ≡ ok (some (holding (pre ++ (extended p ∷ post)) stale))))
        ⊎ (extend_before (holding (pre ++ (p ∷ post)) stale) (suc (length pre)) b n t ≡ ok none)
  unfolding extended extend_before
  before_lem pre p post stale h =
      rw (load-holding pre p post stale, add64-eq-add p.base p.length (omega arith))
        (elim (Bool-cases (same_type p.type t && entry_end p == b)) [
          | inl e ↦ inl (
            ground arith,
            same_type-eq p.type t (ground arith),
            ground (arith, store-holding pre p post stale (extended p)),
          )
          | inr e ↦ inr (ground arith)
        ])

  unfoldable pub lowered : Entry → Entry
  lowered q = record q { base = b; length = add64 q.length n }

  -- The entry in the slot takes the range in, or it is not of the type or does not meet it.
  pub after_lem :
      (pre : List Entry) (q : Entry) (post stale : List Entry)
      → ((q.base ≡ b + n)
          × (q.type ≡ t)
          × (extend_after (holding (pre ++ (q ∷ post)) stale) (length pre) b n t
              ≡ ok (some (holding (pre ++ (lowered q ∷ post)) stale))))
        ⊎ (extend_after (holding (pre ++ (q ∷ post)) stale) (length pre) b n t ≡ ok none)
  unfolding lowered extend_after
  after_lem pre q post stale =
      rw (load-holding pre q post stale, add64-eq-add b n fits)
        (elim (Bool-cases (same_type q.type t && q.base == b + n)) [
          | inl e ↦ inl (
            ground arith,
            same_type-eq q.type t (ground arith),
            ground (arith, store-holding pre q post stale (lowered q)),
          )
          | inr e ↦ inr (ground arith)
        ])

  -- A stale slot that starts below the range's end is not merged with.
  pub after_stale :
      (live : List Entry) (s : Entry) (stale : List Entry)
      → s.base < b + n
      → extend_after (holding live (s ∷ stale)) (length live) b n t ≡ ok none
  unfolding extend_after
  after_stale live s stale h = rw (load_behind live s stale, add64-eq-add b n fits) (ground arith)
