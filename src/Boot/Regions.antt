-- ===== src/Boot/Regions.antt =====
-- The memory map that pre_kernel/src/boot/limine.c and pre_kernel/src/boot/tartarus.c build from that of
-- the boot loader.
use native.Mathlib.Decide.{dec_lt}
use lunar_prekernel.Pmm.{PmmMap, MapType, Entry, pmm_map_add, pmm_map_max_entries}
use lunar_prekernel.Base.{
  ℕ, ◌<◌, ◌≡◌, true, none, List, [], ◌∷◌, All, u64_mod, Outcome, ok, arith, ◌≤◌, ◌+◌, ◌*◌, ◌==◌,
  length, false, Bool-cases, inl, inr, refl, All-map,
}
use lunar_prekernel.Boot.{Region, add_regions}
use lunar_prekernel.Pmm.Spans.{entry_end, in_range, type_at, paint, or_else}
use lunar_prekernel.Pmm.Apart.{Apart, Apart-of_none}
use lunar_prekernel.Pmm.Valid.{type_of, IsValid, live, pmm_map_set-Painting}
use lunar_prekernel.Pmm.Ready.{Yields}

-- The entries of the loader's map as those of the memory map, if all their types are known.
abbrev pub Known : {T : Type 0} → (T → Outcome MapType) → List (Region T) → List Entry → Type 0
Known convert [] es = es ≡ []
Known convert (r ∷ rs) es =
    (t : MapType) × (rest : List Entry) × (convert r.type ≡ ok t)
    × (es ≡ record { base = r.base; length = r.length; type = t } ∷ rest)
    × Known convert rs rest

-- No entry wraps, and none overlaps another.
abbrev pub Separate : List Entry → Type 0
Separate [] = Unit
Separate (e ∷ es) =
    (entry_end e < u64_mod) × All (λ (x : Entry). Apart e.base e.length x) es × Separate es

-- The map has nothing where an entry lies.
abbrev pub Unclaimed : PmmMap → Entry → Type 0
Unclaimed m e = (a : ℕ) → in_range e.base e.length a ≡ true → type_of m a ≡ none

apart_none :
    (b n : ℕ) (es : List Entry) (a : ℕ)
    → All (Apart b n) es
    → in_range b n a ≡ true
    → type_at es a ≡ none
unfolding type_at
apart_none b n [] a h i = refl
apart_none b n (e ∷ es) a h i = ground (arith, apart_none b n es a h.1 i, h.0)

-- A range that the map has nothing in is added to it.
record Added (e : Entry) (m : PmmMap) : Type 0 where
  map : PmmMap
  result : pmm_map_add e.base e.length e.type m ≡ ok map
  valid : IsValid map
  painted : (a : ℕ) → type_of map a ≡ paint (in_range e.base e.length a) e.type (type_of m a)
  grown : map.size ≤ m.size + 2

add_one :
    (e : Entry) (m : PmmMap)
    → IsValid m
    → m.size + 2 ≤ pmm_map_max_entries
    → entry_end e < u64_mod
    → Unclaimed m e
    → Added e m
unfolding pmm_map_add
add_one e m v room fits free_there = elim (dec_lt 0 e.length) [
  | no p ↦
      let empty : (e.length == 0) ≡ true = ground arith in
      record {
        map = m;
        result = rw empty refl;
        valid = v;
        painted = λ a. let out : in_range e.base e.length a ≡ false = ground arith in rw out refl;
        grown = omega arith;
      }
  | yes p ↦
      let some_left : (e.length == 0) ≡ false = ground arith in
      let apart = Apart-of_none 0 e.base e.length (live m) p v.ordered free_there in
      let f = pmm_map_set-Painting e.base e.length e.type false m v p fits room (
        All-map (Apart e.base e.length) (Yields e.type false e.base e.length) (live m) (λ x. inl)
          apart) in
      record {
        map = f.map;
        result = rw some_left f.result;
        valid = f.valid;
        painted = f.painted;
        grown = f.grown;
      }
]

still-Unclaimed :
    (e : Entry) (m m' : PmmMap) (es : List Entry)
    → ((a : ℕ) → type_of m' a ≡ paint (in_range e.base e.length a) e.type (type_of m a))
    → All (Apart e.base e.length) es
    → All (Unclaimed m) es
    → All (Unclaimed m') es
still-Unclaimed e m m' [] painted h k = tt
still-Unclaimed e m m' (x ∷ xs) painted h k =
    (λ a i. ground (arith, painted a, k.0 a i, h.0), still-Unclaimed e m m' xs painted h.1 k.1)

-- The loop over the boot loader's memory map, where all types are known, no entry wraps, overlaps
-- another or lies where the map has something, and each finds two free slots: it ends with a valid map
-- that gives each address of an entry the entry's type and leaves all else as it was.
pub add_regions_lem :
    {T : Type 0} (convert : T → Outcome MapType) (rs : List (Region T)) (es : List Entry)
    (m : PmmMap)
    → Known convert rs es
    → Separate es
    → All (Unclaimed m) es
    → IsValid m
    → m.size + 2 * length es ≤ pmm_map_max_entries
    → (m' : PmmMap) × (add_regions convert rs m ≡ ok m')
      × IsValid m'
      × ((a : ℕ) → type_of m' a ≡ or_else (type_at es a) (type_of m a))
unfolding add_regions type_at
add_regions_lem convert [] es m k s u v room = (m, refl, v, λ a. rw k refl)
add_regions_lem convert (r ∷ rs) es m (t, rest, known, whole, k) s u v room =
    let e : Entry = record { base = r.base; length = r.length; type = t } in
    let s' : Separate (e ∷ rest) = rw whole at s in
    let u' : All (Unclaimed m) (e ∷ rest) = rw whole at u in
    let room' : m.size + 2 * length (e ∷ rest) ≤ pmm_map_max_entries = rw whole at room in
    let one = add_one e m v (omega arith) s'.0 u'.0 in
    let (m', run, valid, types) =
      add_regions_lem convert rs rest one.map k s'.2
        (still-Unclaimed e m one.map rest one.painted s'.1 u'.1) one.valid
        (omega (arith, one.grown)) in
    (
      m',
      rw (known, one.result) run,
      valid,
      λ a. rw whole (elim (Bool-cases (in_range e.base e.length a)) [
        | inl inside ↦
            let nothing = apart_none e.base e.length rest a s'.1 inside in
            ground (arith, types a, one.painted a, nothing)
        | inr out ↦ ground (arith, types a, one.painted a)
      ]),
    )
