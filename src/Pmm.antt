-- ===== src/Pmm.antt =====
-- The physical memory manager, pre_kernel/src/memory/pmm.c with pre_kernel/include/memory/pmm.h:
-- the global memory map and `pmm_map_set`. A function that changes the globals takes them as a
-- `PmmMap` and returns the new one; `panic` and an access outside the array are outcomes.
pub mod Slots
pub mod Spans
pub mod Paint
pub mod Merge
pub mod Place
pub mod Apart
pub mod Cut
pub mod Ready
pub mod Override
pub mod Hole
pub mod Valid
pub mod Add
pub mod Alloc
pub mod Visit
pub mod Sweep
pub mod Edge
pub mod Full
mod Tests
use lunar_prekernel.Base.{
  ℕ, zero, suc, ◌+◌, ◌-◌, ◌^◌, ◌≡◌, Bool, true, false, ◌&&◌, ◌||◌, Option, none, some, List, ltb,
  leb, ◌==◌, if◌then◌else◌, get_elem?, set, add64, sub64, Outcome, ok, panic, fault, out_of_fuel,
  memory_map_overflow, ◌>>=◌,
}

-- `pmm_map_type_t`
pub data MapType : Type 0 where
  free allocated used bootloader_reclaimable efi_reclaimable acpi_reclaimable : MapType
  acpi_nvs reserved bad : MapType

-- The value of an enumerator, by which types are ordered.
unfoldable pub rank : MapType → ℕ
rank free = 0
rank allocated = 1
rank used = 2
rank bootloader_reclaimable = 3
rank efi_reclaimable = 4
rank acpi_reclaimable = 5
rank acpi_nvs = 6
rank reserved = 7
rank bad = 8

-- `==` on `pmm_map_type_t`
unfoldable pub same_type : MapType → MapType → Bool
unfolding rank
same_type s t = rank s == rank t

-- `pmm_map_entry_t`
pub record Entry : Type 0 where
  pub base : ℕ
  pub length : ℕ
  pub type : MapType

abbrev pub pmm_map_max_entries : ℕ
pmm_map_max_entries = 1024

-- `g_pmm_map`, with the slots behind the entries in use, and `g_pmm_map_size`
pub record PmmMap : Type 0 where
  pub slots : List Entry
  pub size : ℕ

-- A read of `g_pmm_map[i]`
unfoldable pub load : PmmMap → ℕ → Outcome Entry
load m i = elim (get_elem? m.slots i) [ some e ↦ ok e | none ↦ fault ]

-- A write of `g_pmm_map[i]`, which follows a read or a bound check of the same slot
unfoldable pub store : PmmMap → ℕ → Entry → PmmMap
store m i e = record m { slots = set m.slots i e }

-- `a[to] = a[from]`
copy_slot : List Entry → ℕ → ℕ → List Entry
copy_slot a to from = elim (get_elem? a from) [ some e ↦ set a to e | none ↦ a ]

-- The loop of `map_insert`, from `i` down to `index`
shift_up : ℕ → ℕ → List Entry → List Entry
shift_up zero index a = a
shift_up (suc i) index a =
    let rest = shift_up i index (copy_slot a (suc i) i) in if ltb index (suc i) then rest else a

unfoldable pub map_insert : PmmMap → ℕ → Entry → Outcome PmmMap
unfolding shift_up copy_slot
map_insert m index entry =
    if m.size == pmm_map_max_entries
    then panic memory_map_overflow
    else ok
        (record { slots = set (shift_up m.size index m.slots) index entry; size = add64 m.size 1 })

-- The loop of `map_delete`, over the number of rounds left
shift_down : ℕ → ℕ → List Entry → List Entry
shift_down zero i a = a
shift_down (suc k) i a = shift_down k (suc i) (copy_slot a i (suc i))

unfoldable pub map_delete : PmmMap → ℕ → PmmMap
unfolding shift_down copy_slot
map_delete m index =
    let last = sub64 m.size 1 in
    record { slots = shift_down (last - index) index m.slots; size = last }

-- The variables of the loop of `pmm_map_set`: `i`, the range that is left, and the globals.
pub record Round : Type 0 where
  pub index : ℕ
  pub base : ℕ
  pub length : ℕ
  pub map : PmmMap

-- `map_delete(i); --i;`
unfoldable pub drop_entry : Round → Round
drop_entry r = record r { index = sub64 r.index 1; map = map_delete r.map r.index }

abbrev pub overlaps_start : ℕ → Entry → Bool
overlaps_start base e = ltb e.base base && ltb base (add64 e.base e.length)

abbrev pub overlaps_end : ℕ → ℕ → Entry → Bool
overlaps_end base length e =
    ltb e.base (add64 base length) && ltb (add64 base length) (add64 e.base e.length)

-- "Start of entry overlaps with map entry"; `slot` is where `map_entry` points.
unfoldable pub cut_start : Bool → ℕ → Round → Outcome Round
cut_start override slot r = load r.map slot >>= λ e.
    let amount = sub64 (add64 e.base e.length) r.base in
    let left = sub64 e.length amount in
    let kept : Round = record r { map = store r.map slot (record e { length = left }) } in
    if override
    then (if left == 0 then ok (drop_entry kept) else ok kept)
    else ok (record r { base = add64 r.base amount; length = sub64 r.length amount })

-- "End of entry overlaps with map entry"
unfoldable pub cut_end : Bool → ℕ → Round → Outcome Round
cut_end override slot r = load r.map slot >>= λ e.
    let amount = sub64 (add64 r.base r.length) e.base in
    let left = sub64 e.length amount in
    let shrunk : Entry = record e { base = add64 e.base amount; length = left } in
    let kept : Round = record r { map = store r.map slot shrunk } in
    if override
    then (if left == 0 then ok (drop_entry kept) else ok kept)
    else ok (record r { length = sub64 r.length amount })

-- How a round of the loop goes on: with the next round, by `return`, by the recursive call for the
-- part behind the range and then the next round, or by the two recursive calls round an entry.
pub data Move : Type 0 where
  next : Round → Move
  stop : PmmMap → Move
  split : ℕ → ℕ → MapType → Round → Move
  around : ℕ → ℕ → ℕ → ℕ → PmmMap → Move

-- "Entry falls over map entry" and "Entry equals map entry"
unfoldable pub settle : Bool → ℕ → Round → Outcome Move
settle override slot r = load r.map slot >>= λ e.
    let end = add64 r.base r.length in
    let entry_end = add64 e.base e.length in
    if ltb r.base e.base && ltb entry_end end
    then (if override
        then ok (next (drop_entry r))
        else ok (around r.base (sub64 e.base r.base) entry_end (sub64 end entry_end) r.map))
    else if r.base == e.base && r.length == e.length
    then (if override then ok (next (drop_entry r)) else ok (stop r.map))
    else ok (next r)

-- One round of the loop
unfoldable pub visit : MapType → Bool → Round → Outcome Move
visit type force r = load r.map r.index >>= λ e.
    let override = ltb (rank e.type) (rank type) || force in
    let at_start = overlaps_start r.base e in
    let at_end = overlaps_end r.base r.length e in
    let end = add64 r.base r.length in
    let front : Entry = record e { length = sub64 r.base e.base } in
    if at_start && at_end
    then (if override
        then ok (
            split end (sub64 (add64 e.base e.length) end) e.type
              (record r { map = store r.map r.index front }))
        else ok (stop r.map))
    else ((if at_start then cut_start override r.index r else ok r) >>= λ s.
        (if at_end then cut_end override r.index s else ok s) >>= λ t. settle override r.index t)

-- `for(; i < g_pmm_map_size && g_pmm_map[i].base <= base; i++);` over the rounds left
unfoldable pub find_slot : ℕ → PmmMap → ℕ → ℕ → Outcome ℕ
unfolding load
find_slot zero m base i = ok i
find_slot (suc k) m base i =
    let rest = find_slot k m base (suc i) in
    load m i >>= λ e. if leb e.base base then rest else ok i

-- The merge with the entry before slot `i`, if it is of the type and ends where the range starts
unfoldable pub extend_before : PmmMap → ℕ → ℕ → ℕ → MapType → Outcome (Option PmmMap)
unfolding load store same_type
extend_before m zero base length type = ok none
extend_before m (suc i) base length type = load m i >>= λ e.
    if same_type e.type type && add64 e.base e.length == base
    then ok (some (store m i (record e { length = add64 e.length length })))
    else ok none

-- The merge with slot `i`, which is read also where it is behind the entries in use
unfoldable pub extend_after : PmmMap → ℕ → ℕ → ℕ → MapType → Outcome (Option PmmMap)
unfolding load store same_type
extend_after m i base length type = load m i >>= λ e.
    if same_type e.type type && e.base == add64 base length
    then ok (some (store m i (record e { base = base; length = add64 e.length length })))
    else ok none

-- The two merges and the insert, at the slot that was found
unfoldable pub place_at : MapType → ℕ → ℕ → PmmMap → ℕ → Outcome PmmMap
unfolding extend_before extend_after map_insert
place_at type base length m i = extend_before m i base length type >>= λ before. elim before [
  | some m' ↦ ok m'
  | none ↦ extend_after m i base length type >>= λ after. elim after [
    | some m' ↦ ok m'
    | none ↦ map_insert m i (record { base = base; length = length; type = type })
  ]
]

-- What `pmm_map_set` does behind its loop
unfoldable pub place : MapType → ℕ → ℕ → PmmMap → Outcome PmmMap
unfolding find_slot place_at
place type base length m =
    if length == 0 then ok m else find_slot m.size m base 0 >>= place_at type base length m

-- The loop of `pmm_map_set` from a round on. A recursive call of `pmm_map_set` starts at index 0.
unfoldable pub sweep : ℕ → MapType → Bool → Round → Outcome PmmMap
sweep zero type force r = out_of_fuel
sweep (suc fuel) type force r = elim (ltb r.index r.map.size) [
  | false ↦ place type r.base r.length r.map
  | true ↦ visit type force r >>= λ move. elim move [
    | next s ↦ sweep fuel type force (record s { index = add64 s.index 1 })
    | stop m ↦ ok m
    | split base length t s ↦
        sweep fuel t true (record { index = 0; base = base; length = length; map = s.map }) >>= λ m.
        sweep fuel type force (record s { index = add64 s.index 1; map = m })
    | around start_base start_length end_base end_length m ↦
        sweep fuel type force
          (record { index = 0; base = start_base; length = start_length; map = m })
        >>= λ m'.
            sweep fuel type force
              (record { index = 0; base = end_base; length = end_length; map = m' })
  ]
]

abbrev pub set_fuel : ℕ
set_fuel = 2 ^ 20

unfoldable pub pmm_map_set : ℕ → ℕ → MapType → Bool → PmmMap → Outcome PmmMap
pmm_map_set base length type force m =
    sweep set_fuel type force (record { index = 0; base = base; length = length; map = m })

unfoldable pub pmm_map_add : ℕ → ℕ → MapType → PmmMap → Outcome PmmMap
pmm_map_add base length type m = if length == 0 then ok m else pmm_map_set base length type false m
