-- ===== src/Pmm/Valid.antt =====
-- The invariant of the memory map of pre_kernel/src/memory/pmm.c, and what `pmm_map_set` does to a
-- valid map, seen as a map from addresses to types.
use lunar_prekernel.Base.{
  ℕ, ◌+◌, ◌-◌, ◌≤◌, ◌<◌, ◌≡◌, Bool, Option, List, arith, length, take, drop, length-take,
  length-drop, take-append-drop, take-length, drop-length, length-append, All, u64_mod, ok, Outcome,
}
use lunar_prekernel.Pmm.{MapType, Entry, PmmMap, pmm_map_set, set_fuel, pmm_map_max_entries}
use lunar_prekernel.Pmm.Slots.{holding}
use lunar_prekernel.Pmm.Spans.{in_range, type_at, Ordered, top, Below, Inside, paint}
use lunar_prekernel.Pmm.Place.{Written}
use lunar_prekernel.Pmm.Ready.{Yields}
use lunar_prekernel.Pmm.Override.{sweep_Written}

-- The entries in use, and the slots behind them.
abbrev pub live : PmmMap → List Entry
live m = take m.size m.slots

abbrev pub behind : PmmMap → List Entry
behind m = drop m.size m.slots

-- The type that the map gives to an address.
abbrev pub type_of : PmmMap → ℕ → Option MapType
type_of m a = type_at (live m) a

-- All slots are there, the entries in use are ordered without overlap, empty or wrapping ones, and
-- the stale slots start below the largest end.
pub record IsValid (m : PmmMap) : Type 0 where
  pub slots : length m.slots ≡ pmm_map_max_entries
  pub size : m.size ≤ pmm_map_max_entries
  pub ordered : Ordered 0 (live m)
  pub stale : Below (top (live m)) (behind m)

pub length-live : (m : PmmMap) → IsValid m → length (live m) ≡ m.size
length-live m v = omega (arith, length-take m.size m.slots, v.slots, v.size)

pub holding-live : (m : PmmMap) → IsValid m → holding (live m) (behind m) ≡ m
holding-live m v = rw (take-append-drop m.size m.slots, length-live m v)

-- A call returns a valid map in which the range has the type and all else the type that it had; one
-- entry covers the range, and there are at most two entries more.
pub record Painting (t : MapType) (b n : ℕ) (m : PmmMap) (out : Outcome PmmMap) : Type 0 where
  pub map : PmmMap
  pub result : out ≡ ok map
  pub valid : IsValid map
  pub painted : (a : ℕ) → type_of map a ≡ paint (in_range b n a) t (type_of m a)
  pub inside : Inside b n (live map)
  pub grown : map.size ≤ m.size + 2

Written-Painting :
    (t : MapType) (b n : ℕ) (m : PmmMap) {out : Outcome PmmMap}
    → IsValid m
    → Written 2 t b n (live m) out
    → Painting t b n m out
Written-Painting t b n m v w =
    let kept : live (holding w.live w.stale) ≡ w.live = take-length w.live w.stale in
    let rest : behind (holding w.live w.stale) ≡ w.stale = drop-length w.live w.stale in
    record {
      map = holding w.live w.stale;
      result = w.result;
      valid = record {
        slots = omega (arith, w.slots, length-append {0} w.live w.stale);
        size = omega (arith, w.slots);
        ordered = rw kept w.spans.ordered;
        stale = rw (kept, rest) w.spans.behind;
      };
      painted = rw kept w.spans.painted;
      inside = rw kept w.spans.inside;
      grown = omega (arith, w.grown, length-live m v);
    }

-- `pmm_map_set` of a range that is not empty and does not wrap, in a valid map with two free slots.
-- Each entry lies apart from the range, or may be overridden and does not share just one edge with a
-- range that reaches over its other edge. The call then paints the range over the map.
pub pmm_map_set-Painting :
    (b n : ℕ) (t : MapType) (force : Bool) (m : PmmMap)
    → IsValid m
    → 0 < n
    → b + n < u64_mod
    → m.size + 2 ≤ pmm_map_max_entries
    → All (Yields t force b n) (live m)
    → Painting t b n m (pmm_map_set b n t force m)
unfolding pmm_map_set
pmm_map_set-Painting b n t force m v pos fits room y =
    let size : length (live m) ≡ m.size = length-live m v in
    let slots : length (behind m) ≡ pmm_map_max_entries - m.size =
      omega (arith, length-drop m.size m.slots, v.slots) in
    Written-Painting t b n m v (
      rw (holding-live m v) at (
        sweep_Written t force b n pos fits set_fuel (live m) (behind m) v.ordered v.stale
          (omega (arith, size, slots, v.size)) (omega (arith, size)) y
          (omega (arith, size, v.size))))
