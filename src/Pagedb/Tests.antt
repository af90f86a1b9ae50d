-- ===== src/Pagedb/Tests.antt =====
-- Segments of pre_kernel/src/memory/pagedb.c for a small map.

use lunar_prekernel.Pmm.{Entry, free, reserved}
use lunar_prekernel.Pagedb.{ℕ, map_entries}
use lunar_prekernel.Base.{◌≡◌, ℕ, ◌≡◌, true, [], ◌∷◌, arith, length, Outcome, ok}
use lunar_prekernel.Pagedb.Segments.{in_plan, plan}
use lunar_prekernel.Ptm.{Machine}
use lunar_prekernel.Pagedb.Covers.{plan_covers}
use lunar_prekernel.Pagedb.Pages.{map_each, pages_of, Spaced, map_entries-map_each}

abbrev low : Entry
low = record { base = 4096; length = 61440; type = free }

abbrev high : Entry
high = record { base = 65536; length = 65536; type = reserved }

plan_covers_example : in_plan (plan 0x10000 512 (low ∷ high ∷ []) 0x10000) 0x12c00 ≡ true
plan_covers_example =
    plan_covers 0x10000 512 (low ∷ []) high [] 22 0
      (omega arith, omega arith, omega arith, (omega arith, omega arith, omega arith, tt))
      ((omega arith, omega arith), ((omega arith, omega arith), tt)) (λ e. absurd (cc e))
      (omega arith) (omega arith) (omega arith)

abbrev no_mapping : ℕ → ℕ → ℕ → ℕ → Machine → Outcome Machine
no_mapping vaddr paddr length flags s = ok s

abbrev empty : Machine
empty = record { words = λ x. 0; pmm = record { slots = []; size = 0 } }

map_entries-map_each_example :
    (map_entries no_mapping 0x10000 512 0x10000 (low ∷ high ∷ []) empty
      ≡ map_each no_mapping (pages_of (plan 0x10000 512 (low ∷ high ∷ []) 0x10000)) empty)
    × Spaced 0x10000 (pages_of (plan 0x10000 512 (low ∷ high ∷ []) 0x10000))
map_entries-map_each_example =
    map_entries-map_each no_mapping 0x10000 512 (low ∷ high ∷ []) empty
      ((omega arith, omega arith), ((omega arith, omega arith), tt))
