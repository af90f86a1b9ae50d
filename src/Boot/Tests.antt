-- ===== src/Boot/Tests.antt =====
-- What pre_kernel/src/boot/limine.c makes of a small memory map and one module.
use lunar_prekernel.Pmm.{free, reserved, Entry, PmmMap}
use lunar_prekernel.Boot.Limine.{
  usable, framebuffer, LimineMemmap, limine_type, LimineFile, limine_modules, file_names,
}
use lunar_prekernel.Pmm.{
  pmm_map_set, sweep, visit, cut_start, cut_end, settle, drop_entry, map_insert, map_delete, load,
  store, rank, same_type, place, place_at, find_slot, extend_before, extend_after,
}
use lunar_prekernel.Pmm.Alloc.{pmm_alloc, pmm_alloc_ext, alloc_ext_from}
use lunar_prekernel.Math.{math_ceil, math_div_ceil, math_align_up, not64}
use lunar_prekernel.Boot.{skip_framebuffers, skip_module, add_regions, Region, boot_info_block_size}
use lunar_prekernel.Base.{
  add64, sub64, mul64, List, ℕ, ◌∷◌, ◌+◌, [], ◌<◌, arith, ◌≡◌, ◌≤◌, replicate, ok, u64_mod, suc,
  zero, inl,
}
use lunar_prekernel.Base.{refl, some, none}
use lunar_prekernel.Pmm.Slots.{holding}
use lunar_prekernel.Pmm.Valid.{IsValid, type_of}
use lunar_prekernel.Pmm.Spans.{type_at, Below, or_else}
use lunar_prekernel.Boot.Regions.{Known, add_regions_lem}
use lunar_prekernel.Bootinfo.{World, Module}
use lunar_prekernel.Boot.Block.{Within, block_bytes, limine_modules-Within, tartarus_modules-Within}
use lunar_prekernel.Boot.Tartarus.{TartarusModule, module_names, tartarus_modules}
use lunar_prekernel.Mem.{Memory}

abbrev unused : Entry
unused = record { base = 0; length = 0; type = free }

abbrev empty : PmmMap
empty = holding [] (replicate 1024 unused)

abbrev regions : List (Region LimineMemmap)
regions =
    record { base = 65536; length = 65536; type = usable }
    ∷ record { base = 4096; length = 8192; type = framebuffer }
    ∷ []

abbrev entries : List Entry
entries =
    record { base = 65536; length = 65536; type = free }
    ∷ record { base = 4096; length = 8192; type = reserved }
    ∷ []

Below-replicate : (k n : ℕ) (e : Entry) → e.base < k → Below k (replicate n e)
Below-replicate k zero e h = tt
Below-replicate k (suc n) e h = (h, Below-replicate k n e h)

empty-IsValid : IsValid empty
empty-IsValid = record {
  slots = refl;
  size = omega arith;
  ordered = tt;
  stale = Below-replicate _ 1024 unused (omega arith);
}

nothing : (a : ℕ) → type_of empty a ≡ none
unfolding type_at
nothing a = refl

entries-Known : Known limine_type regions entries
unfolding limine_type
entries-Known = (free, _, refl, refl, (reserved, _, refl, refl, refl))

add_regions_lem_example :
    (m' : PmmMap) × (add_regions limine_type regions empty ≡ ok m')
    × IsValid m'
    × ((a : ℕ) → type_of m' a ≡ or_else (type_at entries a) (type_of empty a))
add_regions_lem_example =
    add_regions_lem limine_type regions entries empty entries-Known
      (omega arith, (inl (omega arith), tt), (omega arith, tt, tt))
      (λ a i. nothing a, (λ a i. nothing a, tt)) empty-IsValid (omega arith)

abbrev file : LimineFile
file = record { path = 105 ∷ 46 ∷ []; address = 16; size = 5000 }

abbrev region : Entry
region = record { base = 131072; length = 65536; type = free }

abbrev world : World
world = record {
  machine = record {
    words = λ x. 0;
    pmm = record { slots = region ∷ unused ∷ unused ∷ []; size = 1 };
  };
  bytes = λ x. 0;
}

abbrev modules : List (ℕ × Module)
modules = (4278, record { name = 4302; phys_addr = 131072; size = 5000 }) ∷ []

loaded :
    (w' : World) × (limine_modules 0 (file ∷ []) (skip_framebuffers 1 (add64 4096 136)) world
      ≡ ok (modules, (4305, w')))
unfolding limine_modules skip_framebuffers skip_module pmm_alloc pmm_alloc_ext alloc_ext_from
    pmm_map_set sweep visit cut_start cut_end settle drop_entry map_insert map_delete load store
    rank same_type place place_at find_slot extend_before extend_after add64 sub64 mul64 math_ceil
    math_div_ceil math_align_up not64
loaded = (_, refl)

fits : 4096 + block_bytes 136 1 (file_names (file ∷ [])) + 4096 ≤ u64_mod
unfolding file_names
fits = omega arith

limine_modules-Within_example :
    Within 4278 4305 (file_names (file ∷ [])) modules
    × (4305 ≤ 4096 + boot_info_block_size 136 (some 1) (file_names (file ∷ [])))
limine_modules-Within_example =
    limine_modules-Within 4096 136 1 0 (file ∷ []) world modules 4305 loaded.0 fits loaded.1

abbrev item : TartarusModule
item = record { name = 105 ∷ 46 ∷ []; paddr = 131072; size = 5000 }

item_fits : 4096 + block_bytes 136 1 (module_names (item ∷ [])) + 4096 ≤ u64_mod
unfolding module_names
item_fits = omega arith

abbrev items : List (ℕ × Module) × (ℕ × Memory)
items = tartarus_modules (item ∷ []) (skip_framebuffers 1 (add64 4096 136)) (λ x. 0)

tartarus_modules-Within_example :
    Within 4278 items.1.0 (module_names (item ∷ [])) items.0
    × (items.1.0 ≤ 4096 + boot_info_block_size 136 (some 1) (module_names (item ∷ [])))
tartarus_modules-Within_example = tartarus_modules-Within 4096 136 1 (item ∷ []) (λ x. 0) item_fits
