-- ===== src/Ptm/Tests.antt =====
-- Mappings of pre_kernel/src/arch/x86_64/ptm.c at fixed addresses.
use lunar_prekernel.Base.{◌+◌, ◌%◌, ◌≤◌, ◌<◌, ◌≡◌, refl, true, false, List, arith}
use lunar_prekernel.Pmm.{reserved, Entry}
use lunar_prekernel.Pmm.Spans.{entry_end}
use lunar_prekernel.Pmm.Alloc.{page}
use lunar_prekernel.Ptm.{Paging, hhdm_base, hhdm_length}
use lunar_prekernel.Ptm.Chunks.{Chunk, Tiles, MapsBy, ptm_map_at_lem}
use lunar_prekernel.Ptm.Hhdm.{hhdm_range}

abbrev paging : Paging
paging = record { tplt = 4096; level_count = 4; nx_support = true; pdpe1gb_support = false }

abbrev region : Entry
region = record { base = 5000; length = 10000; type = reserved }

ptm_map_at_lem_example :
    (cs : List Chunk) × Tiles false 0x7fff_ffe0_0000 0x20_0000 0x20_1000 cs
    × MapsBy paging 4096 4 0x7fff_ffe0_0000 0x20_0000 0x20_1000 6 cs
ptm_map_at_lem_example =
    ptm_map_at_lem paging 4096 4 0x7fff_ffe0_0000 0x20_0000 0x20_1000 6 refl refl refl (omega arith)
      (omega arith)

hhdm_range_example :
    (hhdm_base region % page ≡ 0)
    × (hhdm_length region % page ≡ 0)
    × (hhdm_base region ≤ 5000)
    × (5000 < hhdm_base region + page)
    × (entry_end region ≤ hhdm_base region + hhdm_length region)
    × (hhdm_base region + hhdm_length region < entry_end region + page)
hhdm_range_example = hhdm_range region (omega arith)
