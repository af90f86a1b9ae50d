-- ===== src/Riscv/Isa/Tests.antt =====
-- The string `rv_a_b` for pre_kernel/src/arch/riscv64/isa.c.
use lunar_prekernel.Base.{◌≡◌, refl, inl, [], ◌∷◌, arith, ok, add64, sub64, mul64}
use lunar_prekernel.Pmm.{
  load, same_type, rank, pmm_map_set, sweep, visit, cut_start, cut_end, settle, drop_entry, place,
  find_slot, place_at, extend_before, extend_after, store, map_insert, map_delete, PmmMap,
}
use lunar_prekernel.Bootinfo.{World}
use lunar_prekernel.Pmm.Alloc.{pmm_alloc, pmm_alloc_ext, alloc_ext_from}
use lunar_prekernel.Math.{math_ceil, math_div_ceil, math_align_up, not64}
use lunar_prekernel.Riscv.Samples.{boot, bytes_at, pages}
use lunar_prekernel.Riscv.Isa.{parse_isa_string}
use lunar_prekernel.Riscv.Isa.Parse.{Parsed, parse_isa_string_lem}

abbrev before : World
before = record {
  machine = record { words = λ x. 0; pmm = pages };
  bytes = bytes_at (0x72 ∷ 0x76 ∷ 0x5f ∷ 0x61 ∷ 0x5f ∷ 0x62 ∷ []) 100;
}

allocated_page : (m : PmmMap) × (pmm_alloc 1 before.machine.pmm ≡ ok (4096, m))
unfolding pmm_alloc pmm_alloc_ext alloc_ext_from load same_type rank math_ceil pmm_map_set sweep
    visit cut_start cut_end settle drop_entry place find_slot place_at extend_before extend_after
    store map_insert map_delete add64 sub64 mul64 math_align_up not64 math_div_ceil
allocated_page = (_, refl)

parse_isa_string_lem_example :
    Parsed
      (add64 4096 65536)
      38
      (0x72 ∷ 0x76 ∷ [])
      ((0x61 ∷ []) ∷ (0x62 ∷ []) ∷ [])
      boot
      before
      allocated_page.0
      (parse_isa_string 8 100 boot before)
parse_isa_string_lem_example =
    parse_isa_string_lem 8 100 4096 (0x72 ∷ 0x76 ∷ []) (0x61 ∷ []) ((0x62 ∷ []) ∷ []) boot before
      allocated_page.0 (omega arith) (omega arith) (omega arith) allocated_page.1 (omega arith)
      (unfold add64 in omega arith) (inl (unfold add64 in omega arith))
