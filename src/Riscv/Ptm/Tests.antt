-- ===== src/Riscv/Ptm/Tests.antt =====
-- Mappings of pre_kernel/src/arch/riscv64/ptm.c, and the trampoline of arch.c, in a machine with two root
-- tables and free memory.
use lunar_prekernel.Base.{
  if◌then◌else◌, ◌==◌, refl, arith, ℕ, ◌<◌, ◌≡◌, ok, replicate, ◌⊎◌, ◌∷◌, suc, panic, [], zero,
  out_of_memory, walked_into_leaf, inl, ◌≤◌, ◌*◌, ◌^◌, ◌+◌,
}
use lunar_prekernel.Riscv.Ptm.{map_page, RootTable}
use lunar_prekernel.Riscv.Ptm.Fresh.{IsReady}
use lunar_prekernel.Riscv.Ptm.Tables.{Tables}
use lunar_prekernel.Riscv.Ptm.Mapped.{Mapped, map_page_lem}
use lunar_prekernel.Pmm.{Entry, free, PmmMap, allocated}
use lunar_prekernel.Pmm.Spans.{type_at, Below}
use lunar_prekernel.Ptm.{Machine}
use lunar_prekernel.Pmm.Slots.{holding}
use lunar_prekernel.Bootinfo.{World}
use lunar_prekernel.Riscv.Cpus.{arch_prepare_handoff, current_root, current_levels}
use lunar_prekernel.Riscv.Cpus.Trampoline.{Prepared, arch_prepare_handoff-Prepared}
use lunar_prekernel.Riscv.Samples.{boot}

abbrev unused : Entry
unused = record { base = 0; length = 0; type = free }

-- Root tables at 4096 and 8192, and free pages behind them
abbrev pages : PmmMap
pages =
    holding
      (record { base = 4096; length = 8192; type = allocated }
        ∷ record { base = 12288; length = 40960; type = free }
        ∷ [])
      (replicate 1022 unused)

Below-replicate : (k n : ℕ) (e : Entry) → e.base < k → Below k (replicate n e)
Below-replicate k zero e h = tt
Below-replicate k (suc n) e h = (h, Below-replicate k n e h)

pages-IsReady : (n : ℕ) → n ≤ 500 → IsReady n pages
unfolding type_at
pages-IsReady n few = record {
  valid = record {
    slots = refl;
    size = omega arith;
    ordered = (omega arith, omega arith, omega arith, (omega arith, omega arith, omega arith, tt));
    stale = Below-replicate _ 1022 unused (omega arith);
  };
  room = omega arith;
  low = λ a above. ground arith;
}

abbrev machine : Machine
machine = record { words = λ x. 0; pmm = pages }

-- Two root tables of level 3
abbrev root_level : ℕ → ℕ
root_level t = if t == 4096 then 3 else if t == 8192 then 3 else 0

machine-Tables : Tables root_level machine
unfolding type_at
machine-Tables = record {
  aligned = λ t pos. ground arith;
  owned = λ t a pos inside e. ground arith;
  lower = λ t i above low points. absurd (points.0 refl);
}

map_page_lem_example :
    ((s' : Machine) × (map_page 4096 3 0x4000_0000 0x8000 1 6 machine ≡ ok s')
      × Mapped root_level 1 4096 3 0x4000_0000 0x8000 1 6 machine s')
    ⊎ ((map_page 4096 3 0x4000_0000 0x8000 1 6 machine ≡ panic out_of_memory)
        ⊎ (map_page 4096 3 0x4000_0000 0x8000 1 6 machine ≡ panic walked_into_leaf))
map_page_lem_example =
    map_page_lem root_level 1 4096 3 0x4000_0000 0x8000 1 6 machine machine-Tables
      (pages-IsReady 3 (omega arith)) (ground arith) (omega arith) (omega arith) refl (omega arith)
      (inl (λ e. absurd (omega arith)))

abbrev new_tables : RootTable
new_tables = record { tplt = 8192; level_count = 3 }

abbrev world : World
world = record { machine = machine; bytes = λ a. 0 }

-- The tables in use stand at 4096, in the mode of three levels.
arch_prepare_handoff-Prepared_example :
    ((phys : ℕ) × (w' : World) × (arch_prepare_handoff new_tables 0x9000 96
          (8 * 2 ^ 60 + 1)
          boot
          world
        ≡ ok (phys, w'))
      × Prepared root_level 1 new_tables
          (current_root (8 * 2 ^ 60 + 1))
          3
          0x9000
          96
          boot
          world
          phys
          w')
    ⊎ ((arch_prepare_handoff new_tables 0x9000 96 (8 * 2 ^ 60 + 1) boot world ≡ panic out_of_memory)
        ⊎ (arch_prepare_handoff new_tables 0x9000 96 (8 * 2 ^ 60 + 1) boot world
            ≡ panic walked_into_leaf))
unfolding current_root current_levels
arch_prepare_handoff-Prepared_example =
    arch_prepare_handoff-Prepared root_level 1 new_tables 0x9000 96 (8 * 2 ^ 60 + 1) 3 boot world
      machine-Tables (pages-IsReady 6 (omega arith)) refl refl refl (omega arith) (omega arith)
      (omega arith)
