-- ===== src/Riscv/Tests.antt =====
-- Values of `satp`, tables of ACPI and device trees for pre_kernel/src/arch/riscv64.
use lunar_prekernel.Base.{
  replicate, ◌+◌, ◌≡◌, refl, arith, ℕ, ◌∷◌, [], none, some, true, List, Option, add64,
}
use lunar_prekernel.Riscv.Ptm.{RootTable}
use lunar_prekernel.Riscv.Samples.{boot, bytes_at, region, unused}
use lunar_prekernel.Mem.{Memory}
use lunar_prekernel.Riscv.Acpi.{Rhct, node_type, node_length, find_node}
use lunar_prekernel.Riscv.Acpi.Nodes.{FirstOf, Node, find_node_lem, Laid}
use lunar_prekernel.Riscv.Fdt.{Literals, Property, Fdt, device_type, mmu_type, riscv_isa}
use lunar_prekernel.Bootinfo.{BootInfo}
use lunar_prekernel.Ptm.{Machine}
use lunar_prekernel.Riscv.Levels.{acpi_says}
use lunar_prekernel.Elf.{read_le}

abbrev tables : RootTable
tables = record { tplt = 0x8123_4000; level_count = 4 }

abbrev nodes : List Node
nodes = record { type = 0; length = 8 } ∷ record { type = 2; length = 16 } ∷ []

abbrev table : Memory
table = bytes_at (0 ∷ 0 ∷ 8 ∷ 0 ∷ 0 ∷ 0 ∷ 0 ∷ 0 ∷ 2 ∷ 0 ∷ 16 ∷ 0 ∷ 0 ∷ 0 ∷ 0 ∷ 1 ∷ []) 0x138

table-Laid : Laid table 0x138 nodes
unfolding node_type node_length read_le
table-Laid = omega arith

find_node_lem_example : FirstOf 2 0x138 nodes (find_node 2 0x38 0x100 2 table)
find_node_lem_example = find_node_lem 0x100 0x38 2 nodes table (omega arith) table-Laid

-- `cpu` and the three names of MMU types, each with its final 0; the one CPU has `riscv,sv48`.
abbrev strings : Memory
strings =
    bytes_at
      (0x63 ∷ 0x70 ∷ 0x75 ∷ 0 ∷ 0x72 ∷ 0x69 ∷ 0x73 ∷ 0x63 ∷ 0x76 ∷ 0x2c ∷ 0x73 ∷ 0x76 ∷ 0x35 ∷ 0x37
        ∷ 0 ∷ 0x72 ∷ 0x69 ∷ 0x73 ∷ 0x63 ∷ 0x76 ∷ 0x2c ∷ 0x73 ∷ 0x76 ∷ 0x34 ∷ 0x38 ∷ 0 ∷ 0x72 ∷ 0x69
        ∷ 0x73 ∷ 0x63 ∷ 0x76 ∷ 0x2c ∷ 0x73 ∷ 0x76 ∷ 0x33 ∷ 0x39 ∷ 0 ∷ [])
      100

abbrev literals : Literals
literals = record { cpu = 100; sv57 = 104; sv48 = 115; sv39 = 126 }

abbrev tree_property : Property → Option (ℕ × ℕ)
tree_property device_type = some (100, 4)
tree_property mmu_type = some (115, 11)
tree_property riscv_isa = none

abbrev tree : Fdt
tree = record {
  check_header = λ fdt m. true;
  cpus_offset = λ fdt m. some 8;
  subnodes = λ fdt cpus m. 16 ∷ [];
  getprop = λ fdt node property m. tree_property property;
}

-- An RSDP, and the table above: its MMU node names the type of four levels.
abbrev with_tables : BootInfo
with_tables = record boot { dtb_physical = 0x2000; rdsp_physical = 0xe0000 }

abbrev rhct : Rhct
rhct = record {
  address = 0x100;
  nodes_offset = 0x38;
  node_count = 2;
  entry_type_mmu = 2;
  entry_type_isa_string = 0;
  mmu_type_sv39 = 0;
  mmu_type_sv48 = 1;
  mmu_type_sv57 = 2;
  mmu_type = λ at m. m (at + 7);
  isa_offset = 8;
}

abbrev machine : Machine
machine = record {
  words = λ x. 0;
  pmm = record { slots = region ∷ replicate 1023 unused; size = 1 };
}

-- The table's MMU node is read: four levels.
acpi_sample : acpi_says (some rhct) with_tables table ≡ some 4
unfolding find_node node_type node_length read_le add64
acpi_sample = refl
