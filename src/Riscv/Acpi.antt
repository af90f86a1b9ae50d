-- ===== src/Riscv/Acpi.antt =====
-- What the ACPI table RHCT says of a hart, pre_kernel/src/arch/riscv64/acpi.c. The table is found by
-- uACPI, whose headers give its layout: both are in `Rhct`. What goes to the log is left out.
pub mod Nodes
use lunar_prekernel.Base.{
  ℕ, zero, suc, ◌+◌, Bool, true, false, Option, none, some, ◌==◌, if◌then◌else◌, add64, Outcome, ok,
  fault, ◌>>=◌,
}
use lunar_prekernel.Mem.{Memory}
use lunar_prekernel.Elf.{read_le}
use lunar_prekernel.Bootinfo.{BootInfo, World}
use lunar_prekernel.Riscv.Isa.{parse_isa_string}

-- The table that `uacpi_table_find_by_signature` finds, with the names of uacpi/acpi.h that the code
-- uses: the fields of the table's header, the types of its nodes, the MMU types, the MMU type that the
-- node at an address holds, and where the ISA string lies in its node
pub record Rhct : Type 0 where
  pub address : ℕ
  pub nodes_offset : ℕ
  pub node_count : ℕ
  pub entry_type_mmu : ℕ
  pub entry_type_isa_string : ℕ
  pub mmu_type_sv39 : ℕ
  pub mmu_type_sv48 : ℕ
  pub mmu_type_sv57 : ℕ
  pub mmu_type : ℕ → Memory → ℕ
  pub isa_offset : ℕ

-- `struct rhct_node`
unfoldable pub node_type : ℕ → Memory → ℕ
node_type at m = read_le 2 at m

unfoldable pub node_length : ℕ → Memory → ℕ
node_length at m = read_le 2 (at + 2) m

-- The loop over the nodes, over the rounds left: the first node of a type
unfoldable pub find_node : ℕ → ℕ → ℕ → ℕ → Memory → Option ℕ
find_node zero base rhct type m = none
find_node (suc k) base rhct type m =
    let node = add64 rhct base in
    let rest = find_node k (add64 base (node_length node m)) rhct type m in
    if node_type node m == type then some node else rest

unfoldable pub mmu_levels : Rhct → ℕ → ℕ
mmu_levels r mmu_type =
    if mmu_type == r.mmu_type_sv57
    then 5
    else if mmu_type == r.mmu_type_sv48
    then 4
    else if mmu_type == r.mmu_type_sv39
    then 3
    else 0

-- 0xffff stands for no MMU node.
unfoldable pub arch_acpi_detect_mmu_levels : Option Rhct → BootInfo → Memory → ℕ
arch_acpi_detect_mmu_levels found boot m = elim found [
  | none ↦ 0
  | some r ↦
      let node = find_node r.node_count r.nodes_offset r.address r.entry_type_mmu m in
      let mmu_type : ℕ = elim node [ none ↦ 0xffff | some at ↦ r.mmu_type at m ] in
      if boot.rdsp_physical == 0 then 0 else mmu_levels r mmu_type
]

-- Without a node for the ISA string its address is read through a null pointer.
unfoldable pub arch_acpi_parse_extentions :
    ℕ → Option Rhct → BootInfo → World → Outcome (Bool × (BootInfo × World))
arch_acpi_parse_extentions fuel found boot w =
    let not_found : Outcome (Bool × (BootInfo × World)) = ok (false, (boot, w)) in
    elim found [
      | none ↦ not_found
      | some r ↦
          let node =
            find_node r.node_count r.nodes_offset r.address r.entry_type_isa_string w.bytes in
          let parsed : Outcome (Bool × (BootInfo × World)) = elim node [
            | none ↦ fault
            | some at ↦ parse_isa_string fuel (at + r.isa_offset) boot w >>= λ (boot', w').
                ok (true, (boot', w'))
          ] in
          if boot.rdsp_physical == 0 then not_found else parsed
    ]
