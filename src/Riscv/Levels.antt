-- ===== src/Riscv/Levels.antt =====
-- How deep the page tables of a hart are: what pre_kernel/src/arch/riscv64/acpi.c and fdt.c find, what
-- ptm.c makes of it, and what arch.c then puts into `satp`.
use lunar_prekernel.Riscv.Acpi.{Rhct, find_node}
use lunar_prekernel.Riscv.Fdt.{Fdt, mmu_type}
use lunar_prekernel.Base.{
  ℕ, ◌≤◌, ◌<◌, ◌≡◌, ◌⊎◌, not, Option, none, some, ◌==◌, if◌then◌else◌, Outcome, ok, ◌≢◌,
}
use lunar_prekernel.Bootinfo.{BootInfo}
use lunar_prekernel.Mem.{Memory}

-- No answer, or a depth that there is
abbrev pub IsLevels : ℕ → Type 0
IsLevels n = (n ≡ 0) ⊎ ((3 ≤ n) × (n ≤ 5))

-- The depth that goes by a name of an MMU type
abbrev depth_of : Rhct → ℕ → Option ℕ
depth_of r kind =
    if kind == r.mmu_type_sv57
    then some 5
    else if kind == r.mmu_type_sv48
    then some 4
    else if kind == r.mmu_type_sv39
    then some 3
    else none

-- What ACPI says of the depth: nothing without the RSDP, without the table, without an MMU node in it or
-- with another MMU type
abbrev pub acpi_says : Option Rhct → BootInfo → Memory → Option ℕ
acpi_says none boot m = none
acpi_says (some r) boot m =
    if not (boot.rdsp_physical == 0)
    then elim (find_node r.node_count r.nodes_offset r.address r.entry_type_mmu m) [
      | none ↦ none
      | some at ↦ depth_of r (r.mmu_type at m)
    ]
    else none

-- No MMU type that the header names is 0xffff.
abbrev pub HasTypes : Option Rhct → Type 0
HasTypes none = Unit
HasTypes (some r) =
    (r.mmu_type_sv39 ≢ 0xffff) × (r.mmu_type_sv48 ≢ 0xffff) × (r.mmu_type_sv57 ≢ 0xffff)

abbrev or_zero : Option ℕ → ℕ
or_zero none = 0
or_zero (some n) = n

Positive : Option ℕ → Type 0
Positive none = Unit
Positive (some n) = 0 < n

-- The depth that ACPI says, or else the one that the device tree gives
abbrev pub Follows : Option ℕ → Outcome ℕ → ℕ → Type 0
Follows none dtb levels = dtb ≡ ok levels
Follows (some n) dtb levels = levels ≡ n

-- A run that gives a depth, if it gives anything
abbrev GivesLevels : Outcome ℕ → Type 0
GivesLevels (ok n) = IsLevels n
GivesLevels _ = Unit
