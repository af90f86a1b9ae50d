-- ===== src/Riscv.antt =====
-- The riscv64 port, pre_kernel/src/arch/riscv64.
pub mod Ptm
pub mod Cpus
pub mod Machine
pub mod Isa
pub mod Acpi
pub mod Fdt
pub mod Levels
mod Samples
mod Tests
