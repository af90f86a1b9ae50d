-- ===== src/X86.antt =====
-- The x86_64 port, pre_kernel/src/arch/x86_64: the serial port and the set-up of a core.
pub mod Uart
pub mod Cpuid
pub mod Machine
pub mod Cpus
mod Tests
