-- ===== src/Riscv/Machine.antt =====
-- The set-up of a hart, pre_kernel/src/arch/riscv64/machine.c with the bits of `sstatus` of
-- pre_kernel/include/arch/riscv64/arch/csr.h. What goes to the log is left out.
use lunar_prekernel.Base.{ℕ, ◌^◌, ◌*◌, bit_or, bit_and}
use lunar_prekernel.Math.{not64}
use lunar_prekernel.Elf.{read_le}
use lunar_prekernel.Bootinfo.{CoreStartInfo}
use lunar_prekernel.Mem.{Memory}

-- The registers of a hart that the code writes
pub record Hart : Type 0 where
  pub sstatus : ℕ
  pub sie : ℕ
  pub stvec : ℕ
  pub sscratch : ℕ
  pub gp : ℕ

abbrev arch_csr_sstatus_sie : ℕ
arch_csr_sstatus_sie = 2 ^ 1

abbrev arch_csr_sstatus_fs_mask : ℕ
arch_csr_sstatus_fs_mask = 3 * 2 ^ 13

abbrev arch_csr_sstatus_fs_initial : ℕ
arch_csr_sstatus_fs_initial = 2 ^ 13

abbrev arch_csr_sstatus_sum : ℕ
arch_csr_sstatus_sum = 2 ^ 18

abbrev arch_csr_sstatus_mxr : ℕ
arch_csr_sstatus_mxr = 2 ^ 19

-- `trap_handler` is the address of `riscv64_early_trap_handler`; the mode bits of `stvec` are 0.
unfoldable pub arch_machine_init : ℕ → CoreStartInfo → Memory → Hart → Hart
arch_machine_init trap_handler info m hart =
    let fields =
      bit_or (bit_or arch_csr_sstatus_fs_mask arch_csr_sstatus_sum) arch_csr_sstatus_mxr in
    let cleared = bit_and hart.sstatus (not64 (bit_or fields arch_csr_sstatus_sie)) in
    record {
      sstatus = bit_or cleared arch_csr_sstatus_fs_initial;
      sie = 0;
      stvec = bit_or trap_handler 0;
      sscratch = info.cpu_local;
      gp = read_le 8 info.arch_pointer m;
    }
