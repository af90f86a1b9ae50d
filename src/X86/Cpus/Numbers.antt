-- ===== src/X86/Cpus/Numbers.antt =====
-- How `arch_setup_cpus` of pre_kernel/src/arch/x86_64/arch.c numbers the cores that it starts.
use lunar_prekernel.Base.{
  true, false, ℕ, zero, suc, ◌+◌, ◌*◌, ◌≡◌, Bool, List, [], ◌∷◌, Outcome, ok,
}
use lunar_prekernel.X86.Cpus.{Started, arch_start_info_size}
use lunar_prekernel.Bootinfo.{core_start_info_size}

-- Cores with numbers in turn, each with the start info and the part of the block of CPU-local memory of
-- its number, and with the architecture's block of the number behind it.
abbrev pub Numbered : ℕ → ℕ → ℕ → ℕ → ℕ → List Started → Type 0
Numbered block cpu_local_block cpu_local_size arch_block core_id [] = Unit
Numbered block cpu_local_block cpu_local_size arch_block core_id (s ∷ rest) =
    (s.info.core_id ≡ core_id)
    × (s.at ≡ block + core_start_info_size * core_id)
    × (s.info.cpu_local ≡ cpu_local_block + core_id * cpu_local_size)
    × (s.info.arch_pointer ≡ arch_block + arch_start_info_size * (core_id + 1))
    × Numbered block cpu_local_block cpu_local_size arch_block (core_id + 1) rest

-- How many of the cores from an index on, over the rounds left, are not the one that boots
abbrev other_core : Outcome Bool → ℕ → ℕ
other_core (ok true) later = later
other_core (ok false) later = suc later
other_core _ later = 0

abbrev pub others : (ℕ → Outcome Bool) → ℕ → ℕ → ℕ
others is_bsp zero i = 0
others is_bsp (suc k) i = other_core (is_bsp i) (others is_bsp k (suc i))
