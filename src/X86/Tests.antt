-- ===== src/X86/Tests.antt =====
-- The x86_64 port at fixed values.
use lunar_prekernel.Pmm.{free, Entry}
use lunar_prekernel.X86.Cpuid.{fred}
use lunar_prekernel.X86.Cpus.{Started}
use lunar_prekernel.Base.{
  refl, fxsr_missing, ℕ, bit_and, ◌≡◌, Bool, true, if◌then◌else◌, ◌==◌, false, suc, ◌∷◌, Outcome,
  ok, arith, [], panic, ◌⊎◌, length,
}
use lunar_prekernel.X86.Cpuid.{Name}
use lunar_prekernel.X86.Uart.{Serial, arch_16550uart_early_setup, serial_dlab_bit}
use lunar_prekernel.X86.Uart.Dlab.{send_all, IsLineControl, arch_16550uart_early_setup-clear}
use lunar_prekernel.X86.Machine.{Cpu, g_arch_gdt_static_data, arch_machine_init}
use lunar_prekernel.Bootinfo.{World, CoreStartInfo}
use lunar_prekernel.X86.Machine.Core.{IsReady, arch_machine_init_lem}

-- Ports of which only the line control register is there.
abbrev line_in : ℕ → ℕ → ℕ × ℕ
line_in port s = (if port == 0x3fb then s else 0, s)

abbrev line_out : ℕ → ℕ → ℕ → ℕ
line_out port value s = if port == 0x3fb then value else s

line-IsLineControl : IsLineControl line_in line_out (λ s. s)
line-IsLineControl = record {
  read = λ s. refl;
  read_keeps = λ port s. refl;
  write = λ value s h. refl;
  write_keeps =
      λ port value s other. let e : (port == 0x3fb) ≡ false = ground (arith, other) in rw e refl;
}

abbrev off : Serial ℕ
off = record { ports = 7; works = false }

arch_16550uart_early_setup-clear_example :
    bit_and
      (send_all line_in line_out
        (λ s. s)
        line-IsLineControl
        (65 ∷ 66 ∷ [])
        (arch_16550uart_early_setup line_in line_out off).ports)
      serial_dlab_bit
    ≡ 0
arch_16550uart_early_setup-clear_example =
    arch_16550uart_early_setup-clear line_in line_out (λ s. s) line-IsLineControl off (65 ∷ 66 ∷ [])

-- No port answers; the state counts the writes.
abbrev float_in : ℕ → ℕ → ℕ × ℕ
float_in port s = (0xff, s)

abbrev float_out : ℕ → ℕ → ℕ → ℕ
float_out port value s = suc s

float_absent : (port s : ℕ) → (float_in port s).0 ≡ 0xff
float_absent port s = refl

abbrev found : Serial ℕ
found = arch_16550uart_early_setup float_in float_out off

abbrev all_but_fred : Name → Bool
all_but_fred fred = false
all_but_fred _ = true

abbrev core : CoreStartInfo
core = record {
  core_id = 1;
  stack = 65536;
  cpu_local = 0x5000;
  arch_pointer = 0xffff_8000_1234_5600;
}

abbrev cpu : Cpu
cpu = record {
  cr0 = 0;
  cr4 = 4096;
  xcr0 = 1;
  msr = λ n. 0;
  gdt = g_arch_gdt_static_data;
  gdt_base = 0;
  gdt_limit = 0;
  cs = 0;
  ds = 0;
  tr = 0;
  ldt = 0;
}

arch_machine_init_lem_example :
    ((true ≡ false) × (arch_machine_init all_but_fred core cpu ≡ panic fxsr_missing))
    ⊎ ((true ≡ true)
        × (c' : Cpu) × (arch_machine_init all_but_fred core cpu ≡ ok c')
        × IsReady core cpu c')
arch_machine_init_lem_example = arch_machine_init_lem all_but_fred core cpu (omega arith)

abbrev region : Entry
region = record { base = 131072; length = 131072; type = free }

abbrev unused : Entry
unused = record { base = 0; length = 0; type = free }

abbrev world : World
world = record {
  machine = record {
    words = λ x. 0;
    pmm = record { slots = region ∷ unused ∷ unused ∷ []; size = 1 };
  };
  bytes = λ x. 0;
}

abbrev is_first : ℕ → Outcome Bool
is_first i = ok (i == 0)

abbrev second : Started
second = record {
  core = 1;
  at = 4128;
  info = record { core_id = 1; stack = 196608; cpu_local = 8448; arch_pointer = 12624 };
}
