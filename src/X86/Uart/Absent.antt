-- ===== src/X86/Uart/Absent.antt =====
-- A machine without the serial port of pre_kernel/src/arch/x86_64/hardware/16550uart.c: the set-up finds
-- out, and no output waits for it.
use lunar_prekernel.Base.{ℕ, zero, suc, ◌+◌, ◌%◌, ◌≡◌, refl, false}
use lunar_prekernel.X86.Uart.{
  try_loopback, serial_test, arch_16550uart_early_setup, wait_often, arch_debug_putc, Serial,
  serial_set_interrupts, serial_set_divisor, serial_set_fifo, serial_set_lcr, serial_set_dlab,
  serial_set_mcr,
}

module _ {S : Type 0} (inb : ℕ → S → ℕ × S) (outb : ℕ → ℕ → S → S)
    (absent : (port : ℕ) (s : S) → (inb port s).0 ≡ 0xff) where
  no_echo : (k port : ℕ) (s : S) → (try_loopback inb outb k port s).0 ≡ false
  unfolding try_loopback
  no_echo zero port s = refl
  no_echo (suc k) port s =
      rw (absent (port + 0) (wait_often inb outb 256 (outb (port + 0) 0x69 s))) (no_echo k port _)

  test_fails : (port : ℕ) (s : S) → (serial_test inb outb port s).0 ≡ 0
  unfolding serial_test
  test_fails port s =
      let divided = serial_set_divisor inb outb port 1 s in
      let flushed = serial_set_fifo inb outb port 6 (serial_set_lcr inb outb port 3 divided) in
      let start = serial_set_dlab inb outb port false (serial_set_mcr inb outb port 19 flushed) in
      let tried = (try_loopback inb outb 5 port start).1 in
      rw (no_echo 5 port start, absent (port + 7) (outb (port + 7) 0x69 tried)) refl

  -- Where every read of a port gives 0xff, as with nothing behind it: the port does not count as
  -- working behind the set-up, and a character then goes to the debug port alone.
  pub arch_debug_putc_absent :
      (c : ℕ) (x : Serial S)
      → (let y = arch_16550uart_early_setup inb outb x in
          (y.works ≡ false)
          × (arch_debug_putc inb outb c y ≡ record y { ports = outb 0xe9 (c % 256) y.ports }))
  unfolding arch_16550uart_early_setup arch_debug_putc
  arch_debug_putc_absent c x =
      rw (test_fails 0x3f8 (serial_set_interrupts inb outb 0x3f8 0 x.ports)) (refl, refl)
