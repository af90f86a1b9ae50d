-- ===== src/X86/Uart.antt =====
-- The serial port, pre_kernel/src/arch/x86_64/hardware/16550uart.c, and what
-- pre_kernel/src/arch/x86_64/arch.c does with it. The machine's ports are an argument: `inb` and `outb`
-- with a state `S`. What goes to the log is left out, but for the line end that is sent at the end.
pub mod Dlab
pub mod Absent
use lunar_prekernel.Base.{
  ℕ, Bool, true, ◌+◌, suc, false, Option, ◌%◌, if◌then◌else◌, bit_and, zero, bit_or, ◌/◌, ◌==◌, not,
  none, some,
}

-- The registers, by their offset from the port
abbrev serial_rx_buff : ℕ
serial_rx_buff = 0

abbrev serial_tx_buff : ℕ
serial_tx_buff = 0

abbrev serial_intr_conf : ℕ
serial_intr_conf = 1

abbrev serial_dlab_div_lo : ℕ
serial_dlab_div_lo = 0

abbrev serial_dlab_div_hi : ℕ
serial_dlab_div_hi = 1

abbrev serial_fifo_conf : ℕ
serial_fifo_conf = 2

abbrev pub serial_line_conf : ℕ
serial_line_conf = 3

abbrev serial_modem_conf : ℕ
serial_modem_conf = 4

abbrev serial_line_info : ℕ
serial_line_info = 5

abbrev serial_scratch_reg : ℕ
serial_scratch_reg = 7

abbrev serial_test_magic : ℕ
serial_test_magic = 0x69

abbrev g_arch_16550uart_port : ℕ
g_arch_16550uart_port = 0x3f8

-- `SERIAL_DLAB_BIT`, and its complement in a byte
abbrev pub serial_dlab_bit : ℕ
serial_dlab_bit = 0x80

abbrev not_dlab_bit : ℕ
not_dlab_bit = 0x7f

-- The machine with `g_arch_16550uart_works`
pub record Serial (S : Type 0) : Type 0 where
  pub ports : S
  pub works : Bool

module _ {S : Type 0} (inb : ℕ → S → ℕ × S) (outb : ℕ → ℕ → S → S) where
  unfoldable pub arch_io_wait : S → S
  arch_io_wait s = outb 0x80 0 s

  -- A write with a wait on each side
  unfoldable pub write_register : ℕ → ℕ → S → S
  write_register port value s = arch_io_wait (outb port value (arch_io_wait s))

  unfoldable pub serial_set_dlab : ℕ → Bool → S → S
  serial_set_dlab port setting s =
      let (lcr, s') = inb (port + serial_line_conf) (arch_io_wait s) in
      let value = if setting then bit_or lcr serial_dlab_bit else bit_and lcr not_dlab_bit in
      write_register (port + serial_line_conf) value (arch_io_wait s')

  unfoldable pub serial_set_divisor : ℕ → ℕ → S → S
  serial_set_divisor port divisor s =
      let selected = serial_set_dlab port true s in
      let low = write_register (port + serial_dlab_div_lo) (bit_and divisor 0xff) selected in
      let high = write_register (port + serial_dlab_div_hi) (bit_and (divisor / 256) 0xff) low in
      serial_set_dlab port false high

  unfoldable pub serial_set_interrupts : ℕ → ℕ → S → S
  serial_set_interrupts port setting s =
      write_register (port + serial_intr_conf) setting (serial_set_dlab port false s)

  unfoldable pub serial_set_mcr : ℕ → ℕ → S → S
  serial_set_mcr port setting s = write_register (port + serial_modem_conf) setting s

  unfoldable pub serial_set_lcr : ℕ → ℕ → S → S
  serial_set_lcr port lcr s = write_register (port + serial_line_conf) lcr s

  unfoldable pub serial_set_fifo : ℕ → ℕ → S → S
  serial_set_fifo port fifo s = write_register (port + serial_fifo_conf) fifo s

  -- `for(int i = 0; i < 256; i++) arch_io_wait();` over the rounds left
  unfoldable pub wait_often : ℕ → S → S
  wait_often zero s = s
  wait_often (suc k) s = wait_often k (arch_io_wait s)

  -- The loop of `serial_test` over the tries left
  unfoldable pub try_loopback : ℕ → ℕ → S → Bool × S
  try_loopback zero port s = (false, s)
  try_loopback (suc k) port s =
      let sent = wait_often 256 (outb (port + serial_tx_buff) serial_test_magic s) in
      let (got, s') = inb (port + serial_rx_buff) sent in
      let rest = try_loopback k port s' in if got == serial_test_magic then (true, s') else rest

  unfoldable pub serial_test : ℕ → S → ℕ × S
  serial_test port s =
      let divided = serial_set_divisor port 1 s in
      let lined = serial_set_lcr port 3 divided in
      let flushed = serial_set_fifo port 6 lined in
      let looped = serial_set_mcr port 19 flushed in
      let (echoed, s') = try_loopback 5 port (serial_set_dlab port false looped) in
      let (got, s'') =
        inb (port + serial_scratch_reg) (outb (port + serial_scratch_reg) serial_test_magic s') in
      if echoed then (2, s') else if got == serial_test_magic then (1, s'') else (0, s'')

  unfoldable pub arch_16550uart_transmit_empty : S → ℕ × S
  arch_16550uart_transmit_empty s =
      let (got, s') = inb (g_arch_16550uart_port + serial_line_info) (arch_io_wait s) in
      (bit_and got 0x20, arch_io_wait s')

  unfoldable pub arch_16550uart_data_ready : S → ℕ × S
  arch_16550uart_data_ready s =
      let (got, s') = inb (g_arch_16550uart_port + serial_line_info) (arch_io_wait s) in
      (bit_and got 0x01, arch_io_wait s')

  -- The loop of `arch_16550uart_send` over the rounds left
  unfoldable pub await_empty : ℕ → S → S
  await_empty zero s = s
  await_empty (suc k) s =
      let (empty, s') = arch_16550uart_transmit_empty s in
      let rest = await_empty k s' in if not (empty == 0) then s' else rest

  unfoldable pub arch_16550uart_send : ℕ → S → S
  arch_16550uart_send c s =
      write_register (g_arch_16550uart_port + serial_tx_buff) c (await_empty 100000 s)

  -- No byte stands for -1.
  unfoldable pub arch_16550uart_read : S → Option ℕ × S
  arch_16550uart_read s =
      let (ready, s') = arch_16550uart_data_ready s in
      let (got, s'') = inb (g_arch_16550uart_port + serial_rx_buff) (arch_io_wait s') in
      if ready == 0 then (none, s') else (some got, arch_io_wait s'')

  -- A `char` is the low byte.
  unfoldable pub serial_sink : ℕ → S → S
  serial_sink c s = arch_16550uart_send (c % 256) s

  unfoldable pub arch_16550uart_early_setup : Serial S → Serial S
  arch_16550uart_early_setup x =
      let port = g_arch_16550uart_port in
      let (status, s) = serial_test port (serial_set_interrupts port 0 x.ports) in
      let divided = serial_set_divisor port 1 s in
      let lined = serial_set_lcr port 3 divided in
      let enabled = serial_set_fifo port 7 lined in
      let ready = serial_set_dlab port false (serial_set_mcr port 11 enabled) in
      if status == 0
      then record { ports = s; works = false }
      else if status == 1
      then record { ports = ready; works = true }
      else record { ports = serial_sink 10 ready; works = true }

  -- `arch_debug_putc`
  unfoldable pub arch_debug_putc : ℕ → Serial S → Serial S
  arch_debug_putc c x =
      let shown = outb 0xe9 (c % 256) x.ports in
      if x.works
      then record x { ports = arch_16550uart_send (c % 256) shown }
      else record x { ports = shown }
