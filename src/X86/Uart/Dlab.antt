-- ===== src/X86/Uart/Dlab.antt =====
-- The line control register in pre_kernel/src/arch/x86_64/hardware/16550uart.c: with its DLAB bit set, a
-- character would go to the divisor latch.
use lunar_prekernel.Base.Bits.{bit_and_lt, bit_and_clear}
use lunar_prekernel.Base.{
  ℕ, zero, suc, ◌<◌, bit_and, ◌≡◌, refl, ap, ◌∙◌, ◌≢◌, inl, inr, false, arith, ◌==◌, Bool-cases,
  List, [], ◌∷◌,
}
use lunar_prekernel.X86.Uart.{
  arch_io_wait, write_register, serial_set_dlab, arch_16550uart_transmit_empty, await_empty,
  arch_16550uart_send, serial_dlab_bit, wait_often, try_loopback, serial_test,
  arch_16550uart_early_setup, serial_set_divisor, serial_sink, serial_set_fifo, Serial,
  serial_set_lcr, serial_set_mcr, serial_set_interrupts,
}

-- The ports of a machine as far as the line control register of the serial port goes: it is what was
-- written to it last, a read gives it, and nothing else changes it.
pub record IsLineControl {S : Type 0} (inb : ℕ → S → ℕ × S) (outb : ℕ → ℕ → S → S) (lcr : S → ℕ)
    : Type 0 where
  pub read : (s : S) → (inb 0x3fb s).0 ≡ lcr s
  pub read_keeps : (port : ℕ) (s : S) → lcr (inb port s).1 ≡ lcr s
  pub write : (value : ℕ) (s : S) → value < 256 → lcr (outb 0x3fb value s) ≡ value
  pub write_keeps : (port value : ℕ) (s : S) → port ≢ 0x3fb → lcr (outb port value s) ≡ lcr s

module _ {S : Type 0} (inb : ℕ → S → ℕ × S) (outb : ℕ → ℕ → S → S) (lcr : S → ℕ)
    (d : IsLineControl inb outb lcr) where
  wait_keeps : (s : S) → lcr (arch_io_wait inb outb s) ≡ lcr s
  unfolding arch_io_wait
  wait_keeps s = d.write_keeps 0x80 0 s (λ e. absurd (omega arith))

  register_keeps :
      (port value : ℕ) (s : S) → port ≢ 0x3fb → lcr (write_register inb outb port value s) ≡ lcr s
  unfolding write_register
  register_keeps port value s other =
      wait_keeps (outb port value (arch_io_wait inb outb s))
      ∙ d.write_keeps port value (arch_io_wait inb outb s) other
      ∙ wait_keeps s

  line_control_set :
      (value : ℕ) (s : S) → value < 256 → lcr (write_register inb outb 0x3fb value s) ≡ value
  unfolding write_register
  line_control_set value s byte =
      wait_keeps (outb 0x3fb value (arch_io_wait inb outb s))
      ∙ d.write value (arch_io_wait inb outb s) byte

  -- Behind `serial_set_dlab(port, false)` the bit is clear.
  dlab_cleared :
      (s : S) → bit_and (lcr (serial_set_dlab inb outb 0x3f8 false s)) serial_dlab_bit ≡ 0
  unfolding serial_set_dlab
  dlab_cleared s =
      let read = inb 0x3fb (arch_io_wait inb outb s) in
      let low : bit_and read.0 0x7f < 128 = bit_and_lt 7 read.0 0x7f (omega arith) in
      ap (λ v. bit_and v 128)
        (line_control_set (bit_and read.0 0x7f) (arch_io_wait inb outb read.1) (omega (arith, low)))
      ∙ bit_and_clear 7 (bit_and read.0 0x7f) low

  empty_keeps : (s : S) → lcr (arch_16550uart_transmit_empty inb outb s).1 ≡ lcr s
  unfolding arch_16550uart_transmit_empty
  empty_keeps s =
      wait_keeps (inb 0x3fd (arch_io_wait inb outb s)).1
      ∙ d.read_keeps 0x3fd (arch_io_wait inb outb s)
      ∙ wait_keeps s

  await_keeps : (k : ℕ) (s : S) → lcr (await_empty inb outb k s) ≡ lcr s
  unfolding await_empty
  await_keeps zero s = refl
  await_keeps (suc k) s =
      let next = (arch_16550uart_transmit_empty inb outb s).1 in
      elim (Bool-cases ((arch_16550uart_transmit_empty inb outb s).0 == 0)) [
        | inl busy ↦ rw busy (await_keeps k next ∙ empty_keeps s)
        | inr empty ↦ rw empty (empty_keeps s)
      ]

  send_keeps : (c : ℕ) (s : S) → lcr (arch_16550uart_send inb outb c s) ≡ lcr s
  unfolding arch_16550uart_send
  send_keeps c s =
      register_keeps 0x3f8 c (await_empty inb outb 100000 s) (λ e. absurd (omega arith))
      ∙ await_keeps 100000 s

  -- Some characters one after another
  abbrev pub send_all : List ℕ → S → S
  send_all [] s = s
  send_all (c ∷ cs) s = send_all cs (arch_16550uart_send inb outb c s)

  all_keeps : (cs : List ℕ) (s : S) → lcr (send_all cs s) ≡ lcr s
  all_keeps [] s = refl
  all_keeps (c ∷ cs) s = all_keeps cs (arch_16550uart_send inb outb c s) ∙ send_keeps c s

  often_keeps : (k : ℕ) (s : S) → lcr (wait_often inb outb k s) ≡ lcr s
  unfolding wait_often
  often_keeps zero s = refl
  often_keeps (suc k) s = often_keeps k (arch_io_wait inb outb s) ∙ wait_keeps s

  loopback_keeps : (k : ℕ) (s : S) → lcr (try_loopback inb outb k 0x3f8 s).1 ≡ lcr s
  unfolding try_loopback
  loopback_keeps zero s = refl
  loopback_keeps (suc k) s =
      let sent = wait_often inb outb 256 (outb 0x3f8 0x69 s) in
      let kept : lcr (inb 0x3f8 sent).1 ≡ lcr s =
        d.read_keeps 0x3f8 sent
        ∙ often_keeps 256 (outb 0x3f8 0x69 s)
        ∙ d.write_keeps 0x3f8 0x69 s (λ e. absurd (omega arith)) in
      elim (Bool-cases ((inb 0x3f8 sent).0 == 0x69)) [
        | inl echo ↦ rw echo kept
        | inr other ↦ rw other (loopback_keeps k (inb 0x3f8 sent).1 ∙ kept)
      ]

  test_clears : (s : S) → bit_and (lcr (serial_test inb outb 0x3f8 s).1) serial_dlab_bit ≡ 0
  unfolding serial_test
  test_clears s =
      let divided = serial_set_divisor inb outb 0x3f8 1 s in
      let flushed = serial_set_fifo inb outb 0x3f8 6 (serial_set_lcr inb outb 0x3f8 3 divided) in
      let looped = serial_set_mcr inb outb 0x3f8 19 flushed in
      let start = serial_set_dlab inb outb 0x3f8 false looped in
      let tried = (try_loopback inb outb 5 0x3f8 start).1 in
      let echo : bit_and (lcr tried) serial_dlab_bit ≡ 0 =
        ap (λ v. bit_and v serial_dlab_bit) (loopback_keeps 5 start) ∙ dlab_cleared looped in
      let last : bit_and (lcr (inb 0x3ff (outb 0x3ff 0x69 tried)).1) serial_dlab_bit ≡ 0 =
        ap (λ v. bit_and v serial_dlab_bit)
          (d.read_keeps 0x3ff (outb 0x3ff 0x69 tried)
            ∙ d.write_keeps 0x3ff 0x69 tried (λ e. absurd (omega arith)))
        ∙ echo in
      elim (Bool-cases (try_loopback inb outb 5 0x3f8 start).0) [
        | inl echoed ↦ rw echoed echo
        | inr quiet ↦ elim (Bool-cases ((inb 0x3ff (outb 0x3ff 0x69 tried)).0 == 0x69)) [
          | inl same ↦ rw (quiet, same) last
          | inr other ↦ rw (quiet, other) last
        ]
      ]

  setup_clears :
      (x : Serial S)
      → bit_and (lcr (arch_16550uart_early_setup inb outb x).ports) serial_dlab_bit ≡ 0
  unfolding arch_16550uart_early_setup serial_sink
  setup_clears x =
      let start = serial_set_interrupts inb outb 0x3f8 0 x.ports in
      let (status, s) = serial_test inb outb 0x3f8 start in
      let lined = serial_set_lcr inb outb 0x3f8 3 (serial_set_divisor inb outb 0x3f8 1 s) in
      let modem = serial_set_mcr inb outb 0x3f8 11 (serial_set_fifo inb outb 0x3f8 7 lined) in
      let ready = serial_set_dlab inb outb 0x3f8 false modem in
      elim (Bool-cases (status == 0)) [
        | inl dead ↦ rw dead (test_clears start)
        | inr alive ↦ elim (Bool-cases (status == 1)) [
          | inl partly ↦ rw (alive, partly) (dlab_cleared modem)
          | inr whole ↦
              rw (alive, whole)
                (ap (λ v. bit_and v serial_dlab_bit) (send_keeps 10 ready) ∙ dlab_cleared modem)
        ]
      ]

  -- Behind the set-up of the serial port, whatever its self test shows, and behind any characters
  -- sent since, one after another, the DLAB bit is clear, so characters go to the data register.
  pub arch_16550uart_early_setup-clear :
      (x : Serial S) (cs : List ℕ)
      → bit_and (lcr (send_all cs (arch_16550uart_early_setup inb outb x).ports)) serial_dlab_bit
        ≡ 0
  arch_16550uart_early_setup-clear x cs =
      ap (λ v. bit_and v serial_dlab_bit)
        (all_keeps cs (arch_16550uart_early_setup inb outb x).ports)
      ∙ setup_clears x
