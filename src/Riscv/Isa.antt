-- ===== src/Riscv/Isa.antt =====
-- The parts of the ISA string, pre_kernel/src/arch/riscv64/isa.c: the base ISA and the extensions, each
-- as a string of its own in pages of their own.
pub mod Strings
pub mod Extensions
pub mod Scan
pub mod Parse
mod Tests
use lunar_prekernel.Base.{
  ℕ, zero, suc, ◌+◌, ◌-◌, ◌*◌, ◌/◌, Bool, true, false, not, ◌&&◌, ◌||◌, Option, some, List, [], ◌∷◌,
  ◌==◌, if◌then◌else◌, add64, mul64, Outcome, ok, out_of_fuel, ◌>>=◌,
}
use lunar_prekernel.Math.{math_align_up}
use lunar_prekernel.Pmm.Alloc.{page, pmm_alloc}
use lunar_prekernel.Mem.{Memory, write, memcpy, strlen}
use lunar_prekernel.Elf.{read_le}
use lunar_prekernel.X86.Cpus.{write_le}
use lunar_prekernel.Bootinfo.{BootInfo, World}

-- `'_'`
abbrev pub underscore : ℕ
underscore = 0x5f

-- The loop over the string's bytes from index `i` on, over the bytes left: the length of the base ISA,
-- which is 0 while no `_` has been met, and the count of `_`
unfoldable pub scan : ℕ → ℕ → ℕ → ℕ → ℕ → Memory → ℕ × ℕ
scan zero i isa base_length count m = (base_length, count)
scan (suc k) i isa base_length count m =
    let at_underscore = m (isa + i) == underscore in
    scan k (suc i) isa (if at_underscore && base_length == 0 then i else base_length)
      (if at_underscore then count + 1 else count) m

-- The bytes of the buffer, in whole pages
unfoldable pub info_size : ℕ → ℕ → ℕ
info_size isa_len count = math_align_up (add64 (add64 isa_len 1) (mul64 (add64 count 1) 8)) page

-- Where the array of pointers starts, behind the base ISA
unfoldable pub extensions_at : ℕ → ℕ → ℕ
extensions_at buffer base_length = math_align_up (buffer + base_length + 1) 8

-- `while(*end && *end != '_') { end++; }`
unfoldable pub find_end : ℕ → ℕ → Memory → Outcome ℕ
find_end zero end m = out_of_fuel
find_end (suc fuel) end m =
    let rest = find_end fuel (suc end) m in
    if not (m end == 0) && not (m end == underscore) then rest else ok end

-- `memcpy(cursor, p, len); cursor[len] = '\0';`
unfoldable pub copy_string : ℕ → ℕ → ℕ → Memory → Memory
copy_string p len cursor m = write (memcpy cursor p len m) (cursor + len) 0

-- The writes of a round: the pointer, and the extension's bytes with a 0 behind them
unfoldable pub copy_extension : ℕ → ℕ → ℕ → ℕ → ℕ → Memory → Memory
copy_extension p len index extensions cursor m =
    copy_string p len cursor (write_le 8 (extensions + 8 * index) cursor m)

-- The loop over the extensions from `p` on; `inner` is the fuel of `find_end`. It gives their count.
unfoldable pub copy_extensions : ℕ → ℕ → ℕ → ℕ → ℕ → ℕ → Memory → Outcome (ℕ × Memory)
copy_extensions zero inner p index extensions cursor m = out_of_fuel
copy_extensions (suc fuel) inner p index extensions cursor m = elim (m p == 0) [
  | true ↦ ok (index, m)
  | false ↦ find_end inner p m >>= λ end.
      let len = end - p in
      let m' = copy_extension p len index extensions cursor m in
      elim (m' end == 0) [
        | true ↦ ok (suc index, m')
        | false ↦ copy_extensions fuel inner (end + 1) (suc index) extensions (cursor + len + 1) m'
      ]
]

-- The array of pointers, from an index on
unfoldable pub read_pointers : ℕ → ℕ → ℕ → Memory → List ℕ
read_pointers zero index extensions m = []
read_pointers (suc k) index extensions m =
    read_le 8 (extensions + 8 * index) m ∷ read_pointers k (suc index) extensions m

unfoldable pub parse_isa_string : ℕ → ℕ → BootInfo → World → Outcome (BootInfo × World)
parse_isa_string fuel isa boot w = strlen fuel isa w.bytes >>= λ isa_len.
    let (base_length, count) = scan isa_len 0 isa 0 0 w.bytes in
    pmm_alloc (info_size isa_len count / page) w.machine.pmm >>= λ (phys, pmm).
    let buffer = add64 phys boot.hhdm_offset in
    let extensions = extensions_at buffer base_length in
    let m = copy_string isa base_length buffer w.bytes in
    copy_extensions fuel fuel (isa + base_length + 1) 0 extensions
      (extensions + mul64 (add64 count 1) 8) m
    >>= λ (n, m'). ok (
      record boot {
        riscv_base_isa_string = some buffer;
        riscv_extension_count = n;
        riscv_extentions = read_pointers n 0 extensions m';
      },
      record { machine = record (w.machine) { pmm = pmm }; bytes = m' },
    )
