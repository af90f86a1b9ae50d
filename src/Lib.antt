-- ===== src/Lib.antt =====
-- Verification library of the Lunar prekernel, which takes over from a boot loader, sets up the
-- physical memory map and page tables, loads the kernel and enters it.
--
-- Parts of the program and the files that model them:
-- * pre_kernel/src/memory/pmm.c and pre_kernel/include/memory/pmm.h, the physical memory manager:
--   Pmm (the global map, `map_insert`, `map_delete`, `pmm_map_set`, `pmm_map_add`) and Pmm/Alloc
--   (`pmm_alloc_at`, `pmm_alloc_ext`, `pmm_alloc`, `pmm_free`, the snapshots). A `PmmMap` is the
--   array `g_pmm_map` with the stale slots behind the entries in use, and `g_pmm_map_size`. The loop
--   body of `pmm_map_set` is `visit` with `cut_start`, `cut_end` and `settle`, the loop `sweep`, and
--   what follows it `place`. Pmm/Slots has the array operations on lists, Pmm/Spans the map as a
--   function from addresses to types, Pmm/Paint, Pmm/Merge and Pmm/Place the writing of a range into
--   a gap, Pmm/Apart, Pmm/Cut, Pmm/Hole, Pmm/Visit, Pmm/Sweep, Pmm/Ready and Pmm/Override the
--   rounds of the loop, Pmm/Valid the invariant, Pmm/Add a range set without force, Pmm/Alloc/Fit, Pmm/Alloc/First, Pmm/Alloc/At,
--   Pmm/Alloc/Cycle and Pmm/Alloc/Snap the allocator and the snapshots, Pmm/Edge and Pmm/Full two
--   corners of `pmm_map_set`.
-- * pre_kernel/src/runtime/mem.c, the byte and string functions: Mem, with what they write in
--   Mem/Copy, what they find in Mem/Match and Mem/Search, and the lengths and comparison of strings
--   in Mem/Str. Mem/Text and Mem/Fields have strings
--   and numbers as they lie in memory, which is a function from addresses to bytes.
-- * pre_kernel/src/arch/x86_64/ptm.c and pre_kernel/include/memory/ptm.h, the page tables of x86_64:
--   Ptm (`ptm_init`, `map_page`, `ptm_map`, `ptm_map_at`, `ptm_create_hhdm_mappings`), with the pages
--   that a mapping is cut into in Ptm/Chunks and the direct map in Ptm/Hhdm. A `Machine` is the words
--   of physical memory by their address and the memory map; new tables come from the allocator. What
--   cpuid and cr4 say is an argument.
-- * pre_kernel/src/arch/riscv64/ptm.c, the page tables of riscv64: Riscv/Ptm, with the choice of a
--   level in Riscv/Ptm/Level and the writing of an entry in Riscv/Ptm/Mapped, over Riscv/Ptm/Entries (its
--   bits), Riscv/Ptm/Fresh (a new table), Riscv/Ptm/Tables (which pages are tables), Riscv/Ptm/Walk (the
--   walk of the code's own functions), Riscv/Ptm/Descend (the loop over the levels), Riscv/Ptm/Hardware
--   (the layout by which the processor reads the tables) and Riscv/Ptm/Pages (the pages of a mapping).
--   The machine is that of Ptm,
--   and what ACPI and the device tree say of the levels is an argument.
-- * pre_kernel/src/init.c, the start: Init (the parts of `prekernel_init` on the memory map), Init/Start
--   (`prekernel_init` over a record of what it calls, the `Platform`), Init/Block (the direct map's
--   size and the kernel's memory map), Init/Retry (the loop for the memory map block) and Init/Cores,
--   Init/Handoff, Init/Progress (how the cores meet in `sync_and_handoff`, as steps of any core).
-- * pre_kernel/src/loader/elfldr.c, the ELF loader: Elf, with a segment's bytes in Elf/Content and what
--   is noted of the segments in Elf/Segments.
-- * pre_kernel/src/memory/pagedb.c, the page database: Pagedb, with its plan of segments in
--   Pagedb/Segments, what they cover in Pagedb/Covers and the pages mapped for them in Pagedb/Pages.
-- * pre_kernel/src/boot/limine.c and pre_kernel/src/boot/tartarus.c, the entries from the boot loaders:
--   Boot, Boot/Limine and Boot/Tartarus, with the memory map in Boot/Regions and the boot info block in
--   Boot/Block. What a loader hands over is a record.
-- * pre_kernel/public/protocol/bootinfo.h and pre_kernel/include/boot/core.h, what the kernel and the
--   cores get: Bootinfo.
-- * pre_kernel/src/arch/riscv64, the rest of that port: Riscv/Cpus (arch.c), with the value of `satp`
--   in Riscv/Cpus/Satp and the trampoline's page in Riscv/Cpus/Trampoline, the set-up of a hart in Riscv/Machine (machine.c), the ISA string in Riscv/Isa
--   (isa.c) with Riscv/Isa/Scan, Riscv/Isa/Strings, Riscv/Isa/Extensions and Riscv/Isa/Parse, the ACPI
--   table in Riscv/Acpi and Riscv/Acpi/Nodes (acpi.c), the device tree in Riscv/Fdt (fdt.c), and the
--   depth of the page tables through these and ptm.c in Riscv/Levels.
-- * pre_kernel/src/log.c, panic.c and uacpi_kernel_api.c, the log: Log, with its text in Log/Text. A run
--   of `panic` is there one that spins; elsewhere it is an outcome.
-- * pre_kernel/src/runtime/ubsan.c and ssp.c, the handlers of undefined behaviour: Ubsan, with the text
--   of their reports in Ubsan/Reports and Ubsan/Spins.
-- * pre_kernel/src/arch/x86_64, the rest of that port: X86/Cpuid (cpuid.c), X86/Machine and
--   X86/Machine/Core (machine.c, gdt.c), X86/Cpus and X86/Cpus/Numbers (arch.c), X86/Uart with
--   X86/Uart/Dlab and X86/Uart/Absent (hardware/16550uart.c). The processor is a record of
--   registers, the ports are an argument.
-- * pre_kernel/include/lib/math.h, the rounding macros: Math, with their bounds in Math/Align and
--   the masks in Math/Masks. The allocator rounds by them.
-- * Base has the shared names: tests on numbers, lists as arrays, 64-bit words, masks, and `Outcome`, a
--   run's result: a value, a call of `panic`, a fault (an access outside an array or
--   through a null pointer) or the end of the fuel of a modelled loop.
--
-- Words of the machine are natural numbers with the wrap-around written out (`add64`, `sub64`,
-- `mul64`). Calls that change the globals take the map and return the new one. `pmm_map_set` runs on
-- a fuel of 2 ^ 20 rounds, far more than the array has slots: each round passes an entry, drops one
-- or makes a recursive call for a part that nothing overlaps. The loops of `ptm_map` have a round
-- more than the length has pages, and each round maps a page at least. The string functions take
-- their fuel as an argument; more than the bytes of the strings is enough.
--
-- The loop for the memory map block runs on a fuel of six rounds, the loops over the pages of a segment
-- have more rounds than the segment has pages, and the serial port's loops count down as in the source.
--
-- Not modelled: libfdt, uACPI and the boot loaders' headers, which are not in the repository, so that what
-- the code calls of them is an argument, and the files that only include libfdt's; nanoprintf, a copy of
-- another project's library; the text that modules other than Log and Ubsan put out.
pub mod Base
pub mod Math
pub mod Pmm
pub mod Mem
pub mod Ptm
pub mod Riscv
pub mod Bootinfo
pub mod Elf
pub mod Init
pub mod Pagedb
pub mod Boot
pub mod X86
pub mod Log
pub mod Ubsan
