-- ===== src/Elf/Tests.antt =====
-- Segments of pre_kernel/src/loader/elfldr.c at fixed addresses.
use lunar_prekernel.Elf.{
  ProgramHeader, LoaderInfo, start_vaddr, end_vaddr, fill_segment, find_segment, load_segments,
  note_segment, internal_elf_handle_pt_load, map_segment, read_program_header, read_le,
  if◌then◌else◌, math_floor, ◌∷◌, [], ℕ, phdr_at, Outcome, math_align_up,
}
use lunar_prekernel.Elf.Content.{loaded, fill_segment_lem}
use lunar_prekernel.Elf.Segments.{Resolves, find_segment_lem, Describes, load_segments-Describes}
use lunar_prekernel.Math.{not64, math_floor, math_align_up, math_ceil, math_div_ceil}
use lunar_prekernel.Bootinfo.{Segment, World}
use lunar_prekernel.Mem.{Memory}
use lunar_prekernel.Ptm.{Machine}
use lunar_prekernel.Pmm.Alloc.{pmm_alloc_ext, alloc_ext_from}
use lunar_prekernel.Pmm.{
  load, same_type, rank, pmm_map_set, sweep, visit, cut_start, cut_end, settle, drop_entry, place,
  find_slot, place_at, extend_before, extend_after, store, map_insert, map_delete, Entry, free,
}
use lunar_prekernel.Base.{
  ◌≡◌, ℕ, ◌≡◌, refl, inl, none, [], ◌∷◌, arith, ◌==◌, if◌then◌else◌, length, add64, sub64, mul64,
  Outcome, ok,
}

-- A kernel of one segment, whose program header stands at 4096.
abbrev image : Memory
image x =
    if x == 4096
    then 1
    else if x == 4100
    then 5
    else if x == 4113
    then 16
    else if x == 4128
    then 16
    else if x == 4136
    then 32
    else 0

abbrev header : ProgramHeader
header = record {
  p_type = 1;
  p_flags = 5;
  p_offset = 512;
  p_vaddr = 0x1234;
  p_paddr = 0;
  p_filesz = 16;
  p_memsz = 32;
  p_align = 4096;
}

fill_segment_lem_example :
    fill_segment 0x10000 4096 8192 header image 0x12234 ≡ loaded 0x12000 4608 header image 0x12234
fill_segment_lem_example =
    fill_segment_lem 0x10000 4096 8192 header image 0x12234 (omega arith) (omega arith)
      (omega arith) (omega arith) (inl (omega arith))

abbrev text : Segment
text = record { vaddr = 0x1000; paddr = 0x8000; size = 32; flags = 5 }

abbrev bss : Segment
bss = record { vaddr = 0x2000; paddr = 0x9000; size = 64; flags = 3 }

find_segment_lem_example :
    Resolves 0x10000 0x2010 (text ∷ bss ∷ []) (find_segment 0x10000 0x2010 (text ∷ bss ∷ []))
find_segment_lem_example =
    find_segment_lem 0x10000 0x2010 (text ∷ bss ∷ [])
      ((omega arith, omega arith), ((omega arith, omega arith), tt))

abbrev start : LoaderInfo
start = record {
  entry_point = 0;
  kernel_base = 0xffff_ffff_ffff_ffff;
  segments = [];
  segment_count = 0;
  kernel_info = none;
}

abbrev region : Entry
region = record { base = 4096; length = 40960; type = free }

abbrev unused : Entry
unused = record { base = 0; length = 0; type = free }

abbrev before : World
before = record {
  machine = record {
    words = λ x. 0;
    pmm = record { slots = region ∷ unused ∷ unused ∷ []; size = 1 };
  };
  bytes = image;
}

abbrev no_mapping : ℕ → ℕ → ℕ → ℕ → Machine → Outcome Machine
no_mapping vaddr paddr length flags s = ok s

abbrev loaded_header : ProgramHeader
loaded_header = phdr_at 4096 0 image

start-Describes : Describes start
start-Describes = record { base = refl; count = refl }

abbrev after : LoaderInfo
after = note_segment 4096 loaded_header start

abbrev outcome : Outcome (LoaderInfo × World)
outcome = load_segments no_mapping 0x10000 0 0 1 0 4096 start before

outcome_lem : (w : World) × (outcome ≡ ok (after, w))
unfolding load_segments internal_elf_handle_pt_load map_segment read_program_header read_le
    pmm_alloc_ext alloc_ext_from load same_type rank math_ceil pmm_map_set sweep visit cut_start
    cut_end settle drop_entry place find_slot place_at extend_before extend_after store map_insert
    map_delete add64 sub64 mul64 start_vaddr end_vaddr math_floor math_align_up not64 math_div_ceil
outcome_lem = (_, refl)

load_segments-Describes_example : Describes after
load_segments-Describes_example =
    load_segments-Describes no_mapping 0x10000 0 0 1 0 4096 start before after outcome_lem.0
      start-Describes outcome_lem.1
