-- ===== src/Elf.antt =====
-- The ELF loader, pre_kernel/src/loader/elfldr.c with pre_kernel/include/loader/elfldr.h. The image of
-- the kernel is read from memory by the layout of its headers. `ptm_map` is that of either port, and
-- what goes to the log is left out.
pub mod Content
pub mod Segments
mod Tests
use lunar_prekernel.Base.{
  ℕ, zero, suc, ◌+◌, ◌-◌, ◌*◌, ◌/◌, Bool, true, false, not, ◌&&◌, ◌||◌, List, [], ◌∷◌, ◌++◌, Option,
  none, some, ltb, leb, ◌==◌, if◌then◌else◌, bit_and, bit_or, add64, sub64, mul64, Outcome, ok,
  out_of_fuel, ◌>>=◌,
}
use lunar_prekernel.Math.{math_floor, math_align_up}
use lunar_prekernel.Mem.{Memory, memset, memcpy, memcmp, ℤ, pos}
use lunar_prekernel.Pmm.{allocated}
use lunar_prekernel.Pmm.Alloc.{page, pmm_alloc, pmm_alloc_ext}
use lunar_prekernel.Ptm.{Machine}
use lunar_prekernel.Bootinfo.{Segment, segment_size, World}

-- `elf64_elf_header_t`; `e_ident` is the array by its index.
pub record ElfHeader : Type 0 where
  pub e_ident : ℕ → ℕ
  pub e_type : ℕ
  pub e_machine : ℕ
  pub e_version : ℕ
  pub e_entry : ℕ
  pub e_phoff : ℕ
  pub e_shoff : ℕ
  pub e_flags : ℕ
  pub e_ehsize : ℕ
  pub e_phentsize : ℕ
  pub e_phnum : ℕ
  pub e_shentsize : ℕ
  pub e_shnum : ℕ
  pub e_shstrndx : ℕ

-- `elf64_program_header_t`
pub record ProgramHeader : Type 0 where
  pub p_type : ℕ
  pub p_flags : ℕ
  pub p_offset : ℕ
  pub p_vaddr : ℕ
  pub p_paddr : ℕ
  pub p_filesz : ℕ
  pub p_memsz : ℕ
  pub p_align : ℕ

-- `elf64_section_header_t`
pub record SectionHeader : Type 0 where
  pub sh_name : ℕ
  pub sh_type : ℕ
  pub sh_flags : ℕ
  pub sh_addr : ℕ
  pub sh_offset : ℕ
  pub sh_size : ℕ
  pub sh_link : ℕ
  pub sh_info : ℕ
  pub sh_addralign : ℕ
  pub sh_entsize : ℕ

-- A field of `k` bytes, the lowest first
unfoldable pub read_le : ℕ → ℕ → Memory → ℕ
read_le zero at m = 0
read_le (suc k) at m = m at + 256 * read_le k (suc at) m

unfoldable pub read_elf_header : ℕ → Memory → ElfHeader
unfolding read_le
read_elf_header at m = record {
  e_ident = λ i. m (at + i);
  e_type = read_le 2 (at + 16) m;
  e_machine = read_le 2 (at + 18) m;
  e_version = read_le 4 (at + 20) m;
  e_entry = read_le 8 (at + 24) m;
  e_phoff = read_le 8 (at + 32) m;
  e_shoff = read_le 8 (at + 40) m;
  e_flags = read_le 4 (at + 48) m;
  e_ehsize = read_le 2 (at + 52) m;
  e_phentsize = read_le 2 (at + 54) m;
  e_phnum = read_le 2 (at + 56) m;
  e_shentsize = read_le 2 (at + 58) m;
  e_shnum = read_le 2 (at + 60) m;
  e_shstrndx = read_le 2 (at + 62) m;
}

unfoldable pub read_program_header : ℕ → Memory → ProgramHeader
unfolding read_le
read_program_header at m = record {
  p_type = read_le 4 at m;
  p_flags = read_le 4 (at + 4) m;
  p_offset = read_le 8 (at + 8) m;
  p_vaddr = read_le 8 (at + 16) m;
  p_paddr = read_le 8 (at + 24) m;
  p_filesz = read_le 8 (at + 32) m;
  p_memsz = read_le 8 (at + 40) m;
  p_align = read_le 8 (at + 48) m;
}

unfoldable pub read_section_header : ℕ → Memory → SectionHeader
unfolding read_le
read_section_header at m = record {
  sh_name = read_le 4 at m;
  sh_type = read_le 4 (at + 4) m;
  sh_flags = read_le 8 (at + 8) m;
  sh_addr = read_le 8 (at + 16) m;
  sh_offset = read_le 8 (at + 24) m;
  sh_size = read_le 8 (at + 32) m;
  sh_link = read_le 4 (at + 40) m;
  sh_info = read_le 4 (at + 44) m;
  sh_addralign = read_le 8 (at + 48) m;
  sh_entsize = read_le 8 (at + 56) m;
}

-- `phdrs[i]` and `shdrs[i]`
abbrev pub phdr_at : ℕ → ℕ → Memory → ProgramHeader
phdr_at phdrs i m = read_program_header (phdrs + 56 * i) m

abbrev pub shdr_at : ℕ → ℕ → Memory → SectionHeader
shdr_at shdrs i m = read_section_header (shdrs + 64 * i) m

-- `elf_supported` of a header that is not null; `machine` is `EMACHINE_EXPECTED`.
unfoldable pub elf_supported : ℕ → ElfHeader → Bool
elf_supported machine h =
    if not (h.e_ident 0 == 0x7f)
      || not (h.e_ident 1 == 69)
      || not (h.e_ident 2 == 76)
      || not (h.e_ident 3 == 70)
    then false
    else if not (h.e_ident 4 == 2)
    then false
    else if not (h.e_ident 5 == 1)
    then false
    else if not (h.e_machine == machine)
    then false
    else if not (h.e_type == 2) && not (h.e_type == 3)
    then false
    else true

-- `elfldr_loader_info_t`; the entry point is an address, and so is where the kernel info stands.
pub record LoaderInfo : Type 0 where
  pub entry_point : ℕ
  pub kernel_base : ℕ
  pub segments : List Segment
  pub segment_count : ℕ
  pub kernel_info : Option ℕ

-- The flags of a segment for the boot info and for `ptm_map`
unfoldable pub segment_flags : ℕ → ℕ
segment_flags p_flags =
    let readable = if bit_and p_flags 4 == 0 then 0 else bit_or 0 1 in
    let writable = if bit_and p_flags 2 == 0 then readable else bit_or readable 2 in
    if bit_and p_flags 1 == 0 then writable else bit_or writable 4

unfoldable pub mapping_flags : ℕ → ℕ
mapping_flags p_flags =
    let readable = if bit_and p_flags 4 == 0 then 0 else bit_or 0 4 in
    let writable = if bit_and p_flags 2 == 0 then readable else bit_or readable 2 in
    if bit_and p_flags 1 == 0 then writable else bit_or writable 1

-- Where the pages of a segment start and end
unfoldable pub start_vaddr : ProgramHeader → ℕ
start_vaddr p = math_floor p.p_vaddr page

unfoldable pub end_vaddr : ProgramHeader → ℕ
end_vaddr p = math_align_up (add64 p.p_vaddr p.p_memsz) page

-- Whether segment data of the loaded kernel covers an address, and where the address then is
unfoldable pub find_segment : ℕ → ℕ → List Segment → Option ℕ
find_segment hhdm_offset sh_addr [] = none
find_segment hhdm_offset sh_addr (seg ∷ rest) =
    let later = find_segment hhdm_offset sh_addr rest in
    if leb seg.vaddr sh_addr && ltb sh_addr (add64 seg.vaddr seg.size)
    then some (add64 (add64 seg.paddr (sub64 sh_addr seg.vaddr)) hhdm_offset)
    else later

-- The loop over the section headers left, from index `i` on. `literal` is where the bytes of
-- "prekernel_boot_info" stand.
unfoldable pub find_kernel_info : ℕ → ℕ → ℕ → ℕ → ℕ → ℕ → List Segment → Memory → Option ℕ
find_kernel_info zero i literal hhdm_offset shdrs shstrtab segments m = none
find_kernel_info (suc k) i literal hhdm_offset shdrs shstrtab segments m =
    let later = find_kernel_info k (suc i) literal hhdm_offset shdrs shstrtab segments m in
    let sh = shdr_at shdrs i m in
    elim (memcmp (shstrtab + sh.sh_name) literal 20 m) [
      | pos zero ↦ find_segment hhdm_offset sh.sh_addr segments
      | _ ↦ later
    ]

-- The loop that counts the program headers to load, over the rounds left
unfoldable pub count_loads : ℕ → ℕ → ℕ → Memory → ℕ
count_loads zero i phdrs m = 0
count_loads (suc k) i phdrs m =
    let rest = count_loads k (suc i) phdrs m in
    if (phdr_at phdrs i m).p_type == 1 then add64 rest 1 else rest

-- The two writes of a segment: zeros in all its pages, and the bytes of the file
unfoldable pub fill_segment : ℕ → ℕ → ℕ → ProgramHeader → Memory → Memory
fill_segment hhdm_offset elf_start paddr p m =
    memcpy (add64 (add64 paddr (sub64 p.p_vaddr (start_vaddr p))) hhdm_offset)
      (add64 p.p_offset elf_start) p.p_filesz
      (memset (add64 paddr hhdm_offset) 0 (sub64 (end_vaddr p) (start_vaddr p)) m)

-- What is noted of a segment that was loaded
unfoldable pub note_segment : ℕ → ProgramHeader → LoaderInfo → LoaderInfo
note_segment paddr p info =
    let segment : Segment = record {
      vaddr = p.p_vaddr;
      paddr = add64 paddr (sub64 p.p_vaddr (start_vaddr p));
      size = p.p_memsz;
      flags = segment_flags p.p_flags;
    } in
    record info {
      segments = info.segments ++ (segment ∷ []);
      segment_count = add64 info.segment_count 1;
      kernel_base = if ltb p.p_vaddr info.kernel_base then p.p_vaddr else info.kernel_base;
    }

module _ (ptm_map : ℕ → ℕ → ℕ → ℕ → Machine → Outcome Machine)
    (hhdm_offset elf_start literal : ℕ) where
  -- The loop over the pages of a segment from `j` on; `fuel` bounds its rounds.
  unfoldable pub map_segment : ℕ → ℕ → ℕ → ℕ → ℕ → ℕ → Machine → Outcome Machine
  map_segment zero j start end paddr flags s = out_of_fuel
  map_segment (suc fuel) j start end paddr flags s = elim (ltb j end) [
    | false ↦ ok s
    | true ↦ ptm_map j (add64 paddr (sub64 j start)) page flags s >>= λ s'.
        map_segment fuel (add64 j page) start end paddr flags s'
  ]

  unfoldable pub internal_elf_handle_pt_load :
      ProgramHeader → LoaderInfo → World → Outcome (LoaderInfo × World)
  internal_elf_handle_pt_load p info w =
      let start = start_vaddr p in
      let end = end_vaddr p in
      let pages = sub64 end start / page in
      pmm_alloc_ext pages page allocated w.machine.pmm >>= λ (paddr, pmm).
      map_segment (suc pages) start start end paddr (mapping_flags p.p_flags)
        (record (w.machine) { pmm = pmm })
      >>= λ s. ok (
        note_segment paddr p info,
        record { machine = s; bytes = fill_segment hhdm_offset elf_start paddr p w.bytes },
      )

  -- The loop that loads the segments, over the rounds left
  unfoldable pub load_segments : ℕ → ℕ → ℕ → LoaderInfo → World → Outcome (LoaderInfo × World)
  load_segments zero i phdrs info w = ok (info, w)
  load_segments (suc k) i phdrs info w =
      let p = phdr_at phdrs i w.bytes in
      elim (p.p_type == 1) [
        | false ↦ load_segments k (suc i) phdrs info w
        | true ↦ internal_elf_handle_pt_load p info w >>= λ (info', w').
            load_segments k (suc i) phdrs info' w'
      ]

  unfoldable pub internal_elf_load_image :
      LoaderInfo → World → Outcome (Bool × (LoaderInfo × World))
  internal_elf_load_image info w =
      let h = read_elf_header elf_start w.bytes in
      let phdrs = elf_start + h.e_phoff in
      let bytes = mul64 (count_loads h.e_phnum 0 phdrs w.bytes) segment_size in
      pmm_alloc (math_align_up bytes page / page) w.machine.pmm >>= λ (_, pmm).
      load_segments h.e_phnum 0 phdrs
        (record info { segments = []; segment_count = 0; entry_point = h.e_entry })
        (record w { machine = record (w.machine) { pmm = pmm } })
      >>= λ (info', w').
          let h' = read_elf_header elf_start w'.bytes in
          if h'.e_shoff == 0 || h'.e_shstrndx == 0
          then ok (false, (info', w'))
          else (let shdrs = elf_start + h'.e_shoff in
              let shstrtab = elf_start + (shdr_at shdrs h'.e_shstrndx w'.bytes).sh_offset in
              let found =
                find_kernel_info h'.e_shnum 0 literal hhdm_offset shdrs shstrtab info'.segments
                  w'.bytes in
              let info'' : LoaderInfo = record info' { kernel_info = found } in
              elim found [ none ↦ ok (false, (info'', w')) | some at ↦ ok (true, (info'', w')) ])

  unfoldable pub elfldr_load_kernel : ℕ → World → Outcome (Bool × (Option LoaderInfo × World))
  elfldr_load_kernel machine w =
      if not (elf_supported machine (read_elf_header elf_start w.bytes))
      then ok (false, (none, w))
      else (internal_elf_load_image
            (record {
              entry_point = 0;
              kernel_base = 0xffff_ffff_ffff_ffff;
              segments = [];
              segment_count = 0;
              kernel_info = none;
            })
            w
          >>= λ (loaded, (info, w')). ok (loaded, (some info, w')))
