-- ===== src/Elf/Content.antt =====
-- What pre_kernel/src/loader/elfldr.c leaves in memory for a segment: the bytes of the file, and zeros
-- in the rest of its pages.
use lunar_prekernel.Base.{
  ℕ, ◌+◌, ◌≤◌, ◌-◌, ◌*◌, ◌/◌, u64_mod, ◌<◌, ◌%◌, ◌⊎◌, ◌≡◌, arith, sub64, ap, ◌∙◌, inl, inr, false,
  if◌then◌else◌, Bool-cases, add64, add64-eq-add, sub64-eq-sub,
}
use lunar_prekernel.Math.Align.{math_ceil_lem, math_floor_lem}
use lunar_prekernel.Math.Masks.{math_align_up_lem}
use lunar_prekernel.Mem.{Memory, memset}
use lunar_prekernel.Mem.Copy.{memset_lem, memcpy_lem}
use lunar_prekernel.Pmm.Alloc.{page}
use lunar_prekernel.Pmm.Spans.{in_range}
use lunar_prekernel.Elf.{ProgramHeader, start_vaddr, end_vaddr, fill_segment}

-- The pages of a segment that ends a page before the end of the address space: whole pages that hold
-- it and reach less than a page over each end.
pub segment_pages :
    (p : ProgramHeader)
    → p.p_vaddr + p.p_memsz + page ≤ u64_mod
    → (start_vaddr p ≤ p.p_vaddr)
      × (p.p_vaddr < start_vaddr p + page)
      × (start_vaddr p % page ≡ 0)
      × (p.p_vaddr + p.p_memsz ≤ end_vaddr p)
      × (end_vaddr p < p.p_vaddr + p.p_memsz + page)
      × (end_vaddr p % page ≡ 0)
unfolding start_vaddr end_vaddr
segment_pages p fits =
    let low = math_floor_lem p.p_vaddr page (omega arith) (omega arith) in
    let high = math_ceil_lem (p.p_vaddr + p.p_memsz) page (omega arith) fits in
    rw
      (
        add64-eq-add p.p_vaddr p.p_memsz (omega arith),
        math_align_up_lem 12 (omega arith) (p.p_vaddr + p.p_memsz) fits,
      )
      (low.0, low.1, low.2, high.0, high.1, high.2)

-- Where the pages that hold a segment start and end
abbrev pub first_page : ProgramHeader → ℕ
first_page p = p.p_vaddr / page * page

abbrev pub pages_end : ProgramHeader → ℕ
pages_end p = (p.p_vaddr + p.p_memsz + page - 1) / page * page

pages_lem :
    (p : ProgramHeader)
    → p.p_vaddr + p.p_memsz + page ≤ u64_mod
    → (start_vaddr p ≡ first_page p) × (end_vaddr p ≡ pages_end p)
pages_lem p fits =
    let s = segment_pages p fits in (omega (arith, s.0, s.1, s.2), omega (arith, s.3, s.4, s.5))

-- The pages of a segment at the address `base`, where the file's bytes start at `from`.
abbrev pub loaded : ℕ → ℕ → ProgramHeader → Memory → ℕ → ℕ
loaded base from p m x =
    let first = base + (p.p_vaddr - first_page p) in
    if in_range first p.p_filesz x
    then m (from + (x - first))
    else if in_range base (pages_end p - first_page p) x
    then 0
    else m x

-- A segment whose part in the file is no longer than in memory, where neither its addresses nor those
-- of its pages in memory wrap and the file's part lies apart from these pages: behind the two writes
-- the segment's data is that of the file, the rest of its pages is 0, and no other byte changes.
pub fill_segment_lem :
    (hhdm_offset elf_start paddr : ℕ) (p : ProgramHeader) (m : Memory) (x : ℕ)
    → p.p_vaddr + p.p_memsz + page ≤ u64_mod
    → p.p_filesz ≤ p.p_memsz
    → paddr + hhdm_offset + (pages_end p - first_page p) < u64_mod
    → p.p_offset + elf_start + p.p_filesz < u64_mod
    → (p.p_offset + elf_start + p.p_filesz ≤ paddr + hhdm_offset)
      ⊎ (paddr + hhdm_offset + (pages_end p - first_page p) ≤ p.p_offset + elf_start)
    → fill_segment hhdm_offset elf_start paddr p m x
      ≡ loaded (paddr + hhdm_offset) (p.p_offset + elf_start) p m x
unfolding fill_segment
fill_segment_lem hhdm_offset elf_start paddr p m x fits part high file apart =
    let same = pages_lem p fits in
    let s = rw (same.0, same.1) at (segment_pages p fits) in
    let base = paddr + hhdm_offset in
    let from = p.p_offset + elf_start in
    let size = pages_end p - first_page p in
    let first = base + (p.p_vaddr - first_page p) in
    let e₁ : sub64 p.p_vaddr (first_page p) ≡ p.p_vaddr - first_page p =
      sub64-eq-sub _ _ s.0 (omega arith) in
    let e₂ : sub64 (pages_end p) (first_page p) ≡ size =
      sub64-eq-sub _ _ (omega (arith, s)) (omega (arith, s)) in
    let e₃ : add64 (add64 paddr (p.p_vaddr - first_page p)) hhdm_offset ≡ first =
      ap (λ a. add64 a hhdm_offset) (add64-eq-add _ _ (omega (arith, s)))
      ∙ add64-eq-add _ _ (omega (arith, s))
      ∙ omega arith in
    let e₄ : add64 paddr hhdm_offset ≡ base = add64-eq-add _ _ (omega arith) in
    let e₅ : add64 p.p_offset elf_start ≡ from = add64-eq-add _ _ (omega arith) in
    rw (same.0, same.1, e₁, e₂, e₃, e₄, e₅)
      (memcpy_lem first from p.p_filesz (memset base 0 size m) x (ground (arith, s))
        ∙ elim (Bool-cases (in_range first p.p_filesz x)) [
          | inl inside ↦
              let off : in_range base size (from + (x - first)) ≡ false = ground (arith, s) in
              rw inside (memset_lem base 0 size m (from + (x - first)) ∙ rw off)
          | inr out ↦ rw out (memset_lem base 0 size m x)
        ])
