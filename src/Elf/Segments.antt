-- ===== src/Elf/Segments.antt =====
-- What pre_kernel/src/loader/elfldr.c notes of the segments, and how it finds the kernel info in them.
use lunar_prekernel.Base.{
  ℕ, bind_ok, List, ◌≡◌, add64, zero, suc, ◌+◌, ◌-◌, ◌/◌, ◌%◌, ◌≤◌, ◌<◌, min, refl, sym, ap, ◌∙◌,
  ◌⊎◌, inl, inr, ◌&&◌, Option, none, some, [], ◌∷◌, ◌++◌, arith, ltb, leb, ◌==◌, if◌then◌else◌,
  Bool-cases, length, All, length-append, u64_mod, sub64, add64-eq-add, sub64-eq-sub, Outcome, ok,
  panic, fault, out_of_fuel, ◌>>=◌,
}
use lunar_prekernel.Pmm.{PmmMap, allocated}
use lunar_prekernel.Ptm.{Machine}
use lunar_prekernel.Bootinfo.{Segment, World}
use lunar_prekernel.Elf.{
  ProgramHeader, LoaderInfo, phdr_at, note_segment, map_segment, internal_elf_handle_pt_load,
  load_segments, find_segment, end_vaddr, start_vaddr, page, mapping_flags, fill_segment,
  pmm_alloc_ext,
}

-- The least address of a segment, or the largest address if there is none.
abbrev pub lowest : List Segment → ℕ
lowest [] = 0xffff_ffff_ffff_ffff
lowest (s ∷ ss) = min s.vaddr (lowest ss)

lowest-append :
    (xs : List Segment) (s : Segment) → lowest (xs ++ (s ∷ [])) ≡ min s.vaddr (lowest xs)
lowest-append [] s = omega arith
lowest-append (x ∷ xs) s = omega (arith, lowest-append xs s)

-- The base of the kernel is the least address of its segments, and their count is right.
pub record Describes (info : LoaderInfo) : Type 0 where
  pub base : info.kernel_base ≡ lowest info.segments
  pub count : info.segment_count ≡ length info.segments % u64_mod

choose_min : (v b : ℕ) → (if ltb v b then v else b) ≡ min v b
choose_min v b = ground arith

note_segment-Describes :
    (paddr : ℕ) (p : ProgramHeader) (info : LoaderInfo)
    → Describes info
    → Describes (note_segment paddr p info)
unfolding note_segment add64
note_segment-Describes paddr p info d = record {
  base =
      choose_min p.p_vaddr info.kernel_base
      ∙ ap (λ b. min p.p_vaddr b) d.base
      ∙ sym (lowest-append info.segments _);
  count = omega (arith, d.count, length-append info.segments _);
}

-- What two steps and a last one note, whatever they do to the machine.
noted :
    (p : ProgramHeader) (info info' : LoaderInfo) (w' : World) (o : Outcome (ℕ × PmmMap))
    (f : ℕ → PmmMap → Outcome Machine) (g : ℕ → Machine → LoaderInfo × World)
    → ((paddr : ℕ) (s : Machine) → (g paddr s).0 ≡ note_segment paddr p info)
    → (o >>= λ (paddr, pmm). f paddr pmm >>= λ s. ok (g paddr s)) ≡ ok (info', w')
    → (paddr : ℕ) × (note_segment paddr p info ≡ info')
noted p info info' w' (ok (paddr, pmm)) f g n e = last (f paddr pmm) e
  where
    last :
        (s : Outcome Machine)
        → (s >>= λ s'. ok (g paddr s')) ≡ ok (info', w')
        → (paddr : ℕ) × (note_segment paddr p info ≡ info')
    last (ok s) h =
        let same : g paddr s ≡ (info', w') = cc h in (paddr, sym (n paddr s) ∙ ap (λ x. x.0) same)
    last (panic q) h = absurd (cc)
    last fault h = absurd (cc)
    last out_of_fuel h = absurd (cc)
noted p info info' w' (panic q) f g n e = absurd (cc)
noted p info info' w' fault f g n e = absurd (cc)
noted p info info' w' out_of_fuel f g n e = absurd (cc)

module _ (ptm_map : ℕ → ℕ → ℕ → ℕ → Machine → Outcome Machine)
    (hhdm_offset elf_start literal : ℕ) where
  handle-Describes :
      (p : ProgramHeader) (info : LoaderInfo) (w : World) (info' : LoaderInfo) (w' : World)
      → Describes info
      → internal_elf_handle_pt_load ptm_map hhdm_offset elf_start literal p info w ≡ ok (info', w')
      → Describes info'
  unfolding internal_elf_handle_pt_load
  handle-Describes p info w info' w' d e =
      let pages = sub64 (end_vaddr p) (start_vaddr p) / page in
      let mapped = λ (paddr : ℕ) (pmm : PmmMap).
        map_segment ptm_map hhdm_offset elf_start literal (suc pages) (start_vaddr p)
          (start_vaddr p) (end_vaddr p) paddr (mapping_flags p.p_flags)
          (record (w.machine) { pmm = pmm }) in
      let result : ℕ → Machine → LoaderInfo × World = λ paddr s. (
        note_segment paddr p info,
        record { machine = s; bytes = fill_segment hhdm_offset elf_start paddr p w.bytes },
      ) in
      let (paddr, same) =
        noted p info info' w' (pmm_alloc_ext pages page allocated w.machine.pmm) mapped result
          (λ _ _. refl) e in
      rw same at (note_segment-Describes paddr p info d)

  -- Whatever program headers are loaded, the base of the kernel stays the least address of the
  -- segments noted, and their count stays that of the list.
  pub load_segments-Describes :
      (k i phdrs : ℕ) (info : LoaderInfo) (w : World) (info' : LoaderInfo) (w' : World)
      → Describes info
      → load_segments ptm_map hhdm_offset elf_start literal k i phdrs info w ≡ ok (info', w')
      → Describes info'
  unfolding load_segments
  load_segments-Describes zero i phdrs info w info' w' d e =
      let same : info ≡ info' = cc e in rw same at d
  load_segments-Describes (suc k) i phdrs info w info' w' d e =
      elim (Bool-cases ((phdr_at phdrs i w.bytes).p_type == 1)) [
        | inr other ↦
            load_segments-Describes k (suc i) phdrs info w info' w' d
              (rw (other, load_segments) at e)
        | inl load ↦
            let ((info₁, w₁), e₁, e₂) = bind_ok _ _ (info', w') (rw (load, load_segments) at e) in
            load_segments-Describes k (suc i) phdrs info₁ w₁ info' w'
              (handle-Describes (phdr_at phdrs i w.bytes) info w info₁ w₁ d e₁) e₂
      ]

-- The segment holds the address.
abbrev pub Holds : ℕ → Segment → Type 0
Holds a s = (s.vaddr ≤ a) × (a < s.vaddr + s.size)

-- The search finds the first segment that holds the address, and says where the address is reached in
-- memory; it finds nothing if none holds it.
abbrev pub Resolves : ℕ → ℕ → List Segment → Option ℕ → Type 0
Resolves hhdm_offset a segments v =
    ((v ≡ none) × All (λ s. ¬ (Holds a s)) segments)
    ⊎ ((before : List Segment) × (s : Segment) × (after : List Segment) × (segments
          ≡ before ++ (s ∷ after))
        × All (λ s. ¬ (Holds a s)) before
        × Holds a s
        × (v ≡ some (s.paddr + (a - s.vaddr) + hhdm_offset)))

-- `find_segment`, of segments that do not wrap, neither where they are linked nor where they are
-- reached in memory, resolves an address.
pub find_segment_lem :
    (hhdm_offset a : ℕ) (segments : List Segment)
    → All
        (λ (s : Segment). (s.vaddr + s.size < u64_mod) × (s.paddr + s.size + hhdm_offset < u64_mod))
        segments
    → Resolves hhdm_offset a segments (find_segment hhdm_offset a segments)
unfolding find_segment
find_segment_lem hhdm_offset a [] h = inl (refl, tt)
find_segment_lem hhdm_offset a (s ∷ ss) h =
    let end : add64 s.vaddr s.size ≡ s.vaddr + s.size = add64-eq-add _ _ h.0.0 in
    elim (Bool-cases (leb s.vaddr a && ltb a (s.vaddr + s.size))) [
      | inl holds ↦
          let inside : Holds a s = ground arith in
          let off : sub64 a s.vaddr ≡ a - s.vaddr =
            sub64-eq-sub _ _ (omega arith) (omega (arith, h.0)) in
          let at : add64 (add64 s.paddr (a - s.vaddr)) hhdm_offset
              ≡ s.paddr + (a - s.vaddr) + hhdm_offset =
            ap (λ b. add64 b hhdm_offset) (add64-eq-add _ _ (omega (arith, h.0)))
            ∙ add64-eq-add _ _ (omega (arith, h.0)) in
          rw (end, holds, off, at) (inr ([], s, ss, refl, tt, inside, refl))
      | inr lacks ↦
          let outside : ¬ (Holds a s) = λ i. absurd (ground arith) in
          rw (end, lacks)
            (elim (find_segment_lem hhdm_offset a ss h.1) [
              | inl (e, all) ↦ inl (e, (outside, all))
              | inr (before, t, after, e, all, holds, v) ↦
                  inr (s ∷ before, t, after, ap (◌∷◌ s) e, (outside, all), holds, v)
            ])
    ]
