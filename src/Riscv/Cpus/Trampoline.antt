-- ===== src/Riscv/Cpus/Trampoline.antt =====
-- The trampoline that `arch_prepare_handoff` of pre_kernel/src/arch/riscv64/arch.c copies and maps.
use lunar_prekernel.Base.{
  ℕ, ◌≡◌, mul64, ok, add64, ◌≤◌, arith, ◌<◌, ◌/◌, ◌^◌, ◌-◌, ◌+◌, ◌%◌, true, ◌⊎◌, panic,
  if◌then◌else◌, leb, ltb, ◌&&◌, subst, out_of_memory, walked_into_leaf, some, inr, inl, ◌∙◌, ◌>>=◌,
  refl, suc, subst,
}
use lunar_prekernel.Math.{math_align_up}
use lunar_prekernel.Ptm.{Machine, new_table}
use lunar_prekernel.Riscv.Cpus.{current_levels, arch_prepare_handoff, current_root}
use lunar_prekernel.Pmm.{PmmMap, free}
use lunar_prekernel.Riscv.Ptm.Tables.{Tables}
use lunar_prekernel.Riscv.Ptm.Fresh.{Cleared, IsReady, one_page_ends, new_table-Cleared}
use lunar_prekernel.Pmm.Alloc.{page, pmm_alloc}
use lunar_prekernel.Math.Masks.{math_align_up_lem}
use lunar_prekernel.Math.Align.{math_ceil_lem}
use lunar_prekernel.Riscv.Ptm.{RootTable, ptm_map, ptm_map_at}
use lunar_prekernel.Bootinfo.{BootInfo, World}
use lunar_prekernel.Pmm.Spans.{in_range}
use lunar_prekernel.Riscv.Ptm.Mapped.{Mapped, map_page_lem}
use lunar_prekernel.Pmm.Valid.{type_of}
use lunar_prekernel.Riscv.Ptm.Pages.{ptm_map_at-one}
use lunar_prekernel.Mem.{memcpy}

-- A trampoline takes one page.
one_page : (bytes : ℕ) → 0 < bytes → bytes ≤ page → math_align_up bytes page / page ≡ 1
one_page bytes some_bytes few =
    let up = math_align_up_lem 12 (omega arith) bytes (omega arith) in
    let whole = math_ceil_lem bytes 4096 (omega arith) (omega arith) in
    omega (arith, up, whole.0, whole.1, whole.2)

-- What clearing a taken page would give tells what was taken.
page_Cleared :
    (n phys : ℕ) (s : Machine) (pmm : PmmMap)
    → IsReady (suc n) s.pmm
    → pmm_alloc 1 s.pmm ≡ ok (phys, pmm)
    → (s' : Machine) × Cleared n s phys s' × (s'.pmm ≡ pmm)
unfolding new_table
page_Cleared n phys s pmm ready made =
    let s' : Machine = record {
      words = λ x. if leb phys x && ltb x (phys + page) then 0 else s.words x;
      pmm = pmm;
    } in
    (s', new_table-Cleared n s s' phys ready (rw (made, ◌>>=◌) refl), refl)

-- A taken page that was free leaves the tables.
took_Tables :
    (level_of : ℕ → ℕ) (n phys : ℕ) (s s' : Machine) (pmm : PmmMap)
    → Tables level_of s
    → Cleared n s phys s'
    → s'.pmm ≡ pmm
    → Tables level_of (record s { pmm = pmm })
took_Tables level_of n phys s s' pmm tables cleared same = record {
  aligned = tables.aligned;
  owned = λ t a pos inside. rw (← same) (cleared.others a (tables.owned t a pos inside));
  lower = tables.lower;
}

-- A mode of `satp` that names the depth of the tables
some_levels : (mode levels : ℕ) → current_levels mode ≡ ok levels → 3 ≤ levels
unfolding current_levels
some_levels mode levels h = ground arith

-- A page mapped at its own address, with the permission of code
map_one :
    (level_of : ℕ → ℕ) (n root total phys : ℕ) (s : Machine)
    → Tables level_of s
    → IsReady (total - 1 + n) s.pmm
    → level_of root ≡ total
    → 0 < total
    → phys % page ≡ 0
    → phys < 2 ^ 56
    → ((s' : Machine) × (ptm_map_at root total phys phys page 5 s ≡ ok s')
        × Mapped level_of n root total phys phys 1 5 s s')
      ⊎ ((ptm_map_at root total phys phys page 5 s ≡ panic out_of_memory)
          ⊎ (ptm_map_at root total phys phys page 5 s ≡ panic walked_into_leaf))
map_one level_of n root total phys s tables ready at_root some_level aligned small =
    let one =
      ptm_map_at-one root total phys phys 5 s some_level aligned aligned (omega arith)
        (omega arith) in
    elim (map_page_lem level_of n root total phys phys 1 5 s tables ready at_root (omega arith)
      some_level aligned small (inl (λ e. absurd (omega arith)))) [
        | inl (s', done, m) ↦ inl (s', one ∙ rw (done, ◌>>=◌) refl, m)
        | inr (inl empty) ↦ inr (inl (one ∙ rw (empty, ◌>>=◌) refl))
        | inr (inr stuck) ↦ inr (inr (one ∙ rw (stuck, ◌>>=◌) refl))
      ]

-- The trampoline lies on a page that was free, and is mapped there in the tables in use, whose root and
-- depth are given, and then in the new ones.
pub record Prepared (level_of : ℕ → ℕ) (n : ℕ) (g : RootTable) (root levels handoff bytes : ℕ)
    (boot : BootInfo) (w : World) (phys : ℕ) (w' : World) : Type 0 where
  pub was_free : (a : ℕ) → in_range phys page a ≡ true → type_of w.machine.pmm a ≡ some free
  pub copied : w'.bytes ≡ memcpy (add64 phys boot.hhdm_offset) handoff bytes w.bytes
  pub taken : Machine
  pub taken_words : taken.words ≡ w.machine.words
  pub between : Machine
  pub in_use : Mapped level_of (g.level_count - 1 + n) root levels phys phys 1 5 taken between
  pub new : Mapped in_use.levels n g.tplt g.level_count phys phys 1 5 between w'.machine

-- `arch_prepare_handoff` for a trampoline of at most a page, where `satp` names a mode and its root,
-- the tables lead down level by level from that root and from the new one, and the memory map has slots
-- for the page and for the tables that the two mappings may need. Either it succeeds: the trampoline is
-- copied to a page that was free, of which the address is the result; behind the first mapping the
-- tables in use map this page at its own address, and at the end the new ones do, each in the entry at
-- which the processor's walk ends, valid, to be read and executed and not written. Or it panics, with no
-- memory left or at an entry that maps a larger page.
pub arch_prepare_handoff-Prepared :
    (level_of : ℕ → ℕ) (n : ℕ) (g : RootTable) (handoff bytes satp levels : ℕ) (boot : BootInfo)
    (w : World)
    → Tables level_of w.machine
    → IsReady (suc (levels - 1 + (g.level_count - 1 + n))) w.machine.pmm
    → current_levels (satp / 2 ^ 60) ≡ ok levels
    → level_of (current_root satp) ≡ levels
    → level_of g.tplt ≡ g.level_count
    → 0 < g.level_count
    → 0 < bytes
    → bytes ≤ page
    → ((phys : ℕ) × (w' : World) × (arch_prepare_handoff g handoff bytes satp boot w
          ≡ ok (phys, w'))
        × Prepared level_of n g (current_root satp) levels handoff bytes boot w phys w')
      ⊎ ((arch_prepare_handoff g handoff bytes satp boot w ≡ panic out_of_memory)
          ⊎ (arch_prepare_handoff g handoff bytes satp boot w ≡ panic walked_into_leaf))
unfolding arch_prepare_handoff ptm_map mul64
arch_prepare_handoff-Prepared level_of n g handoff bytes satp levels boot w tables ready mode
      at_root at_new some_level some_bytes few =
    let k = levels - 1 + (g.level_count - 1 + n) in
    let pages = one_page bytes some_bytes few in
    elim (one_page_ends k w.machine.pmm ready) [
      | inr empty ↦ inr (inl (rw (pages, empty, ◌>>=◌) refl))
      | inl ((phys, pmm), made) ↦
          let (s', cleared, same) = page_Cleared k phys w.machine pmm ready made in
          let owned = took_Tables level_of k phys w.machine s' pmm tables cleared same in
          elim (map_one level_of (g.level_count - 1 + n) (current_root satp) levels phys
            (record (w.machine) { pmm = pmm }) owned (subst (IsReady k) same cleared.ready) at_root
            (omega (arith, some_levels (satp / 2 ^ 60) levels mode)) cleared.aligned
            cleared.small) [
              | inr (inl empty) ↦ inr (inl (rw (pages, made, ◌>>=◌, mode, empty) refl))
              | inr (inr stuck) ↦ inr (inr (rw (pages, made, ◌>>=◌, mode, stuck) refl))
              | inl (s₁, first, m) ↦
                  elim (map_one m.levels n g.tplt g.level_count phys s₁ m.tables m.ready
                    (m.kept_levels g.tplt (omega (arith, at_new)) ∙ at_new) some_level
                    cleared.aligned cleared.small) [
                      | inr (inl empty) ↦
                          inr (inl (rw (pages, made, ◌>>=◌, mode, first, empty) refl))
                      | inr (inr stuck) ↦
                          inr (inr (rw (pages, made, ◌>>=◌, mode, first, stuck) refl))
                      | inl (s₂, second, m₂) ↦ inl (
                        phys,
                        _,
                        rw (pages, made, ◌>>=◌, mode, first, second) refl,
                        record {
                          was_free = cleared.was_free;
                          copied = refl;
                          taken = record (w.machine) { pmm = pmm };
                          taken_words = refl;
                          between = s₁;
                          in_use = m;
                          new = m₂;
                        },
                      )
                    ]
            ]
    ]
