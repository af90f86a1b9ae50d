-- ===== src/Ptm/Hhdm.antt =====
-- The direct map that `ptm_create_hhdm_mappings` (pre_kernel/src/arch/x86_64/ptm.c) makes: the pages
-- that it maps for an entry of the memory map.
use lunar_prekernel.Base.{
  ◌+◌, ◌-◌, ◌%◌, ◌≤◌, ◌<◌, ◌≡◌, ◌==◌, arith, add64, sub64, add64-eq-add, sub64-eq-sub, u64_mod,
  Bool-cases, inl, inr,
}
use lunar_prekernel.Pmm.{Entry}
use lunar_prekernel.Pmm.Alloc.{page}
use lunar_prekernel.Pmm.Spans.{entry_end}
use lunar_prekernel.Ptm.{hhdm_base, hhdm_length}

-- For an entry that ends at least a page before the end of the address space, the range that is
-- mapped consists of whole pages and covers the entry, and it reaches less than a page over each end.
pub hhdm_range :
    (e : Entry)
    → entry_end e + page < u64_mod
    → (hhdm_base e % page ≡ 0)
      × (hhdm_length e % page ≡ 0)
      × (hhdm_base e ≤ e.base)
      × (e.base < hhdm_base e + page)
      × (entry_end e ≤ hhdm_base e + hhdm_length e)
      × (hhdm_base e + hhdm_length e < entry_end e + page)
unfolding hhdm_base hhdm_length
hhdm_range e fits =
    let b : sub64 e.base (e.base % page) ≡ e.base - e.base % page =
      sub64-eq-sub e.base (e.base % page) (omega arith) (omega arith) in
    let l : add64 e.length (e.base % page) ≡ e.length + e.base % page =
      add64-eq-add e.length (e.base % page) (omega arith) in
    elim (Bool-cases ((e.length + e.base % page) % page == 0)) [
      | inl whole ↦
          let none_left : (e.length + e.base % page) % page ≡ 0 = ground arith in
          rw (b, l, whole)
            (omega arith, omega arith, omega arith, omega arith, omega arith, omega arith)
      | inr part ↦
          let some_left : ¬ ((e.length + e.base % page) % page ≡ 0) = ground arith in
          let up : add64 (e.length + e.base % page) (page - (e.length + e.base % page) % page)
              ≡ e.length + e.base % page + (page - (e.length + e.base % page) % page) =
            add64-eq-add _ _ (omega arith) in
          rw (b, l, part, up)
            (omega arith, omega arith, omega arith, omega arith, omega arith, omega arith)
    ]
