-- ===== src/Riscv/Ptm/Mapped.antt =====
-- What `map_page` of pre_kernel/src/arch/riscv64/ptm.c makes of the page tables.
use lunar_prekernel.Base.{
  sym, panic, ok, ℕ, ok, ◌+◌, ◌≡◌, arith, ◌<◌, suc, Bool-cases, bit_and, ◌==◌, inl, ◌∙◌, inr, ◌≢◌,
  ◌*◌, ◌⊎◌, some, ◌/◌, ◌%◌, ◌-◌, ◌≤◌, ◌^◌, ==_iff, ltb, ap, ◌||◌, out_of_memory, walked_into_leaf,
  false, ◌>>=◌,
}
use lunar_prekernel.Riscv.Ptm.{pte_to_pa, vaddr_vpn, map_page, leaf_flags}
use lunar_prekernel.Riscv.Ptm.Entries.{entry_of, vaddr_vpn-lt, flag_bits}
use lunar_prekernel.Riscv.Ptm.Fresh.{IsReady}
use lunar_prekernel.Riscv.Ptm.Tables.{Points, Tables, set_entry_off, set_entry_at, same_slot}
use lunar_prekernel.Riscv.Ptm.Descend.{
  descend_lem, walk_kept, leaf_flags_lem, IsPermission, descend-Ends,
}
use lunar_prekernel.Riscv.Ptm.Hardware.{
  table_walk, index_at, page_entry, walk-table_walk, vaddr_vpn-index_at, entry_of-page_entry,
}
use lunar_prekernel.Riscv.Ptm.Walk.{Descended}
use lunar_prekernel.Ptm.{Machine, set_entry}
use lunar_prekernel.Pmm.Alloc.{page}

-- The tables behind a call of `map_page`: those there were, perhaps with new ones, with the entry of the
-- page and its permissions at the end of the processor's walk; all else that was valid is as it was.
pub record Mapped (level_of : ℕ → ℕ) (n root total vaddr paddr target flags : ℕ) (s s' : Machine)
    : Type 0 where
  pub levels : ℕ → ℕ
  pub tables : Tables levels s'
  pub ready : IsReady n s'.pmm
  pub kept_levels : (t : ℕ) → 0 < level_of t → levels t ≡ level_of t
  pub table : ℕ
  pub table_level : levels table ≡ target
  pub walked : table_walk (total - target) target root vaddr s'.words ≡ some table
  pub entry : s'.words (table + 8 * index_at vaddr target) ≡ page_entry paddr flags
  pub present :
      (t i : ℕ)
      → 0 < level_of t
      → i < 512
      → bit_and (s.words (t + 8 * i)) 1 ≢ 0
      → t + 8 * i ≢ table + 8 * index_at vaddr target
      → s'.words (t + 8 * i) ≡ s.words (t + 8 * i)

module _ (level_of : ℕ → ℕ) (n root total vaddr paddr target flags : ℕ) (s s₁ : Machine) (leaf : ℕ)
    (d : Descended level_of (total - target) n target root vaddr s leaf s₁)
    (some_level : 0 < target) (within : target ≤ total) (at_root : level_of root ≡ total)
    (aligned : paddr % 4096 ≡ 0) (small : paddr < 2 ^ 56) (permission : IsPermission flags) where
  mapped : Machine
  mapped = set_entry leaf (vaddr_vpn vaddr target) (entry_of paddr (leaf_flags flags)) s₁

  leaf_aligned : leaf % page ≡ 0
  leaf_aligned = d.tables.aligned leaf (omega (arith, d.leaf_level))

  -- A slot of another table, or another slot
  other_word : (x : ℕ) → x ≢ leaf + 8 * vaddr_vpn vaddr target → mapped.words x ≡ s₁.words x
  unfolding mapped set_entry
  other_word x other =
      set_entry_off leaf (vaddr_vpn vaddr target) (entry_of paddr (leaf_flags flags)) x s₁ other

  slot_word : mapped.words (leaf + 8 * vaddr_vpn vaddr target) ≡ entry_of paddr (leaf_flags flags)
  unfolding mapped set_entry
  slot_word = set_entry_at leaf (vaddr_vpn vaddr target) (entry_of paddr (leaf_flags flags)) s₁

  bits :
      (bit_and (entry_of paddr (leaf_flags flags)) 1 ≡ leaf_flags flags % 2)
      × (bit_and (entry_of paddr (leaf_flags flags)) 14 ≡ leaf_flags flags / 2 % 8 * 2)
  bits = flag_bits paddr (leaf_flags flags) aligned small (omega (arith, leaf_flags_lem flags))

  mapped_lower :
      (t i : ℕ)
      → 1 < d.levels t
      → i < 512
      → Points (mapped.words (t + 8 * i))
      → suc (d.levels (pte_to_pa (mapped.words (t + 8 * i)))) ≡ d.levels t
  mapped_lower t i above low points =
      elim (Bool-cases (t + 8 * i == leaf + 8 * vaddr_vpn vaddr target)) [
        | inl hit ↦
            let here : t + 8 * i ≡ leaf + 8 * vaddr_vpn vaddr target = (==_iff _ _).0 hit in
            let word : mapped.words (t + 8 * i) ≡ entry_of paddr (leaf_flags flags) =
              ap (λ x. mapped.words x) here ∙ slot_word in
            let clear : bit_and (entry_of paddr (leaf_flags flags)) 14 ≡ 0 =
              (rw word at points).1 in
            absurd ((leaf_flags_lem flags).1 permission (omega (arith, bits.1, clear)))
        | inr other ↦
            let word = other_word (t + 8 * i) (ground arith) in
            rw word (d.tables.lower t i above low (rw word at points))
      ]

  mapped_Tables : Tables d.levels mapped
  unfolding mapped set_entry
  mapped_Tables = record {
    aligned = d.tables.aligned;
    owned = d.tables.owned;
    lower = mapped_lower;
  }

  higher_word :
      (t i : ℕ) → target < d.levels t → i < 512 → mapped.words (t + 8 * i) ≡ s₁.words (t + 8 * i)
  higher_word t i above low = other_word (t + 8 * i) λ e.
      let same =
        same_slot t leaf i (vaddr_vpn vaddr target) (d.tables.aligned t (omega (arith, above)))
          leaf_aligned low (vaddr_vpn-lt vaddr target) e in
      let level : d.levels t ≡ target = ap d.levels same.0 ∙ d.leaf_level in
      absurd (omega (arith, level, above))

  mapped_lem : Mapped level_of n root total vaddr paddr target flags s mapped
  mapped_lem = record {
    levels = d.levels;
    tables = mapped_Tables;
    ready = unfold mapped set_entry in d.ready;
    kept_levels = d.kept_levels;
    table = leaf;
    table_level = d.leaf_level;
    walked =
        sym (walk-table_walk (total - target) target root vaddr mapped.words)
        ∙ walk_kept (total - target) target root vaddr leaf d.levels s₁ mapped.words d.tables
            some_level (omega (arith, d.kept_levels root (omega (arith, at_root)), at_root))
            higher_word d.walked;
    entry =
        rw (← vaddr_vpn-index_at vaddr target)
          (slot_word ∙ entry_of-page_entry paddr flags aligned small);
    present = λ t i pos low valid other.
        other_word (t + 8 * i) (rw (← vaddr_vpn-index_at vaddr target) at other)
        ∙ d.present t i pos low valid;
  }

-- `map_page` at a level of the tables, of a page below 2 ^ 56 with some permission, in tables that lead
-- down level by level from the root, with slots in the memory map for the tables it may need. Either it
-- succeeds: the tables still lead down so; the processor's walk for the address, by the processor's
-- layout of addresses and entries, ends at the entry that has the page's number, is valid and grants what
-- the flags name; and every other entry that was valid is as it was. Or it panics, with no memory left
-- for a table or at an entry on the way that maps a larger page.
pub map_page_lem :
    (level_of : ℕ → ℕ) (n root total vaddr paddr target flags : ℕ) (s : Machine)
    → Tables level_of s
    → IsReady (total - target + n) s.pmm
    → level_of root ≡ total
    → 0 < target
    → target ≤ total
    → paddr % 4096 ≡ 0
    → paddr < 2 ^ 56
    → IsPermission flags
    → ((s' : Machine) × (map_page root total vaddr paddr target flags s ≡ ok s')
        × Mapped level_of n root total vaddr paddr target flags s s')
      ⊎ ((map_page root total vaddr paddr target flags s ≡ panic out_of_memory)
          ⊎ (map_page root total vaddr paddr target flags s ≡ panic walked_into_leaf))
unfolding map_page mapped
map_page_lem level_of n root total vaddr paddr target flags s tables ready at_root some_level within
      aligned small permission =
    let k = total - target in
    let level : level_of root ≡ target + k = omega (arith, at_root, within) in
    let valid : (ltb target 1 || ltb total target) ≡ false = ground arith in
    elim (descend-Ends k n target root vaddr level_of s tables ready level some_level) [
      | inl ((leaf, s₁), found) ↦
          let d =
            descend_lem k n target root vaddr level_of s leaf s₁ tables ready level some_level
              found in
          inl (
            mapped level_of n root total vaddr paddr target flags s s₁ leaf d some_level within
                at_root aligned small permission,
            rw (valid, found, ◌>>=◌),
            mapped_lem level_of n root total vaddr paddr target flags s s₁ leaf d some_level within
                at_root aligned small permission,
          )
      | inr (inl empty) ↦ inr (inl (rw (valid, empty, ◌>>=◌)))
      | inr (inr stuck) ↦ inr (inr (rw (valid, stuck, ◌>>=◌)))
    ]
