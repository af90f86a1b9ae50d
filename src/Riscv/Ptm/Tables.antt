-- ===== src/Riscv/Ptm/Tables.antt =====
-- The page tables of pre_kernel/src/arch/riscv64/ptm.c as a whole: which pages are tables, of which
-- level, and that the entries lead down level by level.
use lunar_prekernel.Base.{
  ℕ, suc, ◌+◌, ◌*◌, ◌%◌, ◌<◌, ◌≡◌, ◌≢◌, ◌∙◌, ap, inl, inr, true, false, some, arith, Bool-cases,
  ◌==◌, if◌then◌else◌, bit_and, ==_iff, refl,
}
use native.Mathlib.Decide.{dec_lt}
use lunar_prekernel.Pmm.{free}
use lunar_prekernel.Pmm.Spans.{in_range}
use lunar_prekernel.Pmm.Valid.{type_of}
use lunar_prekernel.Pmm.Alloc.{page}
use lunar_prekernel.Ptm.{Machine, set_entry}
use lunar_prekernel.Riscv.Ptm.{pte_to_pa}
use lunar_prekernel.Riscv.Ptm.Entries.{entry_of, pte_to_pa-entry_of}
use lunar_prekernel.Riscv.Ptm.Fresh.{Cleared}

-- An entry that leads to a table: it is valid, and none of R, W and X is set.
abbrev pub Points : ℕ → Type 0
Points e = (bit_and e 1 ≢ 0) × (bit_and e 14 ≡ 0)

-- `level_of` gives each table its level, and 0 to all other addresses. A table is a page that is not
-- free, and what its entries lead to is a table of the level below.
pub record Tables (level_of : ℕ → ℕ) (s : Machine) : Type 0 where
  pub aligned : (t : ℕ) → 0 < level_of t → t % page ≡ 0
  pub owned : (t a : ℕ) → 0 < level_of t → in_range t page a ≡ true → type_of s.pmm a ≢ some free
  pub lower :
      (t i : ℕ)
      → 1 < level_of t
      → i < 512
      → Points (s.words (t + 8 * i))
      → suc (level_of (pte_to_pa (s.words (t + 8 * i)))) ≡ level_of t

-- One more table
abbrev pub with_table : ℕ → ℕ → (ℕ → ℕ) → ℕ → ℕ
with_table child level level_of t = if t == child then level else level_of t

-- The slots of two tables
pub same_slot :
    (t u i j : ℕ)
    → t % page ≡ 0
    → u % page ≡ 0
    → i < 512
    → j < 512
    → t + 8 * i ≡ u + 8 * j
    → (t ≡ u) × (i ≡ j)
same_slot t u i j at au low high e = (omega arith, omega arith)

pub set_entry_at : (table i e : ℕ) (s : Machine) → (set_entry table i e s).words (table + 8 * i) ≡ e
unfolding set_entry
set_entry_at table i e s = ground arith

pub set_entry_off :
    (table i e x : ℕ) (s : Machine)
    → x ≢ table + 8 * i
    → (set_entry table i e s).words x ≡ s.words x
unfolding set_entry
set_entry_off table i e x s h = ground arith

module _ (level_of : ℕ → ℕ) (n table i level child : ℕ) (s s₁ : Machine)
    (tables : Tables level_of s) (above : level_of table ≡ suc level) (some_level : 0 < level)
    (cleared : Cleared n s child s₁) (index : i < 512) where
  pub not_table : level_of child ≡ 0
  not_table = elim (dec_lt 0 (level_of child)) [
    | yes p ↦
        absurd (tables.owned child child p (ground arith) (cleared.was_free child (ground arith)))
    | no p ↦ omega arith
  ]

  table_aligned : table % page ≡ 0
  table_aligned = tables.aligned table (omega (arith, above))

  -- The page of a table is not that of the new one.
  pub kept_word :
      (t j : ℕ)
      → 0 < level_of t
      → j < 512
      → t + 8 * j ≢ table + 8 * i
      → (set_entry table i (entry_of child 1) s₁).words (t + 8 * j) ≡ s.words (t + 8 * j)
  kept_word t j pos low other =
      let at = tables.aligned t pos in
      let outside : in_range child page (t + 8 * j) ≡ false =
        elim (Bool-cases (in_range child page (t + 8 * j))) [
          | inl inside ↦
              absurd (
                tables.owned t (t + 8 * j) pos (ground arith) (cleared.was_free (t + 8 * j) inside))
          | inr e ↦ e
        ] in
      set_entry_off table i (entry_of child 1) (t + 8 * j) s₁ other
      ∙ cleared.other_words (t + 8 * j) outside

  child_word :
      (j : ℕ) → j < 512 → (set_entry table i (entry_of child 1) s₁).words (child + 8 * j) ≡ 0
  child_word j low =
      let here = table_aligned in
      let there = cleared.aligned in
      let apart : child + 8 * j ≢ table + 8 * i = λ e.
        let same = same_slot child table j i there here low index e in
        let none_there : level_of child ≡ suc level = ap level_of same.0 ∙ above in
        absurd (omega (arith, none_there, not_table)) in
      set_entry_off table i (entry_of child 1) (child + 8 * j) s₁ apart
      ∙ cleared.zero_words (child + 8 * j) (ground arith)

  fresh_next : pte_to_pa (entry_of child 1) ≡ child
  fresh_next = pte_to_pa-entry_of child 1 cleared.aligned cleared.small (omega arith)

  -- What an entry leads to in the new tables
  linked_lower :
      (t j : ℕ)
      → 1 < with_table child level level_of t
      → j < 512
      → Points ((set_entry table i (entry_of child 1) s₁).words (t + 8 * j))
      → suc (
          with_table child level level_of
            (pte_to_pa ((set_entry table i (entry_of child 1) s₁).words (t + 8 * j))))
        ≡ with_table child level level_of t
  linked_lower t j some_table low points = elim (Bool-cases (t == child)) [
    | inl new ↦
        let same : t ≡ child = (==_iff t child).0 new in
        let word : (set_entry table i (entry_of child 1) s₁).words (t + 8 * j) ≡ 0 =
          rw same (child_word j low) in
        absurd ((rw word at points).0 refl)
    | inr old ↦
        let was : with_table child level level_of t ≡ level_of t = rw old in
        elim (Bool-cases (t + 8 * j == table + 8 * i)) [
          | inl slot ↦
              let here : t + 8 * j ≡ table + 8 * i = (==_iff _ _).0 slot in
              let same =
                same_slot t table j i (tables.aligned t (omega (arith, was, some_table)))
                  table_aligned low index here in
              let word : (set_entry table i (entry_of child 1) s₁).words (t + 8 * j)
                  ≡ entry_of child 1 =
                rw here (set_entry_at table i (entry_of child 1) s₁) in
              let led : with_table child level level_of child ≡ level = ground arith in
              rw (word, fresh_next, led, was, same.0) (omega (arith, above))
          | inr other ↦
              let word : (set_entry table i (entry_of child 1) s₁).words (t + 8 * j)
                  ≡ s.words (t + 8 * j) =
                kept_word t j (omega (arith, was, some_table)) low (ground arith) in
              let down =
                tables.lower t j (omega (arith, was, some_table)) low (rw word at points) in
              let next = pte_to_pa (s.words (t + 8 * j)) in
              let not_child : (next == child) ≡ false = elim (Bool-cases (next == child)) [
                | inl hit ↦
                    let none_there : level_of next ≡ 0 =
                      ap level_of ((==_iff next child).0 hit) ∙ not_table in
                    absurd (omega (arith, none_there, down, was, some_table))
                | inr e ↦ e
              ] in
              rw (word, was, not_child) down
        ]
  ]

  -- A cleared page, linked into a table, is one more table.
  pub link_table :
      Tables (with_table child level level_of) (set_entry table i (entry_of child 1) s₁)
  unfolding set_entry
  link_table = record {
    aligned = λ t pos. elim (Bool-cases (t == child)) [
      | inl new ↦ rw ((==_iff t child).0 new) cleared.aligned
      | inr old ↦ tables.aligned t (rw old at pos)
    ];
    owned = λ t a pos inside. elim (Bool-cases (t == child)) [
      | inl new ↦ cleared.taken a (rw ((==_iff t child).0 new) at inside)
      | inr old ↦ cleared.others a (tables.owned t a (rw old at pos) inside)
    ];
    lower = linked_lower;
  }
