-- ===== src/Riscv/Ptm/Descend.antt =====
-- The loop of `map_page` of pre_kernel/src/arch/riscv64/ptm.c, from level to level, and the flags of the
-- entry behind it.
use lunar_prekernel.Base.{
  ℕ, ok, ◌+◌, ◌≡◌, arith, refl, ◌<◌, suc, Bool-cases, bit_and, ◌==◌, inl, bind_ok, sym, ◌∙◌, inr,
  ◌≢◌, zero, ◌*◌, ◌⊎◌, some, ◌/◌, ◌%◌, Outcome, panic, ◌>>=◌, out_of_memory, walked_into_leaf,
}
use lunar_prekernel.Riscv.Ptm.{pte_to_pa, vaddr_vpn, descend, leaf_flags}
use lunar_prekernel.Riscv.Ptm.Entries.{entry_of, vaddr_vpn-lt, pte_to_pa-entry_of}
use lunar_prekernel.Riscv.Ptm.Fresh.{IsReady, Cleared, new_table-Cleared, new_table_ends}
use lunar_prekernel.Riscv.Ptm.Tables.{Points, Tables, with_table, link_table}
use lunar_prekernel.Riscv.Ptm.Walk.{
  walk, entry_at, descend_absent, descend_pointer, descend_leaf, Descended, IsReady-less,
  through_entry, through_new, walk_step,
}
use lunar_prekernel.Ptm.{Machine, new_table, set_entry}

zero_add : (n : ℕ) → 0 + n ≡ n
zero_add n = omega arith

Descended-here :
    (n target table vaddr : ℕ) (level_of : ℕ → ℕ) (s : Machine) (leaf : ℕ) (s' : Machine)
    → Tables level_of s
    → IsReady n s.pmm
    → level_of table ≡ target
    → descend 0 target table vaddr s ≡ ok (leaf, s')
    → Descended level_of 0 n target table vaddr s leaf s'
unfolding descend walk
Descended-here n target table vaddr level_of s leaf s' tables ready level h =
    let same_leaf : leaf ≡ table = cc h in
    let same : s' ≡ s = cc h in
    rw (same_leaf, same)
      (record {
        levels = level_of;
        tables = tables;
        ready = ready;
        leaf_level = level;
        kept_levels = λ t pos. refl;
        walked = refl;
        present = λ t i pos low valid. refl;
      })

-- The loop of `map_page` reaches the table that a walk then reaches too.
pub descend_lem :
    (k n target table vaddr : ℕ) (level_of : ℕ → ℕ) (s : Machine) (leaf : ℕ) (s' : Machine)
    → Tables level_of s
    → IsReady (k + n) s.pmm
    → level_of table ≡ target + k
    → 0 < target
    → descend k target table vaddr s ≡ ok (leaf, s')
    → Descended level_of k n target table vaddr s leaf s'
descend_lem zero n target table vaddr level_of s leaf s' tables ready level some_level h =
    Descended-here n target table vaddr level_of s leaf s' tables (rw (zero_add n) at ready)
      (omega (arith, level)) h
descend_lem (suc k) n target table vaddr level_of s leaf s' tables ready level some_level h =
    let e = entry_at k target table vaddr s in
    elim (Bool-cases (bit_and e 1 == 0)) [
      | inl clear ↦
          let absent : bit_and e 1 ≡ 0 = ground arith in
          let ((child, s₁), made, rest) =
            bind_ok (new_table s) _ (leaf, s')
              (sym (descend_absent k target table vaddr s absent) ∙ h) in
          let more : suc k + n ≡ suc (k + n) = omega arith in
          let cleared : Cleared (k + n) s child s₁ =
            new_table-Cleared (k + n) s s₁ child (rw more at ready) made in
          let next : pte_to_pa (entry_of child 1) ≡ child =
            pte_to_pa-entry_of child 1 cleared.aligned cleared.small (omega arith) in
          let above : level_of table ≡ suc (target + k) = omega (arith, level) in
          through_new level_of k (k + n) n target table vaddr child s s₁ leaf s' tables above
            some_level cleared absent
            (descend_lem k n target child vaddr (with_table child (target + k) level_of)
              (set_entry table (vaddr_vpn vaddr (target + suc k)) (entry_of child 1) s₁) leaf s'
              (link_table level_of (k + n) table (vaddr_vpn vaddr (target + suc k)) (target + k)
                child s s₁ tables above (omega arith) cleared (vaddr_vpn-lt vaddr (target + suc k)))
              (unfold set_entry in cleared.ready) (ground arith) some_level (rw next at rest))
      | inr set ↦
          let valid : bit_and e 1 ≢ 0 = ground arith in
          elim (Bool-cases (bit_and e 14 == 0)) [
            | inl no_flags ↦
                let points : Points e = (valid, ground arith) in
                let down =
                  tables.lower table (vaddr_vpn vaddr (target + suc k)) (omega (arith, level))
                    (vaddr_vpn-lt vaddr (target + suc k)) points in
                through_entry level_of k n target table vaddr s leaf s' (omega (arith, level))
                  points
                  (descend_lem k n target (pte_to_pa e) vaddr level_of s leaf s' tables
                    (IsReady-less (suc k + n) (k + n) s.pmm (omega arith) ready)
                    (omega (arith, down, level)) some_level
                    (sym (descend_pointer k target table vaddr s points) ∙ h))
            | inr flags ↦
                let stuck = sym (descend_leaf k target table vaddr s valid (ground arith)) ∙ h in
                absurd (cc stuck)
          ]
    ]

-- The ways in which the code can end
abbrev pub Ends : {A : Type 0} → Outcome A → Type 0
Ends {A} o = ((a : A) × (o ≡ ok a)) ⊎ ((o ≡ panic out_of_memory) ⊎ (o ≡ panic walked_into_leaf))

pub descend-Ends :
    (k n target table vaddr : ℕ) (level_of : ℕ → ℕ) (s : Machine)
    → Tables level_of s
    → IsReady (k + n) s.pmm
    → level_of table ≡ target + k
    → 0 < target
    → Ends (descend k target table vaddr s)
descend-Ends zero n target table vaddr level_of s tables ready level some_level =
    inl ((table, s), unfold descend in refl)
descend-Ends (suc k) n target table vaddr level_of s tables ready level some_level =
    let e = entry_at k target table vaddr s in
    elim (Bool-cases (bit_and e 1 == 0)) [
      | inl clear ↦
          let absent : bit_and e 1 ≡ 0 = ground arith in
          let more : suc k + n ≡ suc (k + n) = omega arith in
          let step = descend_absent k target table vaddr s absent in
          elim (new_table_ends (k + n) s (rw more at ready)) [
            | inl ((child, s₁), made) ↦
                let cleared : Cleared (k + n) s child s₁ =
                  new_table-Cleared (k + n) s s₁ child (rw more at ready) made in
                let next : pte_to_pa (entry_of child 1) ≡ child =
                  pte_to_pa-entry_of child 1 cleared.aligned cleared.small (omega arith) in
                rw (step, made, ◌>>=◌, next)
                  (descend-Ends k n target child vaddr (with_table child (target + k) level_of)
                    (set_entry table (vaddr_vpn vaddr (target + suc k)) (entry_of child 1) s₁)
                    (link_table level_of (k + n) table (vaddr_vpn vaddr (target + suc k))
                      (target + k) child s s₁ tables (omega (arith, level)) (omega arith) cleared
                      (vaddr_vpn-lt vaddr (target + suc k)))
                    (unfold set_entry in cleared.ready) (ground arith) some_level)
            | inr stuck ↦ rw (step, stuck, ◌>>=◌) (inr (inl refl))
          ]
      | inr set ↦
          let valid : bit_and e 1 ≢ 0 = ground arith in
          elim (Bool-cases (bit_and e 14 == 0)) [
            | inl no_flags ↦
                let points : Points e = (valid, ground arith) in
                let down =
                  tables.lower table (vaddr_vpn vaddr (target + suc k)) (omega (arith, level))
                    (vaddr_vpn-lt vaddr (target + suc k)) points in
                rw (descend_pointer k target table vaddr s points) (
                  descend-Ends k n target (pte_to_pa e) vaddr level_of s tables
                    (IsReady-less (suc k + n) (k + n) s.pmm (omega arith) ready)
                    (omega (arith, down, level)) some_level)
            | inr flags ↦ inr (inr (descend_leaf k target table vaddr s valid (ground arith)))
          ]
    ]

-- A walk that goes through tables above a level does not read what is written below.
pub walk_kept :
    (k target table vaddr leaf : ℕ) (levels : ℕ → ℕ) (s : Machine) (words : ℕ → ℕ)
    → Tables levels s
    → 0 < target
    → levels table ≡ target + k
    → ((t i : ℕ) → target < levels t → i < 512 → words (t + 8 * i) ≡ s.words (t + 8 * i))
    → walk k target table vaddr s.words ≡ some leaf
    → walk k target table vaddr words ≡ some leaf
unfolding walk
walk_kept zero target table vaddr leaf levels s words tables some_level level same h = h
walk_kept (suc k) target table vaddr leaf levels s words tables some_level level same h =
    let i = vaddr_vpn vaddr (target + suc k) in
    let e = s.words (table + 8 * i) in
    let low = vaddr_vpn-lt vaddr (target + suc k) in
    let word = same table i (omega (arith, level)) low in
    elim (Bool-cases (bit_and e 1 == 0)) [
      | inl clear ↦ absurd (cc (rw (clear, walk) at h))
      | inr valid ↦ elim (Bool-cases (bit_and e 14 == 0)) [
        | inr leaf_flag ↦ absurd (cc (rw (valid, leaf_flag, walk) at h))
        | inl pointer ↦
            let points : Points e = (ground arith, ground arith) in
            let down = tables.lower table i (omega (arith, level)) low points in
            walk_step k target table vaddr words e word points
            ∙ walk_kept k target (pte_to_pa e) vaddr leaf levels s words tables some_level
                (omega (arith, down, level)) same
                (sym (walk_step k target table vaddr s.words e refl points) ∙ h)
      ]
    ]

-- Some permission
abbrev pub IsPermission : ℕ → Type 0
IsPermission flags = (bit_and flags 4 ≢ 0) ⊎ ((bit_and flags 2 ≢ 0) ⊎ (bit_and flags 1 ≢ 0))

pub leaf_flags_lem :
    (flags : ℕ) → (leaf_flags flags < 16) × (IsPermission flags → leaf_flags flags / 2 % 8 ≢ 0)
unfolding leaf_flags
leaf_flags_lem flags = (ground arith, λ p e. ground (arith, p))
