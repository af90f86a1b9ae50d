-- ===== src/Riscv/Ptm/Walk.antt =====
-- The way through the page tables that `map_page` of pre_kernel/src/arch/riscv64/ptm.c makes, and a walk
-- that takes it afterwards.
use lunar_prekernel.Riscv.Ptm.{pte_to_pa, vaddr_vpn, descend, ℕ}
use lunar_prekernel.Riscv.Ptm.Entries.{entry_of, vaddr_vpn-lt, pte_to_pa-entry_of, flag_bits}
use lunar_prekernel.Riscv.Ptm.Fresh.{IsReady, Cleared}
use lunar_prekernel.Riscv.Ptm.Tables.{
  Points, Tables, with_table, not_table, kept_word, set_entry_at,
}
use lunar_prekernel.Base.{
  ℕ, zero, suc, ◌+◌, ◌*◌, ◌≤◌, ◌<◌, bit_and, ◌≡◌, ap, ◌∙◌, ◌≢◌, inl, inr, true, false, not, ◌||◌,
  Option, none, some, arith, ◌==◌, if◌then◌else◌, Bool-cases, ==_iff, panic, ◌>>=◌,
  walked_into_leaf,
}
use lunar_prekernel.Ptm.{Machine, new_table, set_entry}
use lunar_prekernel.Pmm.{PmmMap}

-- The table that a walk with the functions of the code reaches for an address, from a table some levels above it;
-- nothing if an entry on the way is not valid or is a leaf
unfoldable pub walk : ℕ → ℕ → ℕ → ℕ → (ℕ → ℕ) → Option ℕ
walk zero target table vaddr words = some table
walk (suc k) target table vaddr words =
    let entry = words (table + 8 * vaddr_vpn vaddr (target + suc k)) in
    let rest = walk k target (pte_to_pa entry) vaddr words in
    if bit_and entry 1 == 0 || not (bit_and entry 14 == 0) then none else rest

pub walk_step :
    (k target table vaddr : ℕ) (words : ℕ → ℕ) (e : ℕ)
    → words (table + 8 * vaddr_vpn vaddr (target + suc k)) ≡ e
    → Points e
    → walk (suc k) target table vaddr words ≡ walk k target (pte_to_pa e) vaddr words
unfolding walk
walk_step k target table vaddr words e here points =
    let valid : (bit_and e 1 == 0) ≡ false = ground (arith, points.0) in
    let pointer : (bit_and e 14 == 0) ≡ true = ground (arith, points.1) in rw (here, valid, pointer)

-- The entry of a table that the loop looks at
abbrev pub entry_at : ℕ → ℕ → ℕ → ℕ → Machine → ℕ
entry_at k target table vaddr s = s.words (table + 8 * vaddr_vpn vaddr (target + suc k))

module _ (k target table vaddr : ℕ) (s : Machine) where
  pub descend_absent :
      bit_and (entry_at k target table vaddr s) 1 ≡ 0
      → descend (suc k) target table vaddr s ≡ (
          new_table s >>= λ (child, s').
          descend k target
            (pte_to_pa (entry_of child 1))
            vaddr
            (set_entry table (vaddr_vpn vaddr (target + suc k)) (entry_of child 1) s'))
  unfolding descend
  descend_absent absent =
      let test : (bit_and (entry_at k target table vaddr s) 1 == 0) ≡ true =
        ground (arith, absent) in
      rw (test, descend)

  pub descend_pointer :
      Points (entry_at k target table vaddr s)
      → descend (suc k) target table vaddr s
        ≡ descend k target (pte_to_pa (entry_at k target table vaddr s)) vaddr s
  unfolding descend
  descend_pointer points =
      let e = entry_at k target table vaddr s in
      let valid : (bit_and e 1 == 0) ≡ false = ground (arith, points.0) in
      let pointer : (bit_and e 14 == 0) ≡ true = ground (arith, points.1) in
      rw (valid, pointer, descend)

  pub descend_leaf :
      bit_and (entry_at k target table vaddr s) 1 ≢ 0
      → bit_and (entry_at k target table vaddr s) 14 ≢ 0
      → descend (suc k) target table vaddr s ≡ panic walked_into_leaf
  unfolding descend
  descend_leaf valid leaf =
      let e = entry_at k target table vaddr s in
      let there : (bit_and e 1 == 0) ≡ false = ground (arith, valid) in
      let set : (bit_and e 14 == 0) ≡ false = ground (arith, leaf) in rw (there, set, descend)

-- What `descend` leaves: tables as before and perhaps new ones, through which the walk reaches the
-- table it returns, and every valid entry as it was
pub record Descended (level_of : ℕ → ℕ) (k n target table vaddr : ℕ) (s : Machine) (leaf : ℕ)
    (s' : Machine) : Type 0 where
  pub levels : ℕ → ℕ
  pub tables : Tables levels s'
  pub ready : IsReady n s'.pmm
  pub leaf_level : levels leaf ≡ target
  pub kept_levels : (t : ℕ) → 0 < level_of t → levels t ≡ level_of t
  pub walked : walk k target table vaddr s'.words ≡ some leaf
  pub present :
      (t i : ℕ)
      → 0 < level_of t
      → i < 512
      → bit_and (s.words (t + 8 * i)) 1 ≢ 0
      → s'.words (t + 8 * i) ≡ s.words (t + 8 * i)

pub IsReady-less : (k n : ℕ) (m : PmmMap) → n ≤ k → IsReady k m → IsReady n m
IsReady-less k n m less r = record { valid = r.valid; room = omega (arith, r.room); low = r.low }

-- The two ways on from an entry: through one that is there, and through a new table
pub through_entry :
    (level_of : ℕ → ℕ) (k n target table vaddr : ℕ) (s : Machine) (leaf : ℕ) (s' : Machine)
    → 0 < level_of table
    → Points (entry_at k target table vaddr s)
    → Descended level_of k n target (pte_to_pa (entry_at k target table vaddr s)) vaddr s leaf s'
    → Descended level_of (suc k) n target table vaddr s leaf s'
through_entry level_of k n target table vaddr s leaf s' pos points d =
    let i = vaddr_vpn vaddr (target + suc k) in
    let same = d.present table i pos (vaddr_vpn-lt vaddr (target + suc k)) points.0 in
    record {
      levels = d.levels;
      tables = d.tables;
      ready = d.ready;
      leaf_level = d.leaf_level;
      kept_levels = d.kept_levels;
      walked =
          walk_step k target table vaddr s'.words (entry_at k target table vaddr s) same points
          ∙ d.walked;
      present = d.present;
    }

module _ (level_of : ℕ → ℕ) (k m n target table vaddr child : ℕ) (s s₁ : Machine) (leaf : ℕ)
    (s' : Machine) (tables : Tables level_of s) (above : level_of table ≡ suc (target + k))
    (some_level : 0 < target) (cleared : Cleared m s child s₁)
    (absent : bit_and (entry_at k target table vaddr s) 1 ≡ 0) where
  pub through_new :
      Descended
        (with_table child (target + k) level_of)
        k
        n
        target
        child
        vaddr
        (set_entry table (vaddr_vpn vaddr (target + suc k)) (entry_of child 1) s₁)
        leaf
        s'
      → Descended level_of (suc k) n target table vaddr s leaf s'
  through_new d =
      let i = vaddr_vpn vaddr (target + suc k) in
      let low = vaddr_vpn-lt vaddr (target + suc k) in
      let s₂ = set_entry table i (entry_of child 1) s₁ in
      let was_none =
        not_table level_of m table i (target + k) child s s₁ tables above (omega arith) cleared
          low in
      let next : pte_to_pa (entry_of child 1) ≡ child =
        pte_to_pa-entry_of child 1 cleared.aligned cleared.small (omega arith) in
      let bits = flag_bits child 1 cleared.aligned cleared.small (omega arith) in
      let points : Points (entry_of child 1) = (omega (arith, bits.0), omega (arith, bits.1)) in
      let levels_same : (t : ℕ)
          → 0 < level_of t
          → with_table child (target + k) level_of t ≡ level_of t =
        λ t pos. elim (Bool-cases (t == child)) [
          | inl new ↦
              let none_there : level_of t ≡ 0 = ap level_of ((==_iff t child).0 new) ∙ was_none in
              absurd (omega (arith, none_there, pos))
          | inr old ↦ rw old
        ] in
      let here : s'.words (table + 8 * i) ≡ entry_of child 1 =
        d.present table i (omega (arith, levels_same table (omega (arith, above)), above)) low
          (rw (set_entry_at table i (entry_of child 1) s₁) points.0)
        ∙ set_entry_at table i (entry_of child 1) s₁ in
      record {
        levels = d.levels;
        tables = d.tables;
        ready = d.ready;
        leaf_level = d.leaf_level;
        kept_levels =
            λ t pos. d.kept_levels t (omega (arith, levels_same t pos, pos)) ∙ levels_same t pos;
        walked =
            walk_step k target table vaddr s'.words (entry_of child 1) here points
            ∙ rw next d.walked;
        present = λ t j pos small valid.
            let other : t + 8 * j ≢ table + 8 * i =
              λ e. valid (ap (λ (x : ℕ). bit_and (s.words x) 1) e ∙ absent) in
            let word =
              kept_word level_of m table i (target + k) child s s₁ tables above (omega arith)
                cleared low t j pos small other in
            d.present t j (omega (arith, levels_same t pos, pos)) small (rw word valid) ∙ word;
      }
