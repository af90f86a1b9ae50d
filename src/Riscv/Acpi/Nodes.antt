-- ===== src/Riscv/Acpi/Nodes.antt =====
-- Which node of the table RHCT the loops of pre_kernel/src/arch/riscv64/acpi.c find.
use lunar_prekernel.Base.{
  ℕ, ◌+◌, ◌<◌, ◌≡◌, ◌≢◌, ◌∙◌, ◌⊎◌, inl, inr, refl, Option, none, some, List, [], ◌∷◌, ◌++◌, All,
  length, arith, u64_mod, ap, add64-eq-add, add64, Bool-cases, ◌==◌, ==_iff,
}
use lunar_prekernel.Riscv.Acpi.{node_type, node_length, find_node}
use lunar_prekernel.Mem.{Memory}

-- The header of a node, as it lies in memory
pub record Node : Type 0 where
  pub type : ℕ
  pub length : ℕ

-- The bytes of some nodes
abbrev pub nodes_bytes : List Node → ℕ
nodes_bytes [] = 0
nodes_bytes (n ∷ ns) = n.length + nodes_bytes ns

-- The nodes lie behind one another.
abbrev pub Laid : Memory → ℕ → List Node → Type 0
Laid m at [] = Unit
Laid m at (n ∷ ns) =
    (node_type at m ≡ n.type) × (node_length at m ≡ n.length) × Laid m (at + n.length) ns

-- The first node of a type, behind others of other types; or all are of other types
abbrev pub FirstOf : ℕ → ℕ → List Node → Option ℕ → Type 0
FirstOf type at ns out =
    ((before : List Node) × (n : Node) × (behind : List Node) × (ns ≡ before ++ (n ∷ behind))
      × All (λ (b : Node). b.type ≢ type) before
      × (n.type ≡ type)
      × (out ≡ some (at + nodes_bytes before)))
    ⊎ (All (λ (b : Node). b.type ≢ type) ns × (out ≡ none))

further :
    (type at : ℕ) (n : Node) (ns : List Node) (out : Option ℕ)
    → n.type ≢ type
    → FirstOf type (at + n.length) ns out
    → FirstOf type at (n ∷ ns) out
further type at n ns out other (inl (before, found, behind, split, others, hit, result)) = inl (
  n ∷ before,
  found,
  behind,
  ap (◌∷◌ n) split,
  (other, others),
  hit,
  result ∙ ap (λ (x : ℕ). some x) (omega arith),
)
further type at n ns out other (inr (others, result)) = inr ((other, others), result)

-- The loop over a table's nodes, which do not reach the end of the address space, finds the first one
-- of a type; it finds none only if none has the type.
pub find_node_lem :
    (rhct base type : ℕ) (ns : List Node) (m : Memory)
    → rhct + base + nodes_bytes ns < u64_mod
    → Laid m (rhct + base) ns
    → FirstOf type (rhct + base) ns (find_node (length ns) base rhct type m)
unfolding find_node
find_node_lem rhct base type [] m fits laid = inr (tt, refl)
find_node_lem rhct base type (n ∷ ns) m fits laid =
    let here = add64-eq-add rhct base (omega arith) in
    let next : add64 base n.length ≡ base + n.length = add64-eq-add base n.length (omega arith) in
    let on : rhct + base + n.length ≡ rhct + (base + n.length) = omega arith in
    let later : FirstOf type (rhct + base + n.length) ns
        (find_node (length ns) (base + n.length) rhct type m) =
      rw on (find_node_lem rhct (base + n.length) type ns m (omega arith) (rw on at laid.2)) in
    elim (Bool-cases (n.type == type)) [
      | inl hit ↦
          rw (here, laid.0, hit)
            (inl (
              [],
              n,
              ns,
              refl,
              tt,
              (==_iff n.type type).0 hit,
              ap (λ (x : ℕ). some x) (omega arith),
            ))
      | inr miss ↦
          let other : n.type ≢ type = ground arith in
          rw (here, laid.0, laid.1, next, miss)
            (further type (rhct + base) n ns (find_node (length ns) (base + n.length) rhct type m)
              other later)
    ]
