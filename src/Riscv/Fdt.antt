-- ===== src/Riscv/Fdt.antt =====
-- What the device tree says of a hart, pre_kernel/src/arch/riscv64/fdt.c. The tree is read by libfdt,
-- which is the record `Fdt`. What goes to the log is left out.
use lunar_prekernel.Base.{
  ℕ, Bool, true, false, Option, none, some, List, [], ◌∷◌, ◌==◌, not, if◌then◌else◌, add64, Outcome,
  ok, panic, unsupported_mmu_type, ltb, ◌>>=◌,
}
use lunar_prekernel.Mem.{Memory, ℤ, pos, negsuc, strcmp}
use lunar_prekernel.Bootinfo.{BootInfo, World}
use lunar_prekernel.Riscv.Isa.{parse_isa_string}

-- The properties that the code reads
pub data Property : Type 0 where
  device_type mmu_type riscv_isa : Property

-- libfdt, each function with the address of the tree: whether `fdt_check_header` gives 0, the offset
-- of `/cpus` if there is one, the nodes that `fdt_for_each_subnode` goes through, and a property's
-- address with its length
pub record Fdt : Type 0 where
  pub check_header : ℕ → Memory → Bool
  pub cpus_offset : ℕ → Memory → Option ℕ
  pub subnodes : ℕ → ℕ → Memory → List ℕ
  pub getprop : ℕ → ℕ → Property → Memory → Option (ℕ × ℕ)

-- Where the compiler has put the code's string literals
pub record Literals : Type 0 where
  pub cpu : ℕ
  pub sv57 : ℕ
  pub sv48 : ℕ
  pub sv39 : ℕ

unfoldable pub is_zero : ℤ → Bool
is_zero (pos n) = n == 0
is_zero (negsuc n) = false

-- `strcmp(s1, s2) == 0`
unfoldable pub same_string : ℕ → ℕ → ℕ → Memory → Outcome Bool
same_string fuel s1 s2 m = strcmp fuel s1 s2 m >>= λ d. ok (is_zero d)

-- A property that is there and not empty
unfoldable pub present : Option (ℕ × ℕ) → Option ℕ
present none = none
present (some (at, len)) = if ltb 0 len then some at else none

module _ (lib : Fdt) (literals : Literals) (fuel : ℕ) where
  -- `devtype && strcmp(devtype, "cpu") == 0`
  unfoldable pub is_cpu : ℕ → ℕ → Memory → Outcome Bool
  is_cpu fdt node m = elim (lib.getprop fdt node device_type m) [
    | none ↦ ok false
    | some (at, len) ↦ same_string fuel at literals.cpu m
  ]

  -- The names of the MMU types
  unfoldable pub named_levels : ℕ → Memory → Outcome ℕ
  named_levels mmu m = same_string fuel mmu literals.sv57 m >>= λ is57. elim is57 [
    | true ↦ ok 5
    | false ↦ same_string fuel mmu literals.sv48 m >>= λ is48. elim is48 [
      | true ↦ ok 4
      | false ↦ same_string fuel mmu literals.sv39 m >>= λ is39. elim is39 [
        | true ↦ ok 3
        | false ↦ panic unsupported_mmu_type
      ]
    ]
  ]

  -- The loop of `arch_fdt_detect_mmu_levels` over the nodes: it ends with the first one of a CPU.
  unfoldable pub detect_from : List ℕ → ℕ → Memory → Outcome ℕ
  detect_from [] fdt m = ok 0
  detect_from (node ∷ nodes) fdt m = is_cpu fdt node m >>= λ cpu. elim cpu [
    | false ↦ detect_from nodes fdt m
    | true ↦ elim (present (lib.getprop fdt node mmu_type m)) [
      | none ↦ ok 0
      | some mmu ↦ named_levels mmu m
    ]
  ]

  unfoldable pub arch_fdt_detect_mmu_levels : BootInfo → Memory → Outcome ℕ
  arch_fdt_detect_mmu_levels boot m =
      let fdt = add64 boot.dtb_physical boot.hhdm_offset in
      if boot.dtb_physical == 0
      then ok 0
      else if not (lib.check_header fdt m)
      then ok 0
      else elim (lib.cpus_offset fdt m) [
        | none ↦ ok 0
        | some cpus ↦ detect_from (lib.subnodes fdt cpus m) fdt m
      ]

  -- The loop of `arch_fdt_parse_extentions` over the nodes: the first CPU's node with an ISA string
  unfoldable pub find_isa : List ℕ → ℕ → Memory → Outcome (Option ℕ)
  find_isa [] fdt m = ok none
  find_isa (node ∷ nodes) fdt m = is_cpu fdt node m >>= λ cpu. elim cpu [
    | false ↦ find_isa nodes fdt m
    | true ↦ elim (present (lib.getprop fdt node riscv_isa m)) [
      | none ↦ find_isa nodes fdt m
      | some isa ↦ ok (some isa)
    ]
  ]

  unfoldable pub arch_fdt_parse_extentions : BootInfo → World → Outcome (Bool × (BootInfo × World))
  arch_fdt_parse_extentions boot w =
      let fdt = add64 boot.dtb_physical boot.hhdm_offset in
      let not_found : Outcome (Bool × (BootInfo × World)) = ok (false, (boot, w)) in
      if not (lib.check_header fdt w.bytes) then not_found else elim (lib.cpus_offset fdt w.bytes) [
        | none ↦ not_found
        | some cpus ↦ find_isa (lib.subnodes fdt cpus w.bytes) fdt w.bytes >>= λ found. elim found [
          | none ↦ not_found
          | some isa ↦ parse_isa_string fuel isa boot w >>= λ (boot', w'). ok (true, (boot', w'))
        ]
      ]
