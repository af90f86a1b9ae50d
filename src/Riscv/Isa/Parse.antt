-- ===== src/Riscv/Isa/Parse.antt =====
-- What `parse_isa_string` makes of an ISA string with extensions, pre_kernel/src/arch/riscv64/isa.c.
use lunar_prekernel.Riscv.Isa.Strings.{
  starts, rest_of, copied_bytes, Placed, copy_string-kept, copy_string-Holds,
}
use lunar_prekernel.Mem.{Memory}
use lunar_prekernel.Riscv.Isa.{
  extensions_at, parse_isa_string, info_size, copy_extensions, copy_string, read_pointers,
}
use lunar_prekernel.Base.{
  ℕ, ◌+◌, ◌-◌, ◌≤◌, ◌<◌, ◌≡◌, ◌∙◌, List, [], ◌∷◌, ◌++◌, arith, length, All, length-append, ok, ◌*◌,
  u64_mod, refl, ◌%◌, Outcome, some, ◌/◌, add64, ◌⊎◌, mul64, inl,
}
use lunar_prekernel.Mem.Text.{Holds, Holds-prefix, Holds-suffix, Outside, Holds-kept}
use lunar_prekernel.Bootinfo.{BootInfo, World}
use lunar_prekernel.Pmm.{PmmMap}
use lunar_prekernel.Math.Masks.{math_align_up_lem}
use lunar_prekernel.Pmm.Alloc.{pmm_alloc, page}
use lunar_prekernel.Math.Align.{math_ceil_lem}
use lunar_prekernel.Riscv.Isa.Scan.{strlen_text, scan_text}
use lunar_prekernel.Riscv.Isa.Extensions.{IsName, copy_extensions_lem}

-- The array of pointers starts behind the base ISA, at the next multiple of 8.
extensions_at_lem :
    (buffer k : ℕ)
    → buffer + k + 1 + 8 ≤ u64_mod
    → (buffer + k + 1 ≤ extensions_at buffer k)
      × (extensions_at buffer k < buffer + k + 1 + 8)
      × (extensions_at buffer k % 8 ≡ 0)
unfolding extensions_at
extensions_at_lem buffer k fits =
    rw (math_align_up_lem 3 (omega arith) (buffer + k + 1) fits)
      (math_ceil_lem (buffer + k + 1) 8 (omega arith) fits)

-- What `parse_isa_string` has done: the boot info leads to strings of their own for the base ISA and
-- for each extension, in order, and nothing is written outside `bytes` from the buffer on.
pub record Parsed (buffer bytes : ℕ) (base : List ℕ) (es : List (List ℕ)) (boot : BootInfo)
    (w : World) (pmm : PmmMap) (out : Outcome (BootInfo × World)) : Type 0 where
  pub array : ℕ
  pub after : Memory
  pub result :
      out
      ≡ ok (
        record boot {
          riscv_base_isa_string = some buffer;
          riscv_extension_count = length es;
          riscv_extentions = starts (array + 8 * (length es + 1)) es;
        },
        record { machine = record (w.machine) { pmm = pmm }; bytes = after },
      )
  pub aligned : array % 8 ≡ 0
  pub behind_base : buffer + length base + 1 ≤ array
  pub base_string : Holds after buffer (base ++ (0 ∷ []))
  pub strings : Placed after (array + 8 * (length es + 1)) es
  pub kept : (x : ℕ) → Outside buffer bytes x → after x ≡ w.bytes x

-- The size that the code counts, before it is rounded up to pages
abbrev pub counted : List ℕ → List (List ℕ) → ℕ
counted base es = length (base ++ rest_of es) + 8 * (length es + 1)

rest_of-copied : (es : List (List ℕ)) → length (rest_of es) ≡ copied_bytes es + 1
rest_of-copied [] = refl
rest_of-copied (e ∷ es) = omega (arith, length-append e (rest_of es), rest_of-copied es)

length-le-copied : (es : List (List ℕ)) → length es ≤ copied_bytes es
length-le-copied [] = omega arith
length-le-copied (e ∷ es) = omega (arith, length-le-copied es)

-- What is counted, in whole pages
info_size_lem :
    (base : List ℕ) (es : List (List ℕ))
    → 0 < length (base ++ rest_of es)
    → counted base es + page ≤ u64_mod
    → info_size (length (base ++ rest_of es) - 1) (length es) / page
      ≡ (counted base es + page - 1) / page
unfolding info_size
info_size_lem base es some_bytes fits =
    let n = length es in
    let k = length (base ++ rest_of es) in
    let sum : add64 (add64 (k - 1) 1) (mul64 (add64 n 1) 8) ≡ counted base es =
      unfold add64 mul64 in omega arith in
    let up = math_align_up_lem 12 (omega arith) (counted base es) fits in
    let whole = math_ceil_lem (counted base es) page (omega arith) fits in
    rw (sum, up) (omega (arith, whole.0, whole.1, whole.2))

-- The run of `parse_isa_string`, put together from its parts
parse_result :
    (fuel isa phys : ℕ) (base e : List ℕ) (es : List (List ℕ)) (boot : BootInfo) (w : World)
    (pmm : PmmMap)
    → All IsName (base ∷ e ∷ es)
    → Holds w.bytes isa (base ++ rest_of (e ∷ es))
    → pmm_alloc
        (info_size (length (base ++ rest_of (e ∷ es)) - 1) (length (e ∷ es)) / page)
        w.machine.pmm
      ≡ ok (phys, pmm)
    → (after : Memory) → length (base ++ rest_of (e ∷ es)) ≤ fuel
    → 8 * (length (e ∷ es) + 1) < u64_mod
    → copy_extensions fuel fuel
        (isa + length base + 1)
        0
        (extensions_at (add64 phys boot.hhdm_offset) (length base))
        (extensions_at (add64 phys boot.hhdm_offset) (length base) + 8 * (length (e ∷ es) + 1))
        (copy_string isa (length base) (add64 phys boot.hhdm_offset) w.bytes)
      ≡ ok (0 + length (e ∷ es), after)
    → read_pointers
        (length (e ∷ es))
        0
        (extensions_at (add64 phys boot.hhdm_offset) (length base))
        after
      ≡ starts
          (extensions_at (add64 phys boot.hhdm_offset) (length base) + 8 * (length (e ∷ es) + 1))
          (e ∷ es)
    → parse_isa_string fuel isa boot w
      ≡ ok (
        record boot {
          riscv_base_isa_string = some (add64 phys boot.hhdm_offset);
          riscv_extension_count = length (e ∷ es);
          riscv_extentions =
              starts
                (extensions_at (add64 phys boot.hhdm_offset) (length base)
                  + 8 * (length (e ∷ es) + 1))
                (e ∷ es);
        },
        record { machine = record (w.machine) { pmm = pmm }; bytes = after },
      )
unfolding parse_isa_string
parse_result fuel isa phys base e es boot w pmm names h allocated after enough small copied
      pointers =
    let array_size : mul64 (add64 (length (e ∷ es)) 1) 8 ≡ 8 * (length (e ∷ es) + 1) =
      unfold add64 mul64 in omega arith in
    let count : 0 + length (e ∷ es) ≡ length (e ∷ es) = omega arith in
    rw
      (
        strlen_text isa base e es w.bytes names.0 names.1 h fuel enough,
        scan_text isa base e es w.bytes names.0 names.1 h,
        allocated,
        array_size,
        copied,
        count,
        pointers,
      )
      refl

-- `parse_isa_string` of a base ISA and at least one extension behind it, each a name of its own, where
-- the fuel is more than the string's length. The size is that of the string, its 0 and a pointer more
-- than there are extensions, a page or more below 2 ^ 64; so many pages as hold it could be allocated, lie
-- apart from the string and do not reach the end of the address space. The base ISA and each extension
-- are then strings of their own, which the boot info leads to in order. What is written ends at most 7
-- bytes behind the size.
pub parse_isa_string_lem :
    (fuel isa phys : ℕ) (base e : List ℕ) (es : List (List ℕ)) (boot : BootInfo) (w : World)
    (pmm : PmmMap)
    → length (base ++ rest_of (e ∷ es)) < fuel
    → All IsName (base ∷ e ∷ es)
    → Holds w.bytes isa (base ++ rest_of (e ∷ es))
    → pmm_alloc ((counted base (e ∷ es) + page - 1) / page) w.machine.pmm ≡ ok (phys, pmm)
    → counted base (e ∷ es) + page ≤ u64_mod
    → add64 phys boot.hhdm_offset + counted base (e ∷ es) + 8 < u64_mod
    → (isa + length (base ++ rest_of (e ∷ es)) ≤ add64 phys boot.hhdm_offset)
      ⊎ (add64 phys boot.hhdm_offset + counted base (e ∷ es) + 7 ≤ isa)
    → Parsed
        (add64 phys boot.hhdm_offset)
        (counted base (e ∷ es) + 7)
        base
        (e ∷ es)
        boot
        w
        pmm
        (parse_isa_string fuel isa boot w)
parse_isa_string_lem fuel isa phys base e es boot w pmm enough names h allocated countable fits
      apart =
    let size = length-append base (rest_of (e ∷ es)) in
    let rest = rest_of-copied (e ∷ es) in
    let few = length-le-copied es in
    let counts = info_size_lem base (e ∷ es) (omega (arith, size, rest)) countable in
    let sized : pmm_alloc
          (info_size (length (base ++ rest_of (e ∷ es)) - 1) (length (e ∷ es)) / page) w.machine.pmm
        ≡ ok (phys, pmm) =
      rw counts allocated in
    let buffer = add64 phys boot.hhdm_offset in
    let array = extensions_at buffer (length base) in
    let n = length (e ∷ es) in
    let placed = extensions_at_lem buffer (length base) (omega (arith, size)) in
    let m = copy_string isa (length base) buffer w.bytes in
    let base_apart : (isa + length base ≤ buffer) ⊎ (buffer + length base ≤ isa) =
      ground (arith, size) in
    let base_kept = copy_string-kept isa buffer base w.bytes base_apart in
    let text : Holds m (isa + length base + 1) (e ++ rest_of es) =
      Holds-kept w.bytes m (isa + length base + 1) (e ++ rest_of es)
        (λ x low high. base_kept x (ground (arith, size)))
        (Holds-suffix w.bytes isa base (rest_of (e ∷ es)) h).1 in
    let copied =
      copy_extensions_lem fuel fuel (isa + length base + 1) 0 array (array + 8 * (n + 1)) e es m
        (omega (arith, size, rest)) (omega (arith, size)) names.1 text (omega arith)
        (omega (arith, size, rest, placed.1)) (ground (arith, size, rest, placed.0, placed.1)) in
    record {
      array = array;
      after = copied.after;
      result =
          parse_result fuel isa phys base e es boot w pmm names h sized copied.after (omega arith)
            (omega (arith, size)) copied.result copied.pointers;
      aligned = placed.2;
      behind_base = placed.0;
      base_string =
          Holds-kept m copied.after buffer (base ++ (0 ∷ []))
            (λ x low high.
              copied.kept x (inl (omega (arith, placed.0, length-append base (0 ∷ []))))
                (inl (omega (arith, placed.0, length-append base (0 ∷ [])))))
            (copy_string-Holds isa buffer base w.bytes base_apart
              (Holds-prefix w.bytes isa base (rest_of (e ∷ es)) h));
      strings = copied.strings;
      kept = λ x off.
          copied.kept x (ground (arith, size, rest, placed.0, placed.1))
            (ground (arith, size, rest, placed.0, placed.1))
          ∙ base_kept x (ground (arith, size, rest, placed.0, placed.1));
    }
