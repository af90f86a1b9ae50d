-- ===== src/Ubsan/Reports.antt =====
-- What the handlers of pre_kernel/src/runtime/ubsan.c put out before they spin, by a table of their
-- messages.
use lunar_prekernel.Base.{
  ℕ, List, [], ◌∷◌, ◌++◌, ◌≡◌, Option, none, some, ◌∙◌, append_assoc, if◌then◌else◌, refl, ◌^◌,
  bit_and, sub64, ◌==◌,
}
use lunar_prekernel.Ubsan.{
  SourceLocation, TypeDescriptor, unknown, print_location, print_type, ubsan_panic, report,
  OverflowData, ShiftOutOfBoundsData, InvalidValueData, ArrayOutOfBoundsData, TypeMismatchV1Data,
  NegativeVlaData, NonnullReturnData, NonnullArgData, UnreachableData, InvalidBuiltinData,
  FunctionTypeMismatchData, ubsan_handle_add_overflow, ubsan_handle_sub_overflow,
  ubsan_handle_mul_overflow, ubsan_handle_divrem_overflow, ubsan_handle_negate_overflow,
  ubsan_handle_pointer_overflow, ubsan_handle_shift_out_of_bounds, ubsan_handle_load_invalid_value,
  ubsan_handle_out_of_bounds, ubsan_handle_type_mismatch_v1, ubsan_handle_vla_bound_not_positive,
  ubsan_handle_nonnull_return, ubsan_handle_nonnull_arg, ubsan_handle_builtin_unreachable,
  ubsan_handle_invalid_builtin, ubsan_handle_function_type_mismatch,
  ubsan_handle_add_overflow_abort, ubsan_handle_sub_overflow_abort, ubsan_handle_mul_overflow_abort,
  ubsan_handle_divrem_overflow_abort, ubsan_handle_negate_overflow_abort,
  ubsan_handle_pointer_overflow_abort, ubsan_handle_shift_out_of_bounds_abort,
  ubsan_handle_load_invalid_value_abort, ubsan_handle_out_of_bounds_abort,
  ubsan_handle_type_mismatch_v1_abort, ubsan_handle_vla_bound_not_positive_abort,
  ubsan_handle_nonnull_return_abort, ubsan_handle_nonnull_arg_abort,
  ubsan_handle_builtin_unreachable_abort, ubsan_handle_invalid_builtin_abort,
}
use lunar_prekernel.Log.{Arg, Run, spins, codes, put_all, text, number, log_print}
use lunar_prekernel.Log.Text.{last_words, put_all-append, log_print_lem, panic_lem, prefix}

-- A call of a handler, with what the compiler passes to it
pub data Violation : Type 0 where
  add_overflow : OverflowData → Violation
  sub_overflow : OverflowData → Violation
  mul_overflow : OverflowData → Violation
  divrem_overflow : OverflowData → Violation
  negate_overflow : OverflowData → Violation
  pointer_overflow : OverflowData → Violation
  shift_out_of_bounds : ShiftOutOfBoundsData → Violation
  load_invalid_value : InvalidValueData → Violation
  out_of_bounds : ArrayOutOfBoundsData → Violation
  type_mismatch_v1 : TypeMismatchV1Data → ℕ → Violation
  vla_bound_not_positive : NegativeVlaData → Violation
  nonnull_return : NonnullReturnData → Violation
  nonnull_arg : NonnullArgData → Violation
  builtin_unreachable : UnreachableData → Violation
  invalid_builtin : InvalidBuiltinData → Violation
  function_type_mismatch : FunctionTypeMismatchData → Violation

abbrev pub message : Violation → List ℕ
message (add_overflow d) = codes "addition overflow"
message (sub_overflow d) = codes "subtraction overflow"
message (mul_overflow d) = codes "multiplication overflow"
message (divrem_overflow d) = codes "division overflow"
message (negate_overflow d) = codes "negation overflow"
message (pointer_overflow d) = codes "pointer overflow"
message (shift_out_of_bounds d) = codes "shift out of bounds"
message (load_invalid_value d) = codes "invalid load value"
message (out_of_bounds d) = codes "array out of bounds"
message (type_mismatch_v1 d ptr) =
    if ptr == 0
    then codes "use of NULL pointer"
    else if bit_and ptr (sub64 (2 ^ d.log_alignment) 1) == 0
    then codes "insufficient space for object"
    else codes "use of misaligned pointer"
message (vla_bound_not_positive d) = codes "VLA bound not positive"
message (nonnull_return d) = codes "non-null return is null"
message (nonnull_arg d) = codes "non-null argument is null"
message (builtin_unreachable d) = codes "unreachable code reached"
message (invalid_builtin d) = codes "invalid builtin"
message (function_type_mismatch d) = codes "function type mismatch"

abbrev pub location : Violation → SourceLocation
location (add_overflow d) = d.location
location (sub_overflow d) = d.location
location (mul_overflow d) = d.location
location (divrem_overflow d) = d.location
location (negate_overflow d) = d.location
location (pointer_overflow d) = d.location
location (shift_out_of_bounds d) = d.location
location (load_invalid_value d) = d.location
location (out_of_bounds d) = d.location
location (type_mismatch_v1 d ptr) = d.location
location (vla_bound_not_positive d) = d.location
location (nonnull_return d) = d.location
location (nonnull_arg d) = d.location
location (builtin_unreachable d) = d.location
location (invalid_builtin d) = d.location
location (function_type_mismatch d) = d.location

-- The types that are named, each with its label
abbrev pub types : Violation → List (List ℕ × Option TypeDescriptor)
types (add_overflow d) = (codes "value", d.type) ∷ []
types (sub_overflow d) = (codes "value", d.type) ∷ []
types (mul_overflow d) = (codes "value", d.type) ∷ []
types (divrem_overflow d) = (codes "value", d.type) ∷ []
types (negate_overflow d) = (codes "value", d.type) ∷ []
types (pointer_overflow d) = (codes "value", d.type) ∷ []
types (shift_out_of_bounds d) = (codes "left", d.left_type) ∷ (codes "right", d.right_type) ∷ []
types (load_invalid_value d) = (codes "value", d.type) ∷ []
types (out_of_bounds d) = (codes "array", d.array_type) ∷ (codes "index", d.index_type) ∷ []
types (type_mismatch_v1 d ptr) = (codes "value", d.type) ∷ []
types (vla_bound_not_positive d) = (codes "value", d.type) ∷ []
types (nonnull_return d) = []
types (nonnull_arg d) = []
types (builtin_unreachable d) = []
types (invalid_builtin d) = []
types (function_type_mismatch d) = (codes "value", d.type) ∷ []

module _ {S : Type 0} (formatted : List ℕ → List Arg → List ℕ) (arch_debug_putc : ℕ → S → S) where
  -- The handler for a violation, and the one that is called where the program shall not go
  -- on; the last handler has no such variant.
  unfoldable pub handle : Violation → S → Run S
  handle (add_overflow d) s = ubsan_handle_add_overflow formatted arch_debug_putc d s
  handle (sub_overflow d) s = ubsan_handle_sub_overflow formatted arch_debug_putc d s
  handle (mul_overflow d) s = ubsan_handle_mul_overflow formatted arch_debug_putc d s
  handle (divrem_overflow d) s = ubsan_handle_divrem_overflow formatted arch_debug_putc d s
  handle (negate_overflow d) s = ubsan_handle_negate_overflow formatted arch_debug_putc d s
  handle (pointer_overflow d) s = ubsan_handle_pointer_overflow formatted arch_debug_putc d s
  handle (shift_out_of_bounds d) s = ubsan_handle_shift_out_of_bounds formatted arch_debug_putc d s
  handle (load_invalid_value d) s = ubsan_handle_load_invalid_value formatted arch_debug_putc d s
  handle (out_of_bounds d) s = ubsan_handle_out_of_bounds formatted arch_debug_putc d s
  handle (type_mismatch_v1 d ptr) s =
      ubsan_handle_type_mismatch_v1 formatted arch_debug_putc d ptr s
  handle (vla_bound_not_positive d) s =
      ubsan_handle_vla_bound_not_positive formatted arch_debug_putc d s
  handle (nonnull_return d) s = ubsan_handle_nonnull_return formatted arch_debug_putc d s
  handle (nonnull_arg d) s = ubsan_handle_nonnull_arg formatted arch_debug_putc d s
  handle (builtin_unreachable d) s = ubsan_handle_builtin_unreachable formatted arch_debug_putc d s
  handle (invalid_builtin d) s = ubsan_handle_invalid_builtin formatted arch_debug_putc d s
  handle (function_type_mismatch d) s =
      ubsan_handle_function_type_mismatch formatted arch_debug_putc d s

  unfoldable pub handle_abort : Violation → S → Run S
  handle_abort (add_overflow d) s = ubsan_handle_add_overflow_abort formatted arch_debug_putc d s
  handle_abort (sub_overflow d) s = ubsan_handle_sub_overflow_abort formatted arch_debug_putc d s
  handle_abort (mul_overflow d) s = ubsan_handle_mul_overflow_abort formatted arch_debug_putc d s
  handle_abort (divrem_overflow d) s =
      ubsan_handle_divrem_overflow_abort formatted arch_debug_putc d s
  handle_abort (negate_overflow d) s =
      ubsan_handle_negate_overflow_abort formatted arch_debug_putc d s
  handle_abort (pointer_overflow d) s =
      ubsan_handle_pointer_overflow_abort formatted arch_debug_putc d s
  handle_abort (shift_out_of_bounds d) s =
      ubsan_handle_shift_out_of_bounds_abort formatted arch_debug_putc d s
  handle_abort (load_invalid_value d) s =
      ubsan_handle_load_invalid_value_abort formatted arch_debug_putc d s
  handle_abort (out_of_bounds d) s = ubsan_handle_out_of_bounds_abort formatted arch_debug_putc d s
  handle_abort (type_mismatch_v1 d ptr) s =
      ubsan_handle_type_mismatch_v1_abort formatted arch_debug_putc d ptr s
  handle_abort (vla_bound_not_positive d) s =
      ubsan_handle_vla_bound_not_positive_abort formatted arch_debug_putc d s
  handle_abort (nonnull_return d) s =
      ubsan_handle_nonnull_return_abort formatted arch_debug_putc d s
  handle_abort (nonnull_arg d) s = ubsan_handle_nonnull_arg_abort formatted arch_debug_putc d s
  handle_abort (builtin_unreachable d) s =
      ubsan_handle_builtin_unreachable_abort formatted arch_debug_putc d s
  handle_abort (invalid_builtin d) s =
      ubsan_handle_invalid_builtin_abort formatted arch_debug_putc d s
  handle_abort (function_type_mismatch d) s =
      ubsan_handle_function_type_mismatch formatted arch_debug_putc d s

  abbrev pub location_line : List ℕ → SourceLocation → List ℕ
  location_line what loc =
      let file : List ℕ = elim loc.file [ none ↦ unknown | some name ↦ name ] in
      prefix formatted
      ++ formatted (codes "%s at %s:%u:%u\n")
          (text what ∷ text file ∷ number loc.line ∷ number loc.column ∷ [])

  -- A type that is not there, or that has no name, is left out.
  abbrev pub type_line : List ℕ → Option TypeDescriptor → List ℕ
  type_line label none = []
  type_line label (some t) = elim t.name [
    | [] ↦ []
    | c ∷ cs ↦
        prefix formatted ++ formatted (codes "  %s type: %s\n") (text label ∷ text (c ∷ cs) ∷ [])
  ]

  abbrev pub type_lines : List (List ℕ × Option TypeDescriptor) → List ℕ
  type_lines [] = []
  type_lines ((label, type) ∷ rest) = type_line label type ++ type_lines rest

  pub location_line_lem :
      (what : List ℕ) (loc : SourceLocation) (s : S)
      → print_location formatted arch_debug_putc what loc s
        ≡ put_all formatted arch_debug_putc (location_line what loc) s
  unfolding print_location
  location_line_lem what loc s = log_print_lem formatted arch_debug_putc _ _ s

  pub type_line_lem :
      (label : List ℕ) (type : Option TypeDescriptor) (s : S)
      → print_type formatted arch_debug_putc label type s
        ≡ put_all formatted arch_debug_putc (type_line label type) s
  unfolding print_type put_all
  type_line_lem label none s = refl
  type_line_lem label (some t) s = named t.name
    where
      named :
          (name : List ℕ)
          → (elim name [
            | [] ↦ s
            | c ∷ cs ↦
                log_print formatted arch_debug_putc
                  (codes "  %s type: %s\n")
                  (text label ∷ text (c ∷ cs) ∷ [])
                  s
          ])
            ≡ put_all formatted arch_debug_putc
                (elim name [
                  | [] ↦ []
                  | c ∷ cs ↦
                      prefix formatted
                      ++ formatted (codes "  %s type: %s\n") (text label ∷ text (c ∷ cs) ∷ [])
                ])
                s
      named [] = refl
      named (c ∷ cs) = log_print_lem formatted arch_debug_putc _ _ s

  -- The lines of a report, and then those of the panic
  abbrev pub lines : List ℕ → SourceLocation → List (List ℕ × Option TypeDescriptor) → List ℕ
  lines what loc named =
      location_line what loc ++ (type_lines named ++ last_words formatted (codes "ubsan") [])

  pub one_type :
      (what : List ℕ) (loc : SourceLocation) (type : Option TypeDescriptor) (s : S)
      → report formatted arch_debug_putc what loc type s
        ≡ spins (put_all formatted arch_debug_putc (lines what loc ((codes "value", type) ∷ [])) s)
  unfolding report ubsan_panic
  one_type what loc type s =
      panic_lem formatted arch_debug_putc _ _ _
      ∙ rw (
        put_all-append formatted arch_debug_putc (location_line what loc),
        append_assoc (type_line (codes "value") type) [] (last_words formatted (codes "ubsan") []),
        put_all-append formatted arch_debug_putc (type_line (codes "value") type),
        location_line_lem,
        type_line_lem,
      )
