-- ===== src/Ubsan.antt =====
-- The handlers of undefined behaviour and of a smashed stack, pre_kernel/src/runtime/ubsan.c and
-- pre_kernel/src/runtime/ssp.c. A pointer that may be null is an `Option`, a name the bytes before its 0.
pub mod Reports
pub mod Spins
mod Tests
use lunar_prekernel.Base.{
  ℕ, ◌^◌, ◌==◌, List, [], ◌∷◌, Option, none, some, not, if◌then◌else◌, bit_and, sub64,
}
use lunar_prekernel.Log.{Arg, text, number, Run, returns, spins, ◌then_do◌, codes, log_print, panic}

-- `struct tu_source_location`
pub record SourceLocation : Type 0 where
  pub file : Option (List ℕ)
  pub line : ℕ
  pub column : ℕ

-- `struct tu_type_descriptor`
pub record TypeDescriptor : Type 0 where
  pub kind : ℕ
  pub info : ℕ
  pub name : List ℕ

-- The data of the handlers, by the names of the source
pub record OverflowData : Type 0 where
  pub location : SourceLocation
  pub type : Option TypeDescriptor

pub record ShiftOutOfBoundsData : Type 0 where
  pub location : SourceLocation
  pub left_type : Option TypeDescriptor
  pub right_type : Option TypeDescriptor

pub record InvalidValueData : Type 0 where
  pub location : SourceLocation
  pub type : Option TypeDescriptor

pub record ArrayOutOfBoundsData : Type 0 where
  pub location : SourceLocation
  pub array_type : Option TypeDescriptor
  pub index_type : Option TypeDescriptor

pub record TypeMismatchV1Data : Type 0 where
  pub location : SourceLocation
  pub type : Option TypeDescriptor
  pub log_alignment : ℕ
  pub type_check_kind : ℕ

pub record NegativeVlaData : Type 0 where
  pub location : SourceLocation
  pub type : Option TypeDescriptor

pub record NonnullReturnData : Type 0 where
  pub location : SourceLocation

pub record NonnullArgData : Type 0 where
  pub location : SourceLocation

pub record UnreachableData : Type 0 where
  pub location : SourceLocation

pub record InvalidBuiltinData : Type 0 where
  pub location : SourceLocation
  pub kind : ℕ

pub record FunctionTypeMismatchData : Type 0 where
  pub location : SourceLocation
  pub type : Option TypeDescriptor

abbrev pub unknown : List ℕ
unknown = codes "<unknown>"

module _ {S : Type 0} (formatted : List ℕ → List Arg → List ℕ) (arch_debug_putc : ℕ → S → S) where
  unfoldable pub print_location : List ℕ → SourceLocation → S → S
  print_location message loc s =
      let file : List ℕ = elim loc.file [ none ↦ unknown | some name ↦ name ] in
      log_print formatted arch_debug_putc (codes "%s at %s:%u:%u\n")
        (text message ∷ text file ∷ number loc.line ∷ number loc.column ∷ []) s

  unfoldable pub print_type : List ℕ → Option TypeDescriptor → S → S
  print_type label type s = elim type [
    | none ↦ s
    | some t ↦ elim t.name [
      | [] ↦ s
      | c ∷ cs ↦
          log_print formatted arch_debug_putc (codes "  %s type: %s\n")
            (text label ∷ text (c ∷ cs) ∷ []) s
    ]
  ]

  unfoldable pub ubsan_panic : S → Run S
  ubsan_panic s = panic formatted arch_debug_putc (codes "ubsan") [] s

  unfoldable pub report : List ℕ → SourceLocation → Option TypeDescriptor → S → Run S
  report message loc type s =
      ubsan_panic (print_type (codes "value") type (print_location message loc s))

  unfoldable pub ubsan_handle_add_overflow : OverflowData → S → Run S
  ubsan_handle_add_overflow d s = report (codes "addition overflow") d.location d.type s

  unfoldable pub ubsan_handle_sub_overflow : OverflowData → S → Run S
  ubsan_handle_sub_overflow d s = report (codes "subtraction overflow") d.location d.type s

  unfoldable pub ubsan_handle_mul_overflow : OverflowData → S → Run S
  ubsan_handle_mul_overflow d s = report (codes "multiplication overflow") d.location d.type s

  unfoldable pub ubsan_handle_divrem_overflow : OverflowData → S → Run S
  ubsan_handle_divrem_overflow d s = report (codes "division overflow") d.location d.type s

  unfoldable pub ubsan_handle_negate_overflow : OverflowData → S → Run S
  ubsan_handle_negate_overflow d s = report (codes "negation overflow") d.location d.type s

  unfoldable pub ubsan_handle_pointer_overflow : OverflowData → S → Run S
  ubsan_handle_pointer_overflow d s = report (codes "pointer overflow") d.location d.type s

  unfoldable pub ubsan_handle_shift_out_of_bounds : ShiftOutOfBoundsData → S → Run S
  ubsan_handle_shift_out_of_bounds d s =
      let located = print_location (codes "shift out of bounds") d.location s in
      ubsan_panic
        (print_type (codes "right") d.right_type (print_type (codes "left") d.left_type located))

  unfoldable pub ubsan_handle_load_invalid_value : InvalidValueData → S → Run S
  ubsan_handle_load_invalid_value d s = report (codes "invalid load value") d.location d.type s

  unfoldable pub ubsan_handle_out_of_bounds : ArrayOutOfBoundsData → S → Run S
  ubsan_handle_out_of_bounds d s =
      let located = print_location (codes "array out of bounds") d.location s in
      ubsan_panic
        (print_type (codes "index") d.index_type (print_type (codes "array") d.array_type located))

  unfoldable pub ubsan_handle_type_mismatch_v1 : TypeMismatchV1Data → ℕ → S → Run S
  ubsan_handle_type_mismatch_v1 d ptr s =
      if ptr == 0
      then report (codes "use of NULL pointer") d.location d.type s
      else if not (bit_and ptr (sub64 (2 ^ d.log_alignment) 1) == 0)
      then report (codes "use of misaligned pointer") d.location d.type s
      else report (codes "insufficient space for object") d.location d.type s

  unfoldable pub ubsan_handle_vla_bound_not_positive : NegativeVlaData → S → Run S
  ubsan_handle_vla_bound_not_positive d s =
      report (codes "VLA bound not positive") d.location d.type s

  unfoldable pub ubsan_handle_nonnull_return : NonnullReturnData → S → Run S
  ubsan_handle_nonnull_return d s = report (codes "non-null return is null") d.location none s

  unfoldable pub ubsan_handle_nonnull_arg : NonnullArgData → S → Run S
  ubsan_handle_nonnull_arg d s = report (codes "non-null argument is null") d.location none s

  unfoldable pub ubsan_handle_builtin_unreachable : UnreachableData → S → Run S
  ubsan_handle_builtin_unreachable d s = report (codes "unreachable code reached") d.location none s

  unfoldable pub ubsan_handle_invalid_builtin : InvalidBuiltinData → S → Run S
  ubsan_handle_invalid_builtin d s = report (codes "invalid builtin") d.location none s

  unfoldable pub ubsan_handle_function_type_mismatch : FunctionTypeMismatchData → S → Run S
  ubsan_handle_function_type_mismatch d s =
      report (codes "function type mismatch") d.location d.type s

  unfoldable pub ubsan_handle_add_overflow_abort : OverflowData → S → Run S
  ubsan_handle_add_overflow_abort d s = ubsan_handle_add_overflow d s then_do ubsan_panic

  unfoldable pub ubsan_handle_sub_overflow_abort : OverflowData → S → Run S
  ubsan_handle_sub_overflow_abort d s = ubsan_handle_sub_overflow d s then_do ubsan_panic

  unfoldable pub ubsan_handle_mul_overflow_abort : OverflowData → S → Run S
  ubsan_handle_mul_overflow_abort d s = ubsan_handle_mul_overflow d s then_do ubsan_panic

  unfoldable pub ubsan_handle_divrem_overflow_abort : OverflowData → S → Run S
  ubsan_handle_divrem_overflow_abort d s = ubsan_handle_divrem_overflow d s then_do ubsan_panic

  unfoldable pub ubsan_handle_negate_overflow_abort : OverflowData → S → Run S
  ubsan_handle_negate_overflow_abort d s = ubsan_handle_negate_overflow d s then_do ubsan_panic

  unfoldable pub ubsan_handle_pointer_overflow_abort : OverflowData → S → Run S
  ubsan_handle_pointer_overflow_abort d s = ubsan_handle_pointer_overflow d s then_do ubsan_panic

  unfoldable pub ubsan_handle_shift_out_of_bounds_abort : ShiftOutOfBoundsData → S → Run S
  ubsan_handle_shift_out_of_bounds_abort d s =
      ubsan_handle_shift_out_of_bounds d s then_do ubsan_panic

  unfoldable pub ubsan_handle_load_invalid_value_abort : InvalidValueData → S → Run S
  ubsan_handle_load_invalid_value_abort d s =
      ubsan_handle_load_invalid_value d s then_do ubsan_panic

  unfoldable pub ubsan_handle_out_of_bounds_abort : ArrayOutOfBoundsData → S → Run S
  ubsan_handle_out_of_bounds_abort d s = ubsan_handle_out_of_bounds d s then_do ubsan_panic

  unfoldable pub ubsan_handle_type_mismatch_v1_abort : TypeMismatchV1Data → ℕ → S → Run S
  ubsan_handle_type_mismatch_v1_abort d ptr s =
      ubsan_handle_type_mismatch_v1 d ptr s then_do ubsan_panic

  unfoldable pub ubsan_handle_vla_bound_not_positive_abort : NegativeVlaData → S → Run S
  ubsan_handle_vla_bound_not_positive_abort d s =
      ubsan_handle_vla_bound_not_positive d s then_do ubsan_panic

  unfoldable pub ubsan_handle_nonnull_return_abort : NonnullReturnData → S → Run S
  ubsan_handle_nonnull_return_abort d s = ubsan_handle_nonnull_return d s then_do ubsan_panic

  unfoldable pub ubsan_handle_nonnull_arg_abort : NonnullArgData → S → Run S
  ubsan_handle_nonnull_arg_abort d s = ubsan_handle_nonnull_arg d s then_do ubsan_panic

  unfoldable pub ubsan_handle_builtin_unreachable_abort : UnreachableData → S → Run S
  ubsan_handle_builtin_unreachable_abort d s =
      ubsan_handle_builtin_unreachable d s then_do ubsan_panic

  unfoldable pub ubsan_handle_invalid_builtin_abort : InvalidBuiltinData → S → Run S
  ubsan_handle_invalid_builtin_abort d s = ubsan_handle_invalid_builtin d s then_do ubsan_panic

  -- `__stack_chk_fail`
  unfoldable pub stack_chk_fail : S → Run S
  stack_chk_fail s = panic formatted arch_debug_putc (codes "stack smashing detected\n") [] s
