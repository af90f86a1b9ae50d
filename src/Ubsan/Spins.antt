-- ===== src/Ubsan/Spins.antt =====
-- The handlers of pre_kernel/src/runtime/ubsan.c put out their report and never return.
use lunar_prekernel.Base.{
  ℕ, ◌==◌, List, [], ◌∷◌, ◌++◌, ◌≡◌, ◌^◌, ◌∙◌, append_assoc, bit_and, sub64, Option, none,
  Bool-cases, inl, inr,
}
use lunar_prekernel.Ubsan.{
  SourceLocation, TypeDescriptor, TypeMismatchV1Data, print_location, print_type, ubsan_panic,
  report, ubsan_handle_add_overflow, ubsan_handle_sub_overflow, ubsan_handle_mul_overflow,
  ubsan_handle_divrem_overflow, ubsan_handle_negate_overflow, ubsan_handle_pointer_overflow,
  ubsan_handle_shift_out_of_bounds, ubsan_handle_load_invalid_value, ubsan_handle_out_of_bounds,
  ubsan_handle_type_mismatch_v1, ubsan_handle_vla_bound_not_positive, ubsan_handle_nonnull_return,
  ubsan_handle_nonnull_arg, ubsan_handle_builtin_unreachable, ubsan_handle_invalid_builtin,
  ubsan_handle_function_type_mismatch, ubsan_handle_add_overflow_abort,
  ubsan_handle_sub_overflow_abort, ubsan_handle_mul_overflow_abort,
  ubsan_handle_divrem_overflow_abort, ubsan_handle_negate_overflow_abort,
  ubsan_handle_pointer_overflow_abort, ubsan_handle_shift_out_of_bounds_abort,
  ubsan_handle_load_invalid_value_abort, ubsan_handle_out_of_bounds_abort,
  ubsan_handle_type_mismatch_v1_abort, ubsan_handle_vla_bound_not_positive_abort,
  ubsan_handle_nonnull_return_abort, ubsan_handle_nonnull_arg_abort,
  ubsan_handle_builtin_unreachable_abort, ubsan_handle_invalid_builtin_abort,
}
use lunar_prekernel.Log.{Arg, spins, ◌then_do◌, codes, put_all}
use lunar_prekernel.Log.Text.{last_words, put_all-append, panic_lem}
use lunar_prekernel.Ubsan.Reports.{
  Violation, add_overflow, sub_overflow, mul_overflow, divrem_overflow, negate_overflow,
  pointer_overflow, shift_out_of_bounds, load_invalid_value, out_of_bounds, type_mismatch_v1,
  vla_bound_not_positive, nonnull_return, nonnull_arg, builtin_unreachable, invalid_builtin,
  function_type_mismatch, message, location, types, handle, handle_abort, location_line, type_line,
  location_line_lem, type_line_lem, lines, one_type,
}

module _ {S : Type 0} (formatted : List ℕ → List Arg → List ℕ) (arch_debug_putc : ℕ → S → S) where
  no_type :
      (what : List ℕ) (loc : SourceLocation) (s : S)
      → report formatted arch_debug_putc what loc none s
        ≡ spins (put_all formatted arch_debug_putc (lines formatted arch_debug_putc what loc []) s)
  unfolding report ubsan_panic print_type
  no_type what loc s =
      panic_lem formatted arch_debug_putc _ _ _
      ∙ rw (
        put_all-append formatted arch_debug_putc (location_line formatted arch_debug_putc what loc),
        location_line_lem formatted arch_debug_putc,
      )

  two_types :
      (what label₁ label₂ : List ℕ) (loc : SourceLocation) (type₁ type₂ : Option TypeDescriptor)
      (s : S)
      → ubsan_panic formatted arch_debug_putc (
          print_type formatted arch_debug_putc label₂ type₂ (
            print_type formatted arch_debug_putc label₁ type₁
              (print_location formatted arch_debug_putc what loc s)))
        ≡ spins (
            put_all formatted arch_debug_putc
              (lines formatted arch_debug_putc what loc ((label₁, type₁) ∷ (label₂, type₂) ∷ []))
              s)
  unfolding ubsan_panic
  two_types what label₁ label₂ loc type₁ type₂ s =
      let last = last_words formatted (codes "ubsan") [] in
      let first = type_line formatted arch_debug_putc label₁ type₁ in
      let second = type_line formatted arch_debug_putc label₂ type₂ in
      panic_lem formatted arch_debug_putc _ _ _
      ∙ rw (
        put_all-append formatted arch_debug_putc (location_line formatted arch_debug_putc what loc),
        append_assoc first (second ++ []) last,
        append_assoc second [] last,
        put_all-append formatted arch_debug_putc first,
        put_all-append formatted arch_debug_putc second,
        location_line_lem formatted arch_debug_putc,
        type_line_lem formatted arch_debug_putc label₂ type₂,
        type_line_lem formatted arch_debug_putc label₁ type₁,
      )

  mismatch :
      (d : TypeMismatchV1Data) (ptr : ℕ) (s : S)
      → handle formatted arch_debug_putc (type_mismatch_v1 d ptr) s
        ≡ spins (
            put_all formatted arch_debug_putc
              (lines formatted arch_debug_putc
                (message (type_mismatch_v1 d ptr))
                d.location
                (types (type_mismatch_v1 d ptr)))
              s)
  unfolding handle ubsan_handle_type_mismatch_v1
  mismatch d ptr s =
      let low = bit_and ptr (sub64 (2 ^ d.log_alignment) 1) in
      elim (Bool-cases (ptr == 0)) [
        | inl null ↦ rw null (one_type formatted arch_debug_putc _ _ _ s)
        | inr some_address ↦ elim (Bool-cases (low == 0)) [
          | inl aligned ↦ rw (some_address, aligned) (one_type formatted arch_debug_putc _ _ _ s)
          | inr misaligned ↦
              rw (some_address, misaligned) (one_type formatted arch_debug_putc _ _ _ s)
        ]
      ]

  -- The report that a violation leads to
  abbrev pub told : Violation → S → S
  told v s =
      put_all formatted arch_debug_putc
        (lines formatted arch_debug_putc (message v) (location v) (types v)) s

  handled : (v : Violation) (s : S) → handle formatted arch_debug_putc v s ≡ spins (told v s)
  unfolding handle ubsan_handle_add_overflow ubsan_handle_sub_overflow ubsan_handle_mul_overflow
      ubsan_handle_divrem_overflow ubsan_handle_negate_overflow ubsan_handle_pointer_overflow
      ubsan_handle_shift_out_of_bounds ubsan_handle_load_invalid_value ubsan_handle_out_of_bounds
      ubsan_handle_vla_bound_not_positive ubsan_handle_nonnull_return ubsan_handle_nonnull_arg
      ubsan_handle_builtin_unreachable ubsan_handle_invalid_builtin
      ubsan_handle_function_type_mismatch
  handled (add_overflow d) s = one_type formatted arch_debug_putc _ _ _ s
  handled (sub_overflow d) s = one_type formatted arch_debug_putc _ _ _ s
  handled (mul_overflow d) s = one_type formatted arch_debug_putc _ _ _ s
  handled (divrem_overflow d) s = one_type formatted arch_debug_putc _ _ _ s
  handled (negate_overflow d) s = one_type formatted arch_debug_putc _ _ _ s
  handled (pointer_overflow d) s = one_type formatted arch_debug_putc _ _ _ s
  handled (shift_out_of_bounds d) s = two_types _ _ _ _ _ _ s
  handled (load_invalid_value d) s = one_type formatted arch_debug_putc _ _ _ s
  handled (out_of_bounds d) s = two_types _ _ _ _ _ _ s
  handled (type_mismatch_v1 d ptr) s = mismatch d ptr s
  handled (vla_bound_not_positive d) s = one_type formatted arch_debug_putc _ _ _ s
  handled (nonnull_return d) s = no_type _ _ s
  handled (nonnull_arg d) s = no_type _ _ s
  handled (builtin_unreachable d) s = no_type _ _ s
  handled (invalid_builtin d) s = no_type _ _ s
  handled (function_type_mismatch d) s = one_type formatted arch_debug_putc _ _ _ s

  aborted :
      (v : Violation) (s : S)
      → (x : S) → handle formatted arch_debug_putc v s ≡ spins x
      → handle_abort formatted arch_debug_putc v s ≡ spins x
  unfolding handle handle_abort ubsan_handle_add_overflow_abort ubsan_handle_sub_overflow_abort
      ubsan_handle_mul_overflow_abort ubsan_handle_divrem_overflow_abort
      ubsan_handle_negate_overflow_abort ubsan_handle_pointer_overflow_abort
      ubsan_handle_shift_out_of_bounds_abort ubsan_handle_load_invalid_value_abort
      ubsan_handle_out_of_bounds_abort ubsan_handle_type_mismatch_v1_abort
      ubsan_handle_vla_bound_not_positive_abort ubsan_handle_nonnull_return_abort
      ubsan_handle_nonnull_arg_abort ubsan_handle_builtin_unreachable_abort
      ubsan_handle_invalid_builtin_abort
  aborted (add_overflow d) s x e = rw (e, ◌then_do◌)
  aborted (sub_overflow d) s x e = rw (e, ◌then_do◌)
  aborted (mul_overflow d) s x e = rw (e, ◌then_do◌)
  aborted (divrem_overflow d) s x e = rw (e, ◌then_do◌)
  aborted (negate_overflow d) s x e = rw (e, ◌then_do◌)
  aborted (pointer_overflow d) s x e = rw (e, ◌then_do◌)
  aborted (shift_out_of_bounds d) s x e = rw (e, ◌then_do◌)
  aborted (load_invalid_value d) s x e = rw (e, ◌then_do◌)
  aborted (out_of_bounds d) s x e = rw (e, ◌then_do◌)
  aborted (type_mismatch_v1 d ptr) s x e = rw (e, ◌then_do◌)
  aborted (vla_bound_not_positive d) s x e = rw (e, ◌then_do◌)
  aborted (nonnull_return d) s x e = rw (e, ◌then_do◌)
  aborted (nonnull_arg d) s x e = rw (e, ◌then_do◌)
  aborted (builtin_unreachable d) s x e = rw (e, ◌then_do◌)
  aborted (invalid_builtin d) s x e = rw (e, ◌then_do◌)
  aborted (function_type_mismatch d) s x e = e

  -- Whatever the violation, its handler and the variant that the compiler calls where the program shall
  -- not go on put out the location, the types that are known, each on its line, and the line of the
  -- panic, and neither returns.
  pub handle-spins :
      (v : Violation) (s : S)
      → (handle formatted arch_debug_putc v s ≡ spins (told v s))
        × (handle_abort formatted arch_debug_putc v s ≡ spins (told v s))
  handle-spins v s = (handled v s, aborted v s (told v s) (handled v s))
