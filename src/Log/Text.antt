-- ===== src/Log/Text.antt =====
-- The text that the functions of pre_kernel/src/log.c and pre_kernel/src/panic.c put out.
use lunar_prekernel.Base.{ℕ, List, [], ◌∷◌, ◌++◌, ◌≡◌, refl, sym}
use lunar_prekernel.Log.{
  Arg, spins, codes, put_all, npf_vpprintf, log_print, log_print_raw, log_vprint_raw, panic, putc,
}

-- The prefix of a line of the log
abbrev pub prefix : (List ℕ → List Arg → List ℕ) → List ℕ
prefix formatted = formatted (codes "prekernel | ") []

-- The last line of a run that ends in `panic`
abbrev pub last_words : (List ℕ → List Arg → List ℕ) → List ℕ → List Arg → List ℕ
last_words formatted fmt args =
    (prefix formatted ++ formatted (codes "prekernel panic: ") [])
    ++ (formatted fmt args ++ formatted (codes "\n") [])

module _ {S : Type 0} (formatted : List ℕ → List Arg → List ℕ) (arch_debug_putc : ℕ → S → S) where
  pub put_all-append :
      (xs ys : List ℕ) (s : S)
      → put_all formatted arch_debug_putc (xs ++ ys) s
        ≡ put_all formatted arch_debug_putc ys (put_all formatted arch_debug_putc xs s)
  unfolding put_all
  put_all-append [] ys s = refl
  put_all-append (x ∷ xs) ys s = put_all-append xs ys (putc formatted arch_debug_putc x s)

  pub log_print_lem :
      (fmt : List ℕ) (val : List Arg) (s : S)
      → log_print formatted arch_debug_putc fmt val s
        ≡ put_all formatted arch_debug_putc (prefix formatted ++ formatted fmt val) s
  unfolding log_print npf_vpprintf
  log_print_lem fmt val s = sym (put_all-append (prefix formatted) (formatted fmt val) s)

  -- `panic` puts out its line and never returns.
  pub panic_lem :
      (fmt : List ℕ) (args : List Arg) (s : S)
      → panic formatted arch_debug_putc fmt args s
        ≡ spins (put_all formatted arch_debug_putc (last_words formatted fmt args) s)
  unfolding panic log_vprint_raw log_print_raw npf_vpprintf
  panic_lem fmt args s = rw (
    put_all-append (prefix formatted ++ formatted (codes "prekernel panic: ") []),
    put_all-append (formatted fmt args),
    log_print_lem,
  )
