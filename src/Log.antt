-- ===== src/Log.antt =====
-- The log and the end of a run, pre_kernel/src/log.c and pre_kernel/src/panic.c, and the log of uACPI
-- in pre_kernel/src/uacpi_kernel_api.c. What nanoprintf makes of a format, and where a character goes,
-- are arguments.
pub mod Text
use Prim.Native.Char.{code}
use Prim.Native.String.{String}
use lunar_prekernel.Base.{
  ℕ, List, [], ◌∷◌, ◌++◌, ◌%◌, ◌+◌, add64, Option, none, some, ◌==◌, if◌then◌else◌,
}
use lunar_prekernel.Bootinfo.{BootInfo}

-- The bytes of a text
abbrev pub codes : String → List ℕ
codes String.[] = []
codes (String.◌∷◌ c s) = code c ∷ codes s

-- What a format is filled with
pub data Arg : Type 0 where
  text : List ℕ → Arg
  number : ℕ → Arg

-- A run that comes back, or one that has entered `while(1);`
pub data Run {ℓ} (S : Type ℓ) : Type ℓ where
  returns : S → Run S
  spins : S → Run S

infixl 5 ◌then_do◌
abbrev pub ◌then_do◌ {ℓ} : {S : Type ℓ} → Run S → (S → Run S) → Run S
returns s then_do f = f s
spins s then_do f = spins s

-- `uacpi_log_level`
pub data LogLevel : Type 0 where
  log_error log_warn log_debug log_trace log_info : LogLevel

module _ {S : Type 0} (formatted : List ℕ → List Arg → List ℕ) (arch_debug_putc : ℕ → S → S) where
  -- A `char` is the low byte.
  unfoldable pub putc : ℕ → S → S
  putc c s = arch_debug_putc (c % 256) s

  unfoldable pub put_all : List ℕ → S → S
  put_all [] s = s
  put_all (c ∷ cs) s = put_all cs (putc c s)

  -- `npf_vpprintf(putc, nullptr, fmt, val)`
  unfoldable pub npf_vpprintf : List ℕ → List Arg → S → S
  npf_vpprintf fmt val s = put_all (formatted fmt val) s

  unfoldable pub log_vprint_raw : List ℕ → List Arg → S → S
  log_vprint_raw fmt val s = npf_vpprintf fmt val s

  unfoldable pub log_print_raw : List ℕ → List Arg → S → S
  log_print_raw fmt val s = npf_vpprintf fmt val s

  unfoldable pub log_vprint : List ℕ → List Arg → S → S
  log_vprint fmt val s = npf_vpprintf fmt val (npf_vpprintf (codes "prekernel | ") [] s)

  unfoldable pub log_print : List ℕ → List Arg → S → S
  log_print fmt val s = npf_vpprintf fmt val (npf_vpprintf (codes "prekernel | ") [] s)

  unfoldable pub panic : List ℕ → List Arg → S → Run S
  panic format args s =
      let named = log_print (codes "prekernel panic: ") [] s in
      let told = log_vprint_raw format args named in spins (log_print_raw (codes "\n") [] told)

  unfoldable pub uacpi_kernel_vlog : LogLevel → List ℕ → List Arg → S → S
  uacpi_kernel_vlog level fmt args s =
      let named : S = elim level [
        | log_error ↦ log_print (codes "uacpi error: ") [] s
        | log_warn ↦ log_print (codes "uacpi warn: ") [] s
        | log_debug ↦ log_print (codes "uacpi debug: ") [] s
        | log_trace ↦ log_print (codes "uacpi trace: ") [] s
        | log_info ↦ log_print (codes "uacpi info: ") [] s
      ] in
      log_vprint_raw fmt args named

  unfoldable pub uacpi_kernel_log : LogLevel → List ℕ → List Arg → S → S
  uacpi_kernel_log level fmt args s = uacpi_kernel_vlog level fmt args s

-- No address stands for `UACPI_STATUS_NOT_FOUND`.
unfoldable pub uacpi_kernel_get_rsdp : BootInfo → Option ℕ
uacpi_kernel_get_rsdp boot = if boot.rdsp_physical == 0 then none else some boot.rdsp_physical

unfoldable pub uacpi_kernel_map : BootInfo → ℕ → ℕ → ℕ
uacpi_kernel_map boot paddr length = add64 paddr boot.hhdm_offset

unfoldable pub uacpi_kernel_unmap : {S : Type 0} → ℕ → ℕ → S → S
uacpi_kernel_unmap addr length s = s
