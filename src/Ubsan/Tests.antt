-- ===== src/Ubsan/Tests.antt =====
-- A report of pre_kernel/src/runtime/ubsan.c, put out as a list of bytes.
use lunar_prekernel.Base.{◌≡◌, ℕ, List, [], ◌∷◌, ◌++◌, none, some}
use lunar_prekernel.Log.{Arg, spins}
use lunar_prekernel.Ubsan.Reports.{Violation, type_mismatch_v1, handle, handle_abort}
use lunar_prekernel.Ubsan.Spins.{told, handle-spins}

-- A nanoprintf that leaves out what a format is filled with
abbrev plain : List ℕ → List Arg → List ℕ
plain fmt val = fmt

abbrev append_byte : ℕ → List ℕ → List ℕ
append_byte c s = s ++ (c ∷ [])

abbrev misaligned : Violation
misaligned =
    type_mismatch_v1
      (record {
        location = record { file = none; line = 12; column = 3 };
        type = some (record { kind = 0; info = 11; name = 105 ∷ [] });
        log_alignment = 3;
        type_check_kind = 0;
      })
      0x1001

handle-spins_example :
    (handle plain append_byte misaligned [] ≡ spins (told plain append_byte misaligned []))
    × (handle_abort plain append_byte misaligned [] ≡ spins (told plain append_byte misaligned []))
handle-spins_example = handle-spins plain append_byte misaligned []
