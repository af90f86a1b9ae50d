-- ===== src/Riscv/Isa/Strings.antt =====
-- The names of an ISA string and their copies, pre_kernel/src/arch/riscv64/isa.c.
use lunar_prekernel.Base.{
  ℕ, zero, suc, ◌+◌, ◌*◌, ◌<◌, ◌≤◌, ◌≡◌, ◌≢◌, ◌⊎◌, List, [], ◌∷◌, ◌++◌, length, All, arith, u64_mod,
  ok, ◌-◌, ◌∙◌, inl,
}
use lunar_prekernel.Mem.{Memory, write, memcpy}
use lunar_prekernel.Mem.Text.{Holds, Outside, Holds-append, Holds-moved, Holds-kept}
use lunar_prekernel.Elf.{read_le}
use lunar_prekernel.X86.Cpus.{write_le}
use lunar_prekernel.Riscv.Isa.{underscore, find_end, copy_extension, copy_string}
use lunar_prekernel.Mem.Fields.{write_le_off, read_le_kept, read_le-write_le}
use lunar_prekernel.Mem.Copy.{moved, memcpy_lem}

-- A byte of a name is neither the end of the string nor `_`.
abbrev pub IsLetter : ℕ → Type 0
IsLetter c = (c ≢ 0) × (c ≢ underscore)

-- The rest of an ISA string: each extension behind a `_`, and the final 0
abbrev pub rest_of : List (List ℕ) → List ℕ
rest_of [] = 0 ∷ []
rest_of (e ∷ es) = underscore ∷ (e ++ rest_of es)

-- The bytes that the copies of the extensions take
abbrev pub copied_bytes : List (List ℕ) → ℕ
copied_bytes [] = 0
copied_bytes (e ∷ es) = length e + 1 + copied_bytes es

-- Where the copies start
abbrev pub starts : ℕ → List (List ℕ) → List ℕ
starts cursor [] = []
starts cursor (e ∷ es) = cursor ∷ starts (cursor + length e + 1) es

-- The copies, each a string of its own
abbrev pub Placed : Memory → ℕ → List (List ℕ) → Type 0
Placed m cursor [] = Unit
Placed m cursor (e ∷ es) = Holds m cursor (e ++ (0 ∷ [])) × Placed m (cursor + length e + 1) es

-- The first byte behind a name ends the search for its end.
pub find_end_lem :
    (fuel p : ℕ) (e : List ℕ) (c : ℕ) (rest : List ℕ) (m : Memory)
    → length e < fuel
    → All IsLetter e
    → (c ≡ 0) ⊎ (c ≡ underscore)
    → Holds m p (e ++ (c ∷ rest))
    → find_end fuel p m ≡ ok (p + length e)
unfolding find_end
find_end_lem zero p e c rest m enough letters stop h = absurd (omega arith)
find_end_lem (suc fuel) p [] c rest m enough letters stop h = ground arith
find_end_lem (suc fuel) p (b ∷ e) c rest m enough letters stop h =
    ground (arith, find_end_lem fuel (p + 1) e c rest m)

-- A string copied behind a cursor
module _ (p cursor : ℕ) (e : List ℕ) (m : Memory)
    (apart : (p + length e ≤ cursor) ⊎ (cursor + length e ≤ p)) where
  copied : (x : ℕ) → memcpy cursor p (length e) m x ≡ moved cursor p (length e) m x
  copied x = memcpy_lem cursor p (length e) m x (ground arith)

  copy_letter : (i : ℕ) → i < length e → copy_string p (length e) cursor m (cursor + i) ≡ m (p + i)
  unfolding copy_string write
  copy_letter i less =
      let back : p + (cursor + i - cursor) ≡ p + i = omega arith in
      let here : memcpy cursor p (length e) m (cursor + i) ≡ m (p + i) =
        copied (cursor + i) ∙ rw back (ground arith) in
      ground (arith, here)

  copy_zero : copy_string p (length e) cursor m (cursor + length e) ≡ 0
  unfolding copy_string write
  copy_zero = ground arith

  pub copy_string-kept :
      (x : ℕ) → Outside cursor (length e + 1) x → copy_string p (length e) cursor m x ≡ m x
  unfolding copy_string write
  copy_string-kept x h = ground (arith, copied x)

  pub copy_string-Holds :
      Holds m p e → Holds (copy_string p (length e) cursor m) cursor (e ++ (0 ∷ []))
  copy_string-Holds h =
      let m' = copy_string p (length e) cursor m in
      Holds-append m' cursor e (0 ∷ []) (Holds-moved m m' p cursor e copy_letter h) (copy_zero, tt)

-- A round of the loop, for an extension that lies apart from what is written
pub record CopyRound (extensions index cursor : ℕ) (e : List ℕ) (m after : Memory) : Type 0 where
  pub pointer : read_le 8 (extensions + 8 * index) after ≡ cursor
  pub string : Holds after cursor (e ++ (0 ∷ []))
  pub kept :
      (x : ℕ)
      → Outside (extensions + 8 * index) 8 x
      → Outside cursor (length e + 1) x
      → after x ≡ m x

pub copy_extension_lem :
    (p index extensions cursor : ℕ) (e : List ℕ) (m : Memory)
    → extensions + 8 * index + 8 ≤ cursor
    → cursor < u64_mod
    → (p + length e ≤ extensions + 8 * index) ⊎ (cursor + length e + 1 ≤ p)
    → Holds m p e
    → CopyRound extensions index cursor e m (copy_extension p (length e) index extensions cursor m)
unfolding copy_extension
copy_extension_lem p index extensions cursor e m below small apart h =
    let at = extensions + 8 * index in
    let m₁ = write_le 8 at cursor m in
    let source : Holds m₁ p e =
      Holds-kept m m₁ p e (λ x low high. write_le_off 8 at cursor m x (ground arith)) h in
    let kept = copy_string-kept p cursor e m₁ (ground arith) in
    record {
      pointer =
          read_le_kept 8 at m₁ (copy_string p (length e) cursor m₁)
            (λ x low high. kept x (inl (omega arith)))
          ∙ read_le-write_le 8 at cursor m (omega arith);
      string = copy_string-Holds p cursor e m₁ (ground arith) source;
      kept =
          λ x off_pointer off_string. kept x off_string ∙ write_le_off 8 at cursor m x off_pointer;
    }
