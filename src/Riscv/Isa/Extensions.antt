-- ===== src/Riscv/Isa/Extensions.antt =====
-- What the loop of `parse_isa_string` over the extensions leaves in memory,
-- pre_kernel/src/arch/riscv64/isa.c.
use lunar_prekernel.Base.{
  ℕ, zero, suc, ◌+◌, ◌*◌, ◌<◌, ◌≤◌, ◌≡◌, ◌⊎◌, refl, List, [], ◌∷◌, ◌++◌, length, All, arith,
  u64_mod, ok, ◌-◌, ◌∙◌, inl, Outcome, ◌==◌, inr, length-append, false, true, ap, ◌>>=◌,
}
use lunar_prekernel.Mem.{Memory}
use lunar_prekernel.Mem.Text.{Holds, Outside, Holds-kept, Holds-prefix, Holds-suffix}
use lunar_prekernel.Elf.{read_le}
use lunar_prekernel.Riscv.Isa.{underscore, copy_extension, copy_extensions, read_pointers}
use lunar_prekernel.Mem.Fields.{read_le_kept}
use lunar_prekernel.Riscv.Isa.Strings.{
  starts, IsLetter, find_end_lem, copied_bytes, rest_of, Placed, CopyRound, copy_extension_lem,
}

-- What the loop gives, from an index and a cursor on
pub record Copied (extensions index cursor : ℕ) (es : List (List ℕ)) (m : Memory)
    (out : Outcome (ℕ × Memory)) : Type 0 where
  pub after : Memory
  pub result : out ≡ ok (index + length es, after)
  pub pointers : read_pointers (length es) index extensions after ≡ starts cursor es
  pub strings : Placed after cursor es
  pub kept :
      (x : ℕ)
      → Outside (extensions + 8 * index) (8 * length es) x
      → Outside cursor (copied_bytes es) x
      → after x ≡ m x

-- A name: it is not empty, and all its bytes are letters.
abbrev pub IsName : List ℕ → Type 0
IsName e = (0 < length e) × All IsLetter e

first_letter :
    (m : Memory) (p : ℕ) (e rest : List ℕ) → IsName e → Holds m p (e ++ rest) → (m p == 0) ≡ false
first_letter m p [] rest name h = absurd (omega (arith, name.0))
first_letter m p (b ∷ e) rest name h = ground (arith, name.1, h.0)

module _ (fuel inner p index extensions cursor : ℕ) (e : List ℕ) (c : ℕ) (rest : List ℕ)
    (m : Memory) (name : IsName e) (enough : length e < inner) (h : Holds m p (e ++ (c ∷ rest)))
    (stays : copy_extension p (length e) index extensions cursor m (p + length e) ≡ c) where
  last_round :
      c ≡ 0
      → copy_extensions (suc fuel) inner p index extensions cursor m
        ≡ ok (suc index, copy_extension p (length e) index extensions cursor m)
  unfolding copy_extensions
  last_round end =
      let found = find_end_lem inner p e c rest m enough name.1 (inl end) h in
      let long : p + length e - p ≡ length e = omega arith in
      let stop : (copy_extension p (length e) index extensions cursor m (p + length e) == 0)
          ≡ true =
        ground (arith, stays, end) in
      rw (first_letter m p e (c ∷ rest) name h, found, long, stop, copy_extensions, ◌>>=◌) (rw long)

  more_rounds :
      c ≡ underscore
      → copy_extensions (suc fuel) inner p index extensions cursor m
        ≡ copy_extensions fuel inner
            (p + length e + 1)
            (suc index)
            extensions
            (cursor + length e + 1)
            (copy_extension p (length e) index extensions cursor m)
  unfolding copy_extensions
  more_rounds sep =
      let found = find_end_lem inner p e c rest m enough name.1 (inr sep) h in
      let long : p + length e - p ≡ length e = omega arith in
      let go_on : (copy_extension p (length e) index extensions cursor m (p + length e) == 0)
          ≡ false =
        ground (arith, stays, sep) in
      rw (first_letter m p e (c ∷ rest) name h, found, long, go_on, copy_extensions, ◌>>=◌)
        (rw long)

Placed-kept :
    (m m' : Memory) (cursor : ℕ) (es : List (List ℕ))
    → ((x : ℕ) → cursor ≤ x → x < cursor + copied_bytes es → m' x ≡ m x)
    → Placed m cursor es
    → Placed m' cursor es
Placed-kept m m' cursor [] same h = tt
Placed-kept m m' cursor (e ∷ es) same h = (
  Holds-kept m m' cursor (e ++ (0 ∷ []))
      (λ x low high. same x low (omega (arith, length-append e (0 ∷ [])))) h.0,
  Placed-kept m m' (cursor + length e + 1) es (λ x low high. same x (omega arith) (omega arith))
      h.1,
)

read_pointers_cons :
    (n index extensions cursor : ℕ) (m : Memory) (others : List ℕ)
    → read_le 8 (extensions + 8 * index) m ≡ cursor
    → read_pointers n (suc index) extensions m ≡ others
    → read_pointers (suc n) index extensions m ≡ cursor ∷ others
unfolding read_pointers
read_pointers_cons n index extensions cursor m others here later = rw (here, later)

-- The loop copies each extension, and nothing that it reads is overwritten before.
pub copy_extensions_lem :
    (fuel inner p index extensions cursor : ℕ) (e : List ℕ) (es : List (List ℕ)) (m : Memory)
    → length es < fuel
    → length (e ++ rest_of es) < inner
    → All IsName (e ∷ es)
    → Holds m p (e ++ rest_of es)
    → extensions + 8 * (index + suc (length es)) ≤ cursor
    → cursor + copied_bytes (e ∷ es) < u64_mod
    → (p + length (e ++ rest_of es) ≤ extensions + 8 * index) ⊎ (cursor + copied_bytes (e ∷ es) ≤ p)
    → Copied extensions index cursor
        (e ∷ es)
        m
        (copy_extensions fuel inner p index extensions cursor m)
copy_extensions_lem zero inner p index extensions cursor e es m rounds enough names h below small
      apart =
    absurd (omega arith)
copy_extensions_lem (suc fuel) inner p index extensions cursor e [] m rounds enough names h below
      small apart =
    let size = length-append e (0 ∷ []) in
    let m' = copy_extension p (length e) index extensions cursor m in
    let round : CopyRound extensions index cursor e m m' =
      copy_extension_lem p index extensions cursor e m (omega arith) (omega arith)
        (ground (arith, size)) (Holds-prefix m p e (0 ∷ []) h) in
    let zero_behind : m (p + length e) ≡ 0 = (Holds-suffix m p e (0 ∷ []) h).0 in
    let stays : m' (p + length e) ≡ 0 =
      round.kept (p + length e) (ground (arith, size)) (ground (arith, size)) ∙ zero_behind in
    record {
      after = m';
      result =
          last_round fuel inner p index extensions cursor e 0 [] m names.0 (omega (arith, size)) h
            stays refl
          ∙ ap (λ (n : ℕ). ok (n, m')) (omega arith);
      pointers = unfold read_pointers in ground (arith, round.pointer);
      strings = (round.string, tt);
      kept = λ x off_pointers off_strings. round.kept x (ground arith) (ground arith);
    }
copy_extensions_lem (suc fuel) inner p index extensions cursor e (f ∷ es) m rounds enough names h
      below small apart =
    let size = length-append e (underscore ∷ (f ++ rest_of es)) in
    let m' = copy_extension p (length e) index extensions cursor m in
    let round : CopyRound extensions index cursor e m m' =
      copy_extension_lem p index extensions cursor e m (omega arith) (omega arith)
        (ground (arith, size)) (Holds-prefix m p e (rest_of (f ∷ es)) h) in
    let behind : Holds m (p + length e) (rest_of (f ∷ es)) =
      Holds-suffix m p e (rest_of (f ∷ es)) h in
    let stays : m' (p + length e) ≡ underscore =
      round.kept (p + length e) (ground (arith, size)) (ground (arith, size)) ∙ behind.0 in
    let unread : Holds m' (p + length e + 1) (f ++ rest_of es) =
      Holds-kept m m' (p + length e + 1) (f ++ rest_of es)
        (λ x low high. round.kept x (ground (arith, size)) (ground (arith, size))) behind.1 in
    let later =
      copy_extensions_lem fuel inner (p + length e + 1) (suc index) extensions
        (cursor + length e + 1) f es m' (omega arith) (omega (arith, size)) names.1 unread
        (omega arith) (omega arith) (ground (arith, size)) in
    record {
      after = later.after;
      result =
          more_rounds fuel inner p index extensions cursor e underscore (f ++ rest_of es) m names.0
            (omega (arith, size)) h stays refl
          ∙ later.result
          ∙ ap (λ (n : ℕ). ok (n, later.after)) (omega arith);
      pointers =
          let here : read_le 8 (extensions + 8 * index) later.after ≡ cursor =
            read_le_kept 8 (extensions + 8 * index) m' later.after
              (λ x low high. later.kept x (inl (omega arith)) (inl (omega arith)))
            ∙ round.pointer in
          read_pointers_cons (length (f ∷ es)) index extensions cursor later.after
            (starts (cursor + length e + 1) (f ∷ es)) here later.pointers;
      strings = (
        Holds-kept m' later.after cursor (e ++ (0 ∷ []))
            (λ x low high.
              later.kept x (inr (omega arith)) (inl (omega (arith, length-append e (0 ∷ [])))))
            round.string,
        later.strings,
      );
      kept = λ x off_pointers off_strings.
          later.kept x (ground arith) (ground arith) ∙ round.kept x (ground arith) (ground arith);
    }
