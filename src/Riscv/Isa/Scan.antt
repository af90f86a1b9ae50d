-- ===== src/Riscv/Isa/Scan.antt =====
-- What `strlen` and the first loop of `parse_isa_string` read from an ISA string,
-- pre_kernel/src/arch/riscv64/isa.c.
use lunar_prekernel.Riscv.Isa.Strings.{IsLetter, rest_of}
use lunar_prekernel.Mem.{strlen_from, Memory, strlen}
use lunar_prekernel.Riscv.Isa.{scan, underscore}
use lunar_prekernel.Base.{
  ℕ, zero, suc, ◌+◌, ◌-◌, ◌≤◌, ◌<◌, ◌≡◌, ap, ◌∙◌, true, false, List, [], ◌∷◌, ◌++◌, arith, ◌==◌,
  if◌then◌else◌, length, All, length-append, ok,
}
use lunar_prekernel.Mem.Text.{Holds, Holds-prefix, Holds-suffix}
use lunar_prekernel.Riscv.Isa.Extensions.{IsName}

-- The letters of a name are passed by `strlen`, and by the scan for `_`.
strlen_letters :
    (fuel n isa : ℕ) (e : List ℕ) (m : Memory)
    → length e < fuel
    → All IsLetter e
    → Holds m (isa + n) e
    → strlen_from fuel n isa m ≡ strlen_from (fuel - length e) (n + length e) isa m
unfolding strlen_from
strlen_letters fuel n isa [] m enough letters h =
    let same : fuel - 0 ≡ fuel = omega arith in
    let here : n + 0 ≡ n = omega arith in rw (same, here)
strlen_letters zero n isa (b ∷ e) m enough letters h = absurd (omega arith)
strlen_letters (suc fuel) n isa (b ∷ e) m enough letters h =
    let on : isa + suc n ≡ isa + n + 1 = omega arith in
    let left : suc fuel - length (b ∷ e) ≡ fuel - length e = omega arith in
    let behind : n + length (b ∷ e) ≡ suc n + length e = omega arith in
    let more : (m (isa + n) == 0) ≡ false = ground (arith, h.0, letters.0) in
    rw (left, behind, more)
      (strlen_letters fuel (suc n) isa e m (omega arith) letters.1 (rw on h.1))

pub rest_of-length : (es : List (List ℕ)) → 1 ≤ length (rest_of es)
rest_of-length [] = omega arith
rest_of-length (e ∷ es) = omega arith

strlen_rest :
    (fuel n isa : ℕ) (es : List (List ℕ)) (m : Memory)
    → length (rest_of es) ≤ fuel
    → All IsName es
    → Holds m (isa + n) (rest_of es)
    → strlen_from fuel n isa m ≡ ok (n + length (rest_of es) - 1)
unfolding strlen_from
strlen_rest zero n isa [] m enough names h = absurd (omega arith)
strlen_rest zero n isa (e ∷ es) m enough names h = absurd (omega arith)
strlen_rest (suc fuel) n isa [] m enough names h = ground arith
strlen_rest (suc fuel) n isa (e ∷ es) m enough names h =
    let size = length-append e (rest_of es) in
    let on : isa + n + 1 ≡ isa + suc n = omega arith in
    let text : Holds m (isa + suc n) (e ++ rest_of es) = rw (← on) h.1 in
    let behind : isa + suc n + length e ≡ isa + (suc n + length e) = omega arith in
    let some_rest = rest_of-length es in
    let total : suc n + length e + length (rest_of es) - 1 ≡ n + length (rest_of (e ∷ es)) - 1 =
      omega (arith, size) in
    let more : (m (isa + n) == 0) ≡ false = ground (arith, h.0) in
    let passed =
      strlen_letters fuel (suc n) isa e m (omega (arith, size)) names.0.1
        (Holds-prefix m (isa + suc n) e (rest_of es) text) in
    let last =
      strlen_rest (fuel - length e) (suc n + length e) isa es m (omega (arith, size)) names.1
        (rw (← behind) (Holds-suffix m (isa + suc n) e (rest_of es) text)) in
    rw more (passed ∙ last ∙ rw total)

scan_letters :
    (e : List ℕ) (k i isa first count : ℕ) (m : Memory)
    → All IsLetter e
    → Holds m (isa + i) e
    → scan (length e + k) i isa first count m ≡ scan k (i + length e) isa first count m
unfolding scan
scan_letters [] k i isa first count m letters h =
    let same : 0 + k ≡ k = omega arith in let here : i + 0 ≡ i = omega arith in rw (same, here)
scan_letters (b ∷ e) k i isa first count m letters h =
    let on : isa + suc i ≡ isa + i + 1 = omega arith in
    let round : length (b ∷ e) + k ≡ suc (length e + k) = omega arith in
    let behind : i + length (b ∷ e) ≡ suc i + length e = omega arith in
    let letter : (m (isa + i) == underscore) ≡ false = ground (arith, h.0, letters.0) in
    rw (round, behind, letter, scan)
      (scan_letters e k (suc i) isa first count m letters.1 (rw on h.1))

-- A `_` with the extension behind it
scan_extension :
    (e : List ℕ) (es : List (List ℕ)) (i isa first count : ℕ) (m : Memory)
    → IsName e
    → Holds m (isa + i) (rest_of (e ∷ es))
    → (scan (length (rest_of (e ∷ es)) - 1) i isa first count m
        ≡ scan
            (length (rest_of es) - 1)
            (i + 1 + length e)
            isa
            (if first == 0 then i else first)
            (count + 1)
            m)
      × Holds m (isa + (i + 1 + length e)) (rest_of es)
unfolding scan
scan_extension e es i isa first count m name h =
    let round : length (rest_of (e ∷ es)) - 1 ≡ suc (length e + (length (rest_of es) - 1)) =
      omega (arith, length-append e (rest_of es), rest_of-length es) in
    let on : isa + i + 1 ≡ isa + (i + 1) = omega arith in
    let next : suc i ≡ i + 1 = omega arith in
    let text : Holds m (isa + (i + 1)) (e ++ rest_of es) = rw on at h.1 in
    let behind : isa + (i + 1) + length e ≡ isa + (i + 1 + length e) = omega arith in
    let sep : (m (isa + i) == underscore) ≡ true = ground (arith, h.0) in
    (
      rw (round, sep, scan, next)
          (scan_letters e (length (rest_of es) - 1) (i + 1) isa (if first == 0 then i else first)
            (count + 1) m name.1 (Holds-prefix m (isa + (i + 1)) e (rest_of es) text)),
      rw behind at (Holds-suffix m (isa + (i + 1)) e (rest_of es) text),
    )

-- Each extension behind the base ISA counts one `_`.
scan_rest :
    (es : List (List ℕ)) (i isa first count : ℕ) (m : Memory)
    → 0 < first
    → All IsName es
    → Holds m (isa + i) (rest_of es)
    → scan (length (rest_of es) - 1) i isa first count m ≡ (first, count + length es)
scan_rest [] i isa first count m met names h = unfold scan in ground arith
scan_rest (e ∷ es) i isa first count m met names h =
    let step = scan_extension e es i isa first count m names.0 h in
    let known : (first == 0) ≡ false = ground arith in
    step.0
    ∙ rw known (
        scan_rest es (i + 1 + length e) isa first (count + 1) m met names.1 step.1
        ∙ ap (λ (n : ℕ). (first, n)) (omega arith))

module _ (isa : ℕ) (base e : List ℕ) (es : List (List ℕ)) (m : Memory) (name : IsName base)
    (names : All IsName (e ∷ es)) (h : Holds m isa (base ++ rest_of (e ∷ es))) where
  at_start : isa + 0 ≡ isa
  at_start = omega arith

  base-Holds : Holds m (isa + 0) base
  base-Holds = rw at_start (Holds-prefix m isa base (rest_of (e ∷ es)) h)

  rest-Holds : Holds m (isa + length base) (rest_of (e ∷ es))
  rest-Holds = Holds-suffix m isa base (rest_of (e ∷ es)) h

  pub strlen_text :
      (fuel : ℕ)
      → length (base ++ rest_of (e ∷ es)) ≤ fuel
      → strlen fuel isa m ≡ ok (length (base ++ rest_of (e ∷ es)) - 1)
  unfolding strlen
  strlen_text fuel enough =
      let size = length-append base (rest_of (e ∷ es)) in
      let from : 0 + length base ≡ length base = omega arith in
      strlen_letters fuel 0 isa base m (omega (arith, size)) name.1 base-Holds
      ∙ rw from (
          strlen_rest (fuel - length base) (length base) isa (e ∷ es) m (omega (arith, size)) names
            rest-Holds
          ∙ rw size)

  pub scan_text :
      scan (length (base ++ rest_of (e ∷ es)) - 1) 0 isa 0 0 m ≡ (length base, suc (length es))
  scan_text =
      let size = length-append base (rest_of (e ∷ es)) in
      let rounds : length (base ++ rest_of (e ∷ es)) - 1
          ≡ length base + (length (rest_of (e ∷ es)) - 1) =
        omega (arith, size) in
      let from : 0 + length base ≡ length base = omega arith in
      let step = scan_extension e es (length base) isa 0 0 m names.0 rest-Holds in
      rw rounds (
        scan_letters base (length (rest_of (e ∷ es)) - 1) 0 isa 0 0 m name.1 base-Holds
        ∙ rw from (
            step.0
            ∙ scan_rest es (length base + 1 + length e) isa (length base) (0 + 1) m name.0 names.1
                step.1
            ∙ ap (λ (n : ℕ). (length base, n)) (omega arith)))
