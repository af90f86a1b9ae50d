-- ===== src/Mem/Text.antt =====
-- Bytes that stand in memory one after another, for what the code of pre_kernel/src does with strings.
use lunar_prekernel.Base.{ℕ, ◌+◌, ◌<◌, ◌≤◌, ◌≡◌, ◌∙◌, ◌⊎◌, List, [], ◌∷◌, ◌++◌, length, arith}
use lunar_prekernel.Mem.{Memory}

-- The bytes stand from an address on.
abbrev pub Holds : Memory → ℕ → List ℕ → Type 0
Holds m at [] = Unit
Holds m at (b ∷ bs) = (m at ≡ b) × Holds m (at + 1) bs

-- An address lies outside the `n` bytes from `from` on.
abbrev pub Outside : ℕ → ℕ → ℕ → Type 0
Outside from n x = (x < from) ⊎ (from + n ≤ x)

-- What has been copied stands where it was copied to.
pub Holds-moved :
    (m m' : Memory) (src dest : ℕ) (bs : List ℕ)
    → ((i : ℕ) → i < length bs → m' (dest + i) ≡ m (src + i))
    → Holds m src bs
    → Holds m' dest bs
Holds-moved m m' src dest [] same h = tt
Holds-moved m m' src dest (b ∷ bs) same h = (
  ap_zero (same 0 (omega arith)) ∙ h.0,
  Holds-moved m m' (src + 1) (dest + 1) bs (λ i less. shifted i (same (i + 1) (omega arith))) h.1,
)
  where
    ap_zero : m' (dest + 0) ≡ m (src + 0) → m' dest ≡ m src
    ap_zero e =
        let d : dest + 0 ≡ dest = omega arith in
        let s : src + 0 ≡ src = omega arith in rw (d, s) at e

    shifted :
        (i : ℕ) → m' (dest + (i + 1)) ≡ m (src + (i + 1)) → m' (dest + 1 + i) ≡ m (src + 1 + i)
    shifted i e =
        let d : dest + (i + 1) ≡ dest + 1 + i = omega arith in
        let s : src + (i + 1) ≡ src + 1 + i = omega arith in rw (d, s) at e

-- Bytes that do not change stay.
pub Holds-kept :
    (m m' : Memory) (at : ℕ) (bs : List ℕ)
    → ((x : ℕ) → at ≤ x → x < at + length bs → m' x ≡ m x)
    → Holds m at bs
    → Holds m' at bs
Holds-kept m m' at bs same h =
    Holds-moved m m' at at bs (λ i less. same (at + i) (omega arith) (omega arith)) h

pub Holds-prefix : (m : Memory) (at : ℕ) (xs ys : List ℕ) → Holds m at (xs ++ ys) → Holds m at xs
Holds-prefix m at [] ys h = tt
Holds-prefix m at (x ∷ xs) ys h = (h.0, Holds-prefix m (at + 1) xs ys h.1)

pub Holds-suffix :
    (m : Memory) (at : ℕ) (xs ys : List ℕ) → Holds m at (xs ++ ys) → Holds m (at + length xs) ys
Holds-suffix m at [] ys h = let here : at + 0 ≡ at = omega arith in rw here h
Holds-suffix m at (x ∷ xs) ys h =
    let on : at + length (x ∷ xs) ≡ at + 1 + length xs = omega arith in
    rw on (Holds-suffix m (at + 1) xs ys h.1)

pub Holds-append :
    (m : Memory) (at : ℕ) (xs ys : List ℕ)
    → Holds m at xs
    → Holds m (at + length xs) ys
    → Holds m at (xs ++ ys)
Holds-append m at [] ys h k = let here : at + 0 ≡ at = omega arith in rw here at k
Holds-append m at (x ∷ xs) ys h k =
    let on : at + length (x ∷ xs) ≡ at + 1 + length xs = omega arith in
    (h.0, Holds-append m (at + 1) xs ys h.1 (rw on at k))
