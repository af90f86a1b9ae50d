-- ===== src/Base/Bits.antt =====
-- `&` with a mask whose low bits are clear, as rounding down to a power of two.
use Prim.Native.Nat.{
  ℕ, zero, suc, ◌+◌, ◌-◌, ◌*◌, ◌/◌, ◌%◌, ◌^◌, ◌≤◌, ◌<◌, min, max, digits, bit_and, bit_and-bitwise,
  bit_or, bit_or-bitwise,
}
use mathlib.Core.Path.{◌≡◌, refl, ap, ◌∙◌}
use native.Mathlib.Nat.{pow-succ', one-le-pow}
use native.Mathlib.Omega.{arith}

-- The count of digits that the operation runs on does not matter once it is large enough.
enough_digits :
    (n m a b : ℕ) → a ≤ n → a ≤ m → digits (λ b. zero) min n a b ≡ digits (λ b. zero) min m a b
enough_digits zero zero a b h k = refl
enough_digits zero (suc m) zero b h k = refl
enough_digits (suc n) zero zero b h k = refl
enough_digits (suc n) (suc m) zero b h k = refl
enough_digits zero m (suc a) b h k = absurd (omega arith)
enough_digits (suc n) zero (suc a) b h k = absurd (omega arith)
enough_digits (suc n) (suc m) (suc a) b h k =
    ap (λ (r : ℕ). r * 2 + min (suc a % 2) (b % 2))
      (enough_digits n m (suc a / 2) (b / 2) (omega arith) (omega arith))

-- The lowest digit apart from the others.
pub bit_and_halves : (a b : ℕ) → bit_and a b ≡ bit_and (a / 2) (b / 2) * 2 + min (a % 2) (b % 2)
bit_and_halves zero b = omega (arith, bit_and-bitwise 0 b, bit_and-bitwise 0 (b / 2))
bit_and_halves (suc a) b = omega (
  arith,
  bit_and-bitwise (suc a) b,
  bit_and-bitwise (suc a / 2) (b / 2),
  enough_digits a (suc a / 2) (suc a / 2) (b / 2) (omega arith) (omega arith),
)

bit_and_ones : (w x : ℕ) → x < 2 ^ w → bit_and x (2 ^ w - 1) ≡ x
bit_and_ones zero zero h = bit_and-bitwise 0 0
bit_and_ones zero (suc x) h = absurd (omega arith)
bit_and_ones (suc w) x h =
    let some : 1 ≤ 2 ^ w = one-le-pow w 2 (omega arith) in
    let half : (2 ^ suc w - 1) / 2 ≡ 2 ^ w - 1 = omega (arith, pow-succ' 2 w) in
    let odd : (2 ^ suc w - 1) % 2 ≡ 1 = omega (arith, pow-succ' 2 w) in
    bit_and_halves x (2 ^ suc w - 1)
    ∙ rw (half, odd) (omega (arith, bit_and_ones w (x / 2) (omega (arith, pow-succ' 2 w))))

double : (q k : ℕ) → q * 2 ^ suc k ≡ 2 * (q * 2 ^ k)
double q k = omega (arith, ap (λ (t : ℕ). q * t) (pow-succ' 2 k))

-- A mask of `w` ones above `k` clear bits keeps the part of a number from bit `k` on.
pub bit_and_above :
    (k w q r : ℕ)
    → q < 2 ^ w
    → r < 2 ^ k
    → bit_and (q * 2 ^ k + r) ((2 ^ w - 1) * 2 ^ k) ≡ q * 2 ^ k
bit_and_above zero w q r h l =
    let whole : q * 2 ^ 0 + r ≡ q = omega arith in
    let mask : (2 ^ w - 1) * 2 ^ 0 ≡ 2 ^ w - 1 = omega arith in
    rw (whole, mask) (bit_and_ones w q h ∙ omega arith)
bit_and_above (suc k) w q r h l =
    let half : (q * 2 ^ suc k + r) / 2 ≡ q * 2 ^ k + r / 2 = omega (arith, double q k) in
    let mask : (2 ^ w - 1) * 2 ^ suc k / 2 ≡ (2 ^ w - 1) * 2 ^ k =
      omega (arith, double (2 ^ w - 1) k) in
    let even : (2 ^ w - 1) * 2 ^ suc k % 2 ≡ 0 = omega (arith, double (2 ^ w - 1) k) in
    bit_and_halves (q * 2 ^ suc k + r) ((2 ^ w - 1) * 2 ^ suc k)
    ∙ rw (half, mask, even)
        (omega (arith, double q k, bit_and_above k w q (r / 2) h (omega (arith, pow-succ' 2 k))))

bit_and_zero : (bound x : ℕ) → x ≤ bound → bit_and x 0 ≡ 0
bit_and_zero zero zero h = bit_and-bitwise 0 0
bit_and_zero zero (suc x) h = absurd (omega arith)
bit_and_zero (suc bound) x h =
    omega (arith, bit_and_halves x 0, bit_and_zero bound (x / 2) (omega arith))

-- A mask bounds what it keeps.
pub bit_and_lt : (w x m : ℕ) → m < 2 ^ w → bit_and x m < 2 ^ w
bit_and_lt zero x m h =
    let clear : m ≡ 0 = omega arith in rw clear (omega (arith, bit_and_zero x x (omega arith)))
bit_and_lt (suc w) x m h = omega (
  arith,
  bit_and_halves x m,
  bit_and_lt w (x / 2) (m / 2) (omega (arith, pow-succ' 2 w)),
  pow-succ' 2 w,
)

-- A bit above a number is clear in it.
pub bit_and_clear : (k r : ℕ) → r < 2 ^ k → bit_and r (2 ^ k) ≡ 0
bit_and_clear k r h =
    let number : 0 * 2 ^ k + r ≡ r = omega arith in
    let mask : (2 ^ 1 - 1) * 2 ^ k ≡ 2 ^ k = omega arith in
    rw (number, mask) at (bit_and_above k 1 0 r (omega arith) h) ∙ omega arith

-- A mask of `w` ones keeps the `w` lowest bits.
pub bit_and_below : (w q r : ℕ) → r < 2 ^ w → bit_and (q * 2 ^ w + r) (2 ^ w - 1) ≡ r
bit_and_below zero q r h =
    let whole : q * 2 ^ 0 + r ≡ q = omega arith in
    rw whole (bit_and_zero q q (omega arith) ∙ omega arith)
bit_and_below (suc w) q r h =
    let some : 1 ≤ 2 ^ w = one-le-pow w 2 (omega arith) in
    let half : (2 ^ suc w - 1) / 2 ≡ 2 ^ w - 1 = omega (arith, pow-succ' 2 w) in
    let odd : (2 ^ suc w - 1) % 2 ≡ 1 = omega (arith, pow-succ' 2 w) in
    let high : (q * 2 ^ suc w + r) / 2 ≡ q * 2 ^ w + r / 2 = omega (arith, double q w) in
    let low : (q * 2 ^ suc w + r) % 2 ≡ r % 2 = omega (arith, double q w) in
    bit_and_halves (q * 2 ^ suc w + r) (2 ^ suc w - 1)
    ∙ rw (half, odd, high, low)
        (omega (arith, bit_and_below w q (r / 2) (omega (arith, pow-succ' 2 w))))

enough_or_digits :
    (n m a b : ℕ) → a ≤ n → a ≤ m → digits (λ b. b) max n a b ≡ digits (λ b. b) max m a b
enough_or_digits zero zero a b h k = refl
enough_or_digits zero (suc m) zero b h k = refl
enough_or_digits (suc n) zero zero b h k = refl
enough_or_digits (suc n) (suc m) zero b h k = refl
enough_or_digits zero m (suc a) b h k = absurd (omega arith)
enough_or_digits (suc n) zero (suc a) b h k = absurd (omega arith)
enough_or_digits (suc n) (suc m) (suc a) b h k =
    ap (λ (r : ℕ). r * 2 + max (suc a % 2) (b % 2))
      (enough_or_digits n m (suc a / 2) (b / 2) (omega arith) (omega arith))

bit_or_halves : (a b : ℕ) → bit_or a b ≡ bit_or (a / 2) (b / 2) * 2 + max (a % 2) (b % 2)
bit_or_halves zero b = omega (arith, bit_or-bitwise 0 b, bit_or-bitwise 0 (b / 2))
bit_or_halves (suc a) b = omega (
  arith,
  bit_or-bitwise (suc a) b,
  bit_or-bitwise (suc a / 2) (b / 2),
  enough_or_digits a (suc a / 2) (suc a / 2) (b / 2) (omega arith) (omega arith),
)

bit_or_zero : (bound x : ℕ) → x ≤ bound → bit_or x 0 ≡ x
bit_or_zero zero zero h = bit_or-bitwise 0 0
bit_or_zero zero (suc x) h = absurd (omega arith)
bit_or_zero (suc bound) x h =
    omega (arith, bit_or_halves x 0, bit_or_zero bound (x / 2) (omega arith))

-- A number below the lowest digit of another is added by `|`.
pub bit_or_above : (k q r : ℕ) → r < 2 ^ k → bit_or (q * 2 ^ k) r ≡ q * 2 ^ k + r
bit_or_above zero q r h =
    let whole : q * 2 ^ 0 ≡ q = omega arith in
    let none_left : r ≡ 0 = omega arith in
    rw (whole, none_left) (bit_or_zero q q (omega arith) ∙ omega arith)
bit_or_above (suc k) q r h =
    let half : q * 2 ^ suc k / 2 ≡ q * 2 ^ k = omega (arith, double q k) in
    let even : q * 2 ^ suc k % 2 ≡ 0 = omega (arith, double q k) in
    bit_or_halves (q * 2 ^ suc k) r
    ∙ rw (half, even)
        (omega (arith, double q k, bit_or_above k q (r / 2) (omega (arith, pow-succ' 2 k))))
