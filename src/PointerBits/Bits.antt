-- ===== src/PointerBits/Bits.antt =====
-- The bitwise operations of the masks of corral/detail/PointerBits.h, digit by digit.
use Prim.Native.Nat.{bit_and, bit_or, digits, bit_and-bitwise, bit_or-bitwise}
use native.Mathlib.Nat.{pow-succ', one-le-pow}
use corral.Base.{
  ℕ, zero, suc, ◌+◌, ◌-◌, ◌*◌, ◌/◌, ◌%◌, ◌^◌, ◌≤◌, ◌<◌, min, max, ◌≡◌, refl, ap, ap₂, arith,
}

-- The recursion on digits does not depend on its fuel, if there is enough.
module _ (z : ℕ → ℕ) (f : ℕ → ℕ → ℕ) where
  enough_digits : (k l x y : ℕ) → x ≤ k → x ≤ l → digits z f k x y ≡ digits z f l x y
  enough_digits zero zero x y p q = refl
  enough_digits zero (suc l) zero y p q = refl
  enough_digits zero (suc l) (suc x) y p q = absurd (omega arith)
  enough_digits (suc k) zero zero y p q = refl
  enough_digits (suc k) zero (suc x) y p q = absurd (omega arith)
  enough_digits (suc k) (suc l) zero y p q = refl
  enough_digits (suc k) (suc l) (suc x) y p q =
      omega (arith, enough_digits k l (suc x / 2) (y / 2) (omega arith) (omega arith))

zero-bit_and : (b : ℕ) → bit_and 0 b ≡ 0
zero-bit_and b = bit_and-bitwise 0 b

zero-bit_or : (b : ℕ) → bit_or 0 b ≡ b
zero-bit_or b = bit_or-bitwise 0 b

-- The lowest digit apart.
bit_and-halves : (a b : ℕ) → bit_and a b ≡ bit_and (a / 2) (b / 2) * 2 + min (a % 2) (b % 2)
bit_and-halves zero b = omega (arith, zero-bit_and b, zero-bit_and (b / 2))
bit_and-halves (suc a) b = omega (
  arith,
  bit_and-bitwise (suc a) b,
  bit_and-bitwise (suc a / 2) (b / 2),
  enough_digits (λ b. zero) min a (suc a / 2) (suc a / 2) (b / 2) (omega arith) (omega arith),
)

bit_or-halves : (a b : ℕ) → bit_or a b ≡ bit_or (a / 2) (b / 2) * 2 + max (a % 2) (b % 2)
bit_or-halves zero b = omega (arith, zero-bit_or b, zero-bit_or (b / 2))
bit_or-halves (suc a) b = omega (
  arith,
  bit_or-bitwise (suc a) b,
  bit_or-bitwise (suc a / 2) (b / 2),
  enough_digits (λ b. b) max a (suc a / 2) (suc a / 2) (b / 2) (omega arith) (omega arith),
)

zero-bit_and_below : (n x : ℕ) → x ≤ n → bit_and x 0 ≡ 0
zero-bit_and_below n zero h = zero-bit_and 0
zero-bit_and_below zero (suc x) h = absurd (omega arith)
zero-bit_and_below (suc n) (suc x) h =
    omega (arith, bit_and-halves (suc x) 0, zero-bit_and_below n (suc x / 2) (omega arith))

bit_or-zero_below : (n x : ℕ) → x ≤ n → bit_or x 0 ≡ x
bit_or-zero_below n zero h = zero-bit_or 0
bit_or-zero_below zero (suc x) h = absurd (omega arith)
bit_or-zero_below (suc n) (suc x) h =
    omega (arith, bit_or-halves (suc x) 0, bit_or-zero_below n (suc x / 2) (omega arith))

-- A number shifted by one place more.
shift-suc : (q w : ℕ) → q * 2 ^ suc w ≡ 2 * (q * 2 ^ w)
shift-suc q w = omega (arith, ap (λ x. q * x) (pow-succ' 2 w))

-- A mask of ones keeps the low digits.
pub bit_and-ones : (w q r : ℕ) → r < 2 ^ w → bit_and (q * 2 ^ w + r) (2 ^ w - 1) ≡ r
bit_and-ones zero q r h = omega (arith, zero-bit_and_below (q * 1 + r) (q * 1 + r) (omega arith))
bit_and-ones (suc w) q r h =
    let two = pow-succ' 2 w in
    let pos = one-le-pow w 2 (omega arith) in
    let e : (q * 2 ^ suc w + r) / 2 ≡ q * 2 ^ w + r / 2 = omega (arith, shift-suc q w) in
    let f : (2 ^ suc w - 1) / 2 ≡ 2 ^ w - 1 = omega (arith, two, pos) in
    omega (
      arith,
      two,
      pos,
      shift-suc q w,
      bit_and-halves (q * 2 ^ suc w + r) (2 ^ suc w - 1),
      ap₂ bit_and e f,
      bit_and-ones w q (r / 2) (omega (arith, two)),
    )

-- A mask of ones above so many zeros drops the low digits.
pub bit_and-high :
    (w n q r : ℕ)
    → q < 2 ^ n
    → r < 2 ^ w
    → bit_and (q * 2 ^ w + r) ((2 ^ n - 1) * 2 ^ w) ≡ q * 2 ^ w
bit_and-high zero n q r s h =
    let e : q * 1 + r ≡ 0 * 2 ^ n + q = omega (arith, h) in
    let f : (2 ^ n - 1) * 1 ≡ 2 ^ n - 1 = omega arith in
    omega (arith, ap₂ bit_and e f, bit_and-ones n 0 q s)
bit_and-high (suc w) n q r s h =
    let two = pow-succ' 2 w in
    let m = shift-suc (2 ^ n - 1) w in
    let e : (q * 2 ^ suc w + r) / 2 ≡ q * 2 ^ w + r / 2 = omega (arith, shift-suc q w) in
    let f : (2 ^ n - 1) * 2 ^ suc w / 2 ≡ (2 ^ n - 1) * 2 ^ w = omega (arith, m) in
    omega (
      arith,
      two,
      m,
      shift-suc q w,
      bit_and-halves (q * 2 ^ suc w + r) ((2 ^ n - 1) * 2 ^ suc w),
      ap₂ bit_and e f,
      bit_and-high w n q (r / 2) s (omega (arith, two)),
    )

-- Digits below so many zeros are put in their place.
pub bit_or-low : (w q r : ℕ) → r < 2 ^ w → bit_or (q * 2 ^ w) r ≡ q * 2 ^ w + r
bit_or-low zero q r h =
    let e : q * 1 ≡ q = omega arith in
    let f : r ≡ 0 = omega (arith, h) in
    omega (arith, ap₂ bit_or e f, bit_or-zero_below q q (omega arith))
bit_or-low (suc w) q r h =
    let two = pow-succ' 2 w in
    let e : q * 2 ^ suc w / 2 ≡ q * 2 ^ w = omega (arith, shift-suc q w) in
    omega (
      arith,
      two,
      shift-suc q w,
      bit_or-halves (q * 2 ^ suc w) r,
      ap (λ x. bit_or x (r / 2)) e,
      bit_or-low w q (r / 2) (omega (arith, two)),
    )
