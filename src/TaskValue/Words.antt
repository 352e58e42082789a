-- ===== src/TaskValue/Words.antt =====
-- The masks of a word that is a value or a promise (corral/detail/TaskAwaiter.h).
use Prim.Native.Nat.{bit_and, bit_or}
use corral.Base.{ℕ, ◌+◌, ◌*◌, ◌/◌, ◌%◌, ◌^◌, ◌<◌, ◌≡◌, ◌∙◌, ap, arith}
use corral.PointerBits.Bits.{bit_and-ones, bit_and-high, bit_or-low}
use corral.TaskValue.{mask, above, top}

pub kind_lem : (x : ℕ) → bit_and x mask ≡ x % 4
kind_lem x =
    ap (λ y. bit_and y mask) (let e : x ≡ x / 4 * 2 ^ 2 + x % 4 = omega arith in e)
    ∙ bit_and-ones 2 (x / 4) (x % 4) (omega arith)

pub rest_lem : (x : ℕ) → x < 2 ^ 64 → bit_and x above ≡ x / 4 * 4
rest_lem x h =
    ap (λ y. bit_and y above) (let e : x ≡ x / 4 * 2 ^ 2 + x % 4 = omega arith in e)
    ∙ bit_and-high 2 62 (x / 4) (x % 4) (omega (arith, h)) (omega arith)

pub top_lem : (x : ℕ) → x < 2 ^ 64 → bit_and x top ≡ x / 2 ^ 62 * 2 ^ 62
top_lem x h =
    ap (λ y. bit_and y top) (let e : x ≡ x / 2 ^ 62 * 2 ^ 62 + x % 2 ^ 62 = omega arith in e)
    ∙ bit_and-high 62 2 (x / 2 ^ 62) (x % 2 ^ 62) (omega (arith, h)) (omega arith)

pub tag_lem : (x t : ℕ) → x % 4 ≡ 0 → t < 4 → bit_or x t ≡ x + t
tag_lem x t h l =
    ap (λ y. bit_or y t) (let e : x ≡ x / 4 * 2 ^ 2 = omega (arith, h) in e)
    ∙ bit_or-low 2 (x / 4) t l
    ∙ omega (arith, h)
