-- ===== src/Base/Powers.antt =====
-- Powers of two.
use native.Mathlib.Nat.{pow-succ'}
use Prim.Native.Nat.{ℕ, zero, suc, ◌+◌, ◌*◌, ◌^◌}
use mathlib.Core.Path.{◌≡◌, ap}
use native.Mathlib.Omega.{arith}

pub pow-add : (k n : ℕ) → 2 ^ (k + n) ≡ 2 ^ k * 2 ^ n
pow-add k zero = let e : k + 0 ≡ k = omega arith in omega (arith, ap (λ x. 2 ^ x) e)
pow-add k (suc n) =
    let e : k + suc n ≡ suc (k + n) = omega arith in
    omega (
      arith,
      ap (λ x. 2 ^ x) e,
      pow-succ' 2 (k + n),
      ap (λ x. 2 ^ k * x) (pow-succ' 2 n),
      pow-add k n,
    )
