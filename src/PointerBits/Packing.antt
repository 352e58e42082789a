-- ===== src/PointerBits/Packing.antt =====
-- A pointer and its bits in one word (corral/detail/PointerBits.h).
use native.Mathlib.Nat.{
  div-add-mod', mod-lt, mod-eq_of_lt, mul-mod_left, one-le-pow, mul-add-mod_self_right,
}
use native.Mathlib.Decide.{dec_lt}
use Prim.Native.Nat.{bit_and, bit_or}
use corral.Base.{
  ℕ, ◌+◌, ◌-◌, ◌*◌, ◌/◌, ◌%◌, ◌^◌, ◌≤◌, ◌<◌, ◌≡◌, sym, ◌∙◌, ap, ap₂, true, false, ◌&&◌, ◌==◌, ltb,
  none, some, if◌then◌else◌, Bool-cases, ◌⊎◌, inl, inr, pow-add, arith,
}
use corral.PointerBits.{bits_mask, complement, ptr, bits, set}
use corral.PointerBits.Bits.{bit_and-ones, bit_and-high, bit_or-low}

module _ (w : ℕ) (fits : w ≤ 31) where
  pos : 0 < 2 ^ w
  pos = one-le-pow w 2 (omega arith)

  whole : 2 ^ (64 - w) * 2 ^ w ≡ 2 ^ 64
  whole = sym (pow-add (64 - w) w) ∙ ap (λ x. 2 ^ x) (let e : 64 - w + w ≡ 64 = omega arith in e)

  mask_complement : complement (bits_mask w) ≡ (2 ^ (64 - w) - 1) * 2 ^ w
  mask_complement =
      let n : ℕ = 2 ^ (64 - w) in
      let above = one-le-pow (64 - w) 2 (omega arith) in
      let e : n ≡ n - 1 + 1 = omega (arith, above) in
      omega (arith, whole, pos, ap (λ y. y * 2 ^ w) e)

  quotient_small : (x : ℕ) → x < 2 ^ 64 → x / 2 ^ w < 2 ^ (64 - w)
  quotient_small x h = elim (dec_lt (x / 2 ^ w) (2 ^ (64 - w))) [
    | yes l ↦ l
    | no l ↦
        let q : ℕ = x / 2 ^ w in
        let n : ℕ = 2 ^ (64 - w) in
        let e : q ≡ n + (q - n) = omega (arith, l) in
        absurd (omega (arith, whole, h, ap (λ y. y * 2 ^ w) e, div-add-mod' x (2 ^ w)))
  ]

  bits_lem : (x : ℕ) → bit_and x (bits_mask w) ≡ x % 2 ^ w
  bits_lem x =
      ap (λ y. bit_and y (bits_mask w)) (sym (div-add-mod' x (2 ^ w)))
      ∙ bit_and-ones w (x / 2 ^ w) (x % 2 ^ w) (mod-lt x pos)

  ptr_lem : (x : ℕ) → x < 2 ^ 64 → bit_and x (complement (bits_mask w)) ≡ x / 2 ^ w * 2 ^ w
  ptr_lem x h =
      ap₂ bit_and (sym (div-add-mod' x (2 ^ w))) mask_complement
      ∙ bit_and-high w (64 - w) (x / 2 ^ w) (x % 2 ^ w) (quotient_small x h) (mod-lt x pos)

  -- What the two assertions ask for.
  aligned_test : (p : ℕ) → (bit_and p (bits_mask w) == 0) ≡ (p % 2 ^ w == 0)
  aligned_test p = ap (λ x. x == 0) (bits_lem p)

  small_test : (b : ℕ) → b < 2 ^ 64 → (bit_and b (complement (bits_mask w)) == 0) ≡ ltb b (2 ^ w)
  small_test b h = ap (λ x. x == 0) (ptr_lem b h) ∙ by_size (dec_lt b (2 ^ w))
    where
      by_size : Dec (b < 2 ^ w) → (b / 2 ^ w * 2 ^ w == 0) ≡ ltb b (2 ^ w)
      by_size (yes l) =
          let e : b / 2 ^ w * 2 ^ w ≡ 0 = omega (arith, div-add-mod' b (2 ^ w), mod-eq_of_lt l) in
          ground (arith, e, l)
      by_size (no l) =
          let e : 0 < b / 2 ^ w * 2 ^ w = omega (arith, div-add-mod' b (2 ^ w), mod-lt b pos, l) in
          ground (arith, e, l)

  or_lem : (p b : ℕ) → p % 2 ^ w ≡ 0 → b < 2 ^ w → bit_or p b ≡ p + b
  or_lem p b e h =
      let s : p / 2 ^ w * 2 ^ w ≡ p = omega (arith, div-add-mod' p (2 ^ w), e) in
      ap (λ x. bit_or x b) (sym s) ∙ bit_or-low w (p / 2 ^ w) b h ∙ ap (λ x. x + b) s

  -- `set` accepts an aligned pointer with bits that fit, and no other.
  pub set_lem :
      (p b : ℕ)
      → b < 2 ^ 64
      → set w p b ≡ (if p % 2 ^ w == 0 && ltb b (2 ^ w) then some (p + b) else none)
  unfolding set
  set_lem p b h =
      rw (aligned_test p, small_test b h) (by_tests (Bool-cases (p % 2 ^ w == 0 && ltb b (2 ^ w))))
    where
      by_tests :
          ((p % 2 ^ w == 0 && ltb b (2 ^ w)) ≡ true) ⊎ ((p % 2 ^ w == 0 && ltb b (2 ^ w)) ≡ false)
          → (if p % 2 ^ w == 0 && ltb b (2 ^ w) then some (bit_or p b) else none)
            ≡ (if p % 2 ^ w == 0 && ltb b (2 ^ w) then some (p + b) else none)
      by_tests (inl e) = rw e (ap some (or_lem p b (ground (arith, e)) (ground (arith, e))))
      by_tests (inr e) = rw e

  set_accepts : (p b : ℕ) → p % 2 ^ w ≡ 0 → b < 2 ^ w → b < 2 ^ 64 → set w p b ≡ some (p + b)
  set_accepts p b e s h = set_lem p b h ∙ ground (arith, e, s)

  word_small : (p b : ℕ) → p < 2 ^ 64 → p % 2 ^ w ≡ 0 → b < 2 ^ w → p + b < 2 ^ 64
  word_small p b h e s =
      let q : ℕ = p / 2 ^ w in
      let n : ℕ = 2 ^ (64 - w) in
      let f : n ≡ q + 1 + (n - q - 1) = omega (arith, quotient_small p h) in
      omega (arith, whole, ap (λ y. y * 2 ^ w) f, div-add-mod' p (2 ^ w))

  low_part : (p b : ℕ) → p % 2 ^ w ≡ 0 → b < 2 ^ w → (p + b) % 2 ^ w ≡ b
  low_part p b e s =
      let f : p ≡ p / 2 ^ w * 2 ^ w = omega (arith, div-add-mod' p (2 ^ w)) in
      ap (λ y. (y + b) % 2 ^ w) f ∙ mul-add-mod_self_right (p / 2 ^ w) (2 ^ w) b ∙ mod-eq_of_lt s

  -- With up to 31 bits, an aligned pointer and bits that fit are put together without a failed
  -- assertion and are got back from their word; and any word is made up again of its pointer and its
  -- bits.
  pub set_round_trip :
      (p b x : ℕ)
      → p < 2 ^ 64
      → p % 2 ^ w ≡ 0
      → b < 2 ^ w
      → x < 2 ^ 64
      → (set w p b ≡ some (p + b))
        × (p + b < 2 ^ 64)
        × (ptr w (p + b) ≡ p)
        × (bits w (p + b) ≡ b)
        × (set w (ptr w x) (bits w x) ≡ some x)
  unfolding ptr bits
  set_round_trip p b x h e s l =
      let small = word_small p b h e s in
      let low = low_part p b e s in
      (
        set_accepts p b e s (omega (arith, small)),
        small,
        ptr_lem (p + b) small ∙ omega (arith, low, div-add-mod' (p + b) (2 ^ w)),
        bits_lem (p + b) ∙ low,
        ap₂ (set w) (ptr_lem x l) (bits_lem x)
            ∙ set_accepts (x / 2 ^ w * 2 ^ w) (x % 2 ^ w) (mul-mod_left (x / 2 ^ w) (2 ^ w))
                (mod-lt x pos) (omega (arith, div-add-mod' x (2 ^ w)))
            ∙ ap some (div-add-mod' x (2 ^ w)),
      )
