-- ===== src/ThreadPool/Slots.antt =====
-- The slots of a thread pool's submission queue (corral/ThreadPool.h): the capacity computed in 32
-- bits, the ever-increasing indices of 64 bits, and the stride.
use native.Mathlib.Nat.{
  pow-succ', one-dvd, mul-div_cancel', dvd_of_mul-dvd-mul_left, mul-dvd-mul_left, dvd-add_iff_right,
  dvd-mul_right, div-add-mod, mod-mod_of_dvd, le_of_dvd, mod-lt, mod-eq_of_lt, dvd_refl, dvd_trans,
  pow-le-pow_right, dvd-mul_left,
}
use native.Mathlib.Decide.{dec_lt}
use corral.Base.{
  pow-add, ℕ, zero, suc, ◌+◌, ◌-◌, ◌*◌, ◌/◌, ◌%◌, ◌^◌, ◌≤◌, ◌<◌, ◌≡◌, ◌≢◌, refl, sym, subst, ◌∙◌,
  ap, true, false, leb, Bool-cases, inl, inr, arith,
}
use Prim.Native.Nat.{◌∣◌}
use corral.ThreadPool.{ceil_exponent, capacity, advance}

-- The value of `sqHead` after so many claims, and of `sqTail` after so many pushes.
abbrev pub position : ℕ → ℕ
position zero = 0
position (suc i) = advance (position i)

abbrev pub slot : ℕ → ℕ → ℕ
slot c i = position i % c

dvd_of_dvd-mul_seven : (k d : ℕ) → 2 ^ k ∣ 7 * d → 2 ^ k ∣ d
dvd_of_dvd-mul_seven zero d h = one-dvd d
dvd_of_dvd-mul_seven (suc k) d h =
    let g : 2 * 2 ^ k ∣ 7 * d = rw pow-succ' at h in
    let q : ℕ = 7 * d / (2 * 2 ^ k) in
    let e : 2 * 2 ^ k * q ≡ 7 * d = mul-div_cancel' (2 * 2 ^ k) g in
    let even : d ≡ 2 * (d / 2) = omega (arith, e) in
    let half : 2 ^ k ∣ 7 * (d / 2) =
      dvd_of_mul-dvd-mul_left (2 ^ k) (omega arith)
        (subst (λ n. 2 * 2 ^ k ∣ n) (omega (arith, even)) g) in
    rw pow-succ' (
      subst (λ n. 2 * 2 ^ k ∣ n) (sym even)
        (mul-dvd-mul_left (2 ^ k) 2 (dvd_of_dvd-mul_seven k (d / 2) half)))

dvd_of_mod-eq : (c x y : ℕ) → (x + y) % c ≡ x % c → c ∣ y
dvd_of_mod-eq c x y h = (dvd-add_iff_right c (dvd-mul_right c (x / c))).1 (
    subst (λ n. c ∣ n) (omega (arith, h, div-add-mod (x + y) c, div-add-mod x c))
      (dvd-mul_right c ((x + y) / c)))

pow-dvd-pow : (k d : ℕ) → 2 ^ k ∣ 2 ^ (d + k)
pow-dvd-pow k zero = subst (λ n. 2 ^ k ∣ 2 ^ n) (omega arith) (dvd_refl (2 ^ k))
pow-dvd-pow k (suc d) =
    let e : suc (d + k) ≡ suc d + k = omega arith in
    subst (λ n. 2 ^ k ∣ 2 ^ n) e
      (rw pow-succ' (dvd_trans (2 ^ k) (pow-dvd-pow k d) (dvd-mul_left (2 ^ (d + k)) 2)))

position_lem : (i : ℕ) → position i ≡ 7 * i % 2 ^ 64
position_lem zero = refl
position_lem (suc i) = omega (arith, position_lem i)

-- The index in the buffer, as if the 64 bits did not wrap.
slot_lem : (k i : ℕ) → k ≤ 64 → slot (2 ^ k) i ≡ 7 * i % 2 ^ k
slot_lem k i h =
    ap (λ n. n % 2 ^ k) (position_lem i)
    ∙ mod-mod_of_dvd (2 ^ k) (7 * i) (
        subst (λ n. 2 ^ k ∣ 2 ^ n) (let e : 64 - k + k ≡ 64 = omega arith in e)
          (pow-dvd-pow k (64 - k)))

leb→le : (a b : ℕ) → leb a b ≡ true → a ≤ b
leb→le a b h = ground arith

not_above : (a b : ℕ) → leb a b ≡ false → b < a
not_above a b h = ground arith

exponent_bounds :
    (fuel n k : ℕ)
    → n ≤ 2 ^ 22
    → k ≤ 22
    → 22 < fuel + k
    → (n ≤ 2 ^ ceil_exponent fuel n k) × (ceil_exponent fuel n k ≤ 22)
unfolding ceil_exponent
exponent_bounds zero n k h l f = absurd (omega arith)
exponent_bounds (suc fuel) n k h l f = elim (Bool-cases (leb n (2 ^ k))) [
  | inl e ↦ rw e (leb→le n (2 ^ k) e, l)
  | inr e ↦ rw e (exponent_bounds fuel n (k + 1) h (below e (dec_lt k 22)) (omega arith))
]
  where
    below : leb n (2 ^ k) ≡ false → Dec (k < 22) → k + 1 ≤ 22
    below e (yes p) = omega arith
    below e (no p) =
        let same : k ≡ 22 = omega arith in
        absurd (omega (arith, not_above n (2 ^ 22) (subst (λ i. leb n (2 ^ i) ≡ false) same e)))

shifted : (k : ℕ) → 2 ^ k * 512 ≡ 2 ^ (k + 9)
shifted k = sym (pow-add k 9)

pub capacity_lem :
    (n : ℕ)
    → 0 < n
    → n ≤ 2 ^ 22
    → (k : ℕ) × (k ≤ 31) × (capacity n ≡ 2 ^ k) × (512 * n ≤ capacity n)
unfolding capacity
capacity_lem n h l =
    let k = ceil_exponent 32 n 0 in
    let b = exponent_bounds 32 n 0 l (omega arith) (omega arith) in
    let small : 2 ^ (k + 9) ≤ 2 ^ 31 =
      pow-le-pow_right (omega arith) {j = 31} (omega (arith, b.1)) in
    let e : capacity n ≡ 2 ^ (k + 9) = mod-eq_of_lt (omega (arith, small, shifted k)) ∙ shifted k in
    (k + 9, omega (arith, b.1), e, omega (arith, e, shifted k, b.0))

-- With up to 2 ^ 22 threads the submission queue has at least 512 slots for each, and any two of as
-- many successive pushes, or claims, as there are slots go to different slots, also where the index
-- of 64 bits wraps around in between.
pub slots_distinct :
    (n i j : ℕ)
    → 0 < n
    → n ≤ 2 ^ 22
    → i < j
    → j < i + capacity n
    → (512 * n ≤ capacity n)
      × (slot (capacity n) j < capacity n)
      × (slot (capacity n) i ≢ slot (capacity n) j)
slots_distinct n i j h l p q =
    let (k, small, e, room) = capacity_lem n h l in
    (room, mod-lt (position j) (omega (arith, room)), λ same. apart k small e same)
  where
    apart : (k : ℕ) → k ≤ 31 → capacity n ≡ 2 ^ k → slot (capacity n) i ≡ slot (capacity n) j → ⊥
    apart k small e same =
        let d : ℕ = j - i in
        let s : slot (2 ^ k) i ≡ slot (2 ^ k) j = subst (λ c. slot c i ≡ slot c j) e same in
        let m : (7 * i + 7 * d) % 2 ^ k ≡ 7 * i % 2 ^ k =
          ap (λ x. x % 2 ^ k) (let g : 7 * i + 7 * d ≡ 7 * j = omega arith in g)
          ∙ sym (sym (slot_lem k i (omega arith)) ∙ s ∙ slot_lem k j (omega arith)) in
        let big =
          le_of_dvd (omega arith)
            (dvd_of_dvd-mul_seven k d (dvd_of_mod-eq (2 ^ k) (7 * i) (7 * d) m)) in
        omega (arith, big, e)
