-- ===== src/Base/Ids.antt =====
-- Lists of awaiters, each named by a number that stands for its address.
use Prim.Native.Nat.{ℕ, suc}
use mathlib.Core.Path.{◌≡◌, refl, subst}
use mathlib.Core.Logic.{inl, inr}
use mathlib.Core.Bool.{Bool, true, false}
use mathlib.Core.List.{List, [], ◌∷◌, ◌++◌}
use native.Mathlib.Omega.{arith}
use corral.Base.Tests.{◌==◌, if◌then◌else◌, Bool-cases}
use corral.Base.Lists.{length}

unfoldable pub has : ℕ → List ℕ → Bool
has i [] = false
has i (x ∷ xs) = if x == i then true else has i xs

unfoldable pub remove : ℕ → List ℕ → List ℕ
remove i [] = []
remove i (x ∷ xs) = if x == i then xs else x ∷ remove i xs

pub length-remove : (i : ℕ) (xs : List ℕ) → has i xs ≡ true → length xs ≡ suc (length (remove i xs))
unfolding has remove
length-remove i [] h = ground arith
length-remove i (x ∷ xs) h = ground (arith, length-remove i xs)

pub remove-absent : (i : ℕ) (xs : List ℕ) → has i xs ≡ false → remove i xs ≡ xs
unfolding has remove
remove-absent i [] h = refl
remove-absent i (x ∷ xs) h = ground (arith, remove-absent i xs)

pub remove-head : (i : ℕ) (is : List ℕ) → remove i (i ∷ is) ≡ is
unfolding remove
remove-head i is = ground arith

pub remove-nil : (i : ℕ) → remove i [] ≡ []
unfolding remove
remove-nil i = refl

pub has-append : (i : ℕ) (xs ys : List ℕ) → has i xs ≡ true → has i (xs ++ ys) ≡ true
unfolding has
has-append i [] ys h = ground arith
has-append i (x ∷ xs) ys h = ground (arith, has-append i xs ys)

pub has-append_right : (i : ℕ) (xs ys : List ℕ) → has i ys ≡ true → has i (xs ++ ys) ≡ true
unfolding has
has-append_right i [] ys h = h
has-append_right i (x ∷ xs) ys h = ground (arith, has-append_right i xs ys)

-- Each awaiter stands in the list once.
abbrev pub IsUnique : List ℕ → Type 0
IsUnique [] = Unit {0}
IsUnique (x ∷ xs) = (has x xs ≡ false) × IsUnique xs

pub has-remove_ne : (i j : ℕ) (xs : List ℕ) → has j xs ≡ false → has j (remove i xs) ≡ false
unfolding has remove
has-remove_ne i j [] h = refl
has-remove_ne i j (x ∷ xs) h = ground (arith, has-remove_ne i j xs)

pub has-remove_self : (i : ℕ) (xs : List ℕ) → IsUnique xs → has i (remove i xs) ≡ false
unfolding has remove
has-remove_self i [] u = refl
has-remove_self i (x ∷ xs) u =
    ground (arith, has-remove_self i xs u.1, λ (e : x ≡ i). subst (λ k. has k xs ≡ false) e u.0)

pub remove-IsUnique : (i : ℕ) (xs : List ℕ) → IsUnique xs → IsUnique (remove i xs)
unfolding has remove
remove-IsUnique i [] u = u
remove-IsUnique i (x ∷ xs) u = elim (Bool-cases (x == i)) [
  | inl e ↦ rw e u.1
  | inr e ↦ rw e (has-remove_ne i x xs u.0, remove-IsUnique i xs u.1)
]

pub has-snoc_false :
    (i j : ℕ) (xs : List ℕ) → has i xs ≡ false → (j == i) ≡ false → has i (xs ++ j ∷ []) ≡ false
unfolding has
has-snoc_false i j [] h e = ground arith
has-snoc_false i j (x ∷ xs) h e = ground (arith, has-snoc_false i j xs)

pub snoc-IsUnique : (i : ℕ) (xs : List ℕ) → IsUnique xs → has i xs ≡ false → IsUnique (xs ++ i ∷ [])
unfolding has
snoc-IsUnique i [] u h = (refl, tt)
snoc-IsUnique i (x ∷ xs) u h =
    (has-snoc_false x i xs u.0 (ground arith), snoc-IsUnique i xs u.1 (ground arith))
