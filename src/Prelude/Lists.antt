-- ===== src/Prelude/Lists.antt =====
-- Lists measured by native numbers, under the library's names.
use Prim.Native.Nat.{ℕ, suc, ◌+◌, ◌≤◌}
use mathlib.Core.Path.{◌≡◌, refl, ap, ◌∙◌}
use mathlib.Core.List.{
  List, [], ◌∷◌, ◌++◌, Perm, Permᴰ, Mem, mem-cons, mem-cons_self, mem-cons_of_mem, not-mem-nil,
}
use mathlib.Core.List.Perm
use mathlib.Core.Logic.Or
use mathlib.Core.Bool.{Bool, Bool-set}
use mathlib.Core.Logic.{∥∥₁_elim}
use native.Mathlib.Omega.{arith}
use native.Mathlib.Nat.{ℕ_set}

module _ {ℓ} {A : Type ℓ} where
  abbrev pub length : List A → ℕ
  length [] = 0
  length (x ∷ xs) = suc (length xs)

  pub length-append : (xs ys : List A) → length (xs ++ ys) ≡ length xs + length ys
  length-append [] ys = omega arith
  length-append (x ∷ xs) ys = omega (arith, length-append xs ys)

abbrev pub sum : List ℕ → ℕ
sum [] = 0
sum (x ∷ xs) = x + sum xs

pub sum-append : (xs ys : List ℕ) → sum (xs ++ ys) ≡ sum xs + sum ys
sum-append [] ys = omega arith
sum-append (x ∷ xs) ys = omega (arith, sum-append xs ys)

-- A sum does not depend on the order.
sum-permᴰ : {xs ys : List ℕ} → Permᴰ xs ys → sum xs ≡ sum ys
sum-permᴰ Permᴰ.nil = refl
sum-permᴰ (Permᴰ.cons e p) = omega (arith, sum-permᴰ p)
sum-permᴰ (Permᴰ.swap e f) = omega arith
sum-permᴰ (Permᴰ.trans p q) = sum-permᴰ p ∙ sum-permᴰ q

pub sum-perm : {xs ys : List ℕ} → Perm xs ys → sum xs ≡ sum ys
sum-perm p = ∥∥₁_elim p (ℕ_set _ _) sum-permᴰ

module _ {ℓ} {A : Type ℓ} where
  length-permᴰ : {xs ys : List A} → Permᴰ xs ys → length xs ≡ length ys
  length-permᴰ Permᴰ.nil = refl
  length-permᴰ (Permᴰ.cons e p) = omega (arith, length-permᴰ p)
  length-permᴰ (Permᴰ.swap e f) = refl
  length-permᴰ (Permᴰ.trans p q) = length-permᴰ p ∙ length-permᴰ q

  pub length-perm : {xs ys : List A} → Perm xs ys → length xs ≡ length ys
  length-perm p = ∥∥₁_elim p (ℕ_set _ _) length-permᴰ

  -- Every element satisfies the predicate.
  abbrev pub All {κ} : (A → Type κ) → List A → Type κ
  All P [] = Unit
  All P (x ∷ xs) = P x × All P xs

  pub All-append {κ} : (P : A → Type κ) (xs ys : List A) → All P xs → All P ys → All P (xs ++ ys)
  All-append P [] ys a b = b
  All-append P (x ∷ xs) ys a b = (a.0, All-append P xs ys a.1 b)

  pub All-left {κ} : (P : A → Type κ) (xs ys : List A) → All P (xs ++ ys) → All P xs
  All-left P [] ys a = tt
  All-left P (x ∷ xs) ys a = (a.0, All-left P xs ys a.1)

  pub All-right {κ} : (P : A → Type κ) (xs ys : List A) → All P (xs ++ ys) → All P ys
  All-right P [] ys a = a
  All-right P (x ∷ xs) ys a = All-right P xs ys a.1

  pub All-imp {κ μ} :
      {P : A → Type κ} {Q : A → Type μ}
      → ((a : A) → P a → Q a)
      → (xs : List A) → All P xs
      → All Q xs
  All-imp f [] a = tt
  All-imp f (x ∷ xs) a = (f x a.0, All-imp f xs a.1)

-- Each element of a list is at most its sum.
pub All-le-sum : (n : ℕ) (xs : List ℕ) → sum xs ≤ n → All (λ x. x ≤ n) xs
All-le-sum n [] h = tt
All-le-sum n (x ∷ xs) h = (omega arith, All-le-sum n xs (omega arith))

-- A test that the elements of a list pass (or fail), on their rearrangement.
module _ {ℓ} {A : Type ℓ} (test : A → Bool) (b : Bool) where
  All-Mem : (xs : List A) {x : A} → All (λ y. test y ≡ b) xs → Mem x xs → test x ≡ b
  All-Mem [] a m = absurd (not-mem-nil m)
  All-Mem (y ∷ xs) a m =
      Or.elim (Bool-set _ _) (mem-cons.0 m) (λ h. ap test h ∙ a.0) λ later. All-Mem xs a.1 later

  Mem-All : (xs : List A) → ((x : A) → Mem x xs → test x ≡ b) → All (λ y. test y ≡ b) xs
  Mem-All [] f = tt
  Mem-All (y ∷ xs) f = (f y mem-cons_self, Mem-All xs λ x m. f x (mem-cons_of_mem y m))

  pub All-perm : (xs ys : List A) → Perm xs ys → All (λ y. test y ≡ b) ys → All (λ y. test y ≡ b) xs
  All-perm xs ys p a = Mem-All xs λ x m. All-Mem ys a (Perm.subset p x m)
