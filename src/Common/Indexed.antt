-- ===== src/Common/Indexed.antt =====
-- Lists by positions: the element at one, a list with another element there or without it, and what
-- these do to a sum over the elements and to a predicate of them.
use Prim.Native.Nat.{ℕ, zero, suc, ◌+◌}
use mathlib.Core.Path.{◌≡◌, refl}
use mathlib.Core.Option.{Option, none, some}
use mathlib.Core.List.{List, [], ◌∷◌, ◌++◌}
use native.Mathlib.Omega.{arith}
use nflow_runtime.Common.Lists.{All}

module _ {ℓ} {A : Type ℓ} where
  abbrev pub get_elem? : List A → ℕ → Option A
  get_elem? [] i = none
  get_elem? (x ∷ xs) zero = some x
  get_elem? (x ∷ xs) (suc i) = get_elem? xs i

  abbrev pub set : List A → ℕ → A → List A
  set [] i y = []
  set (x ∷ xs) zero y = y ∷ xs
  set (x ∷ xs) (suc i) y = x ∷ set xs i y

  abbrev pub erase_idx : List A → ℕ → List A
  erase_idx [] i = []
  erase_idx (x ∷ xs) zero = xs
  erase_idx (x ∷ xs) (suc i) = x ∷ erase_idx xs i

  abbrev pub sum_by : (A → ℕ) → List A → ℕ
  sum_by f [] = 0
  sum_by f (x ∷ xs) = f x + sum_by f xs

  pub sum_by-append : (f : A → ℕ) (xs ys : List A) → sum_by f (xs ++ ys) ≡ sum_by f xs + sum_by f ys
  sum_by-append f [] ys = omega arith
  sum_by-append f (x ∷ xs) ys = omega (arith, sum_by-append f xs ys)

  pub sum_by-set :
      (f : A → ℕ) (xs : List A) (i : ℕ) (x y : A)
      → get_elem? xs i ≡ some x
      → sum_by f (set xs i y) + f x ≡ sum_by f xs + f y
  sum_by-set f [] i x y e = absurd (ground (arith, e))
  sum_by-set f (z ∷ xs) zero x y e = ground (arith, e)
  sum_by-set f (z ∷ xs) (suc i) x y e = omega (arith, sum_by-set f xs i x y e)

  pub sum_by-erase_idx :
      (f : A → ℕ) (xs : List A) (i : ℕ) (x : A)
      → get_elem? xs i ≡ some x
      → sum_by f (erase_idx xs i) + f x ≡ sum_by f xs
  sum_by-erase_idx f [] i x e = absurd (ground (arith, e))
  sum_by-erase_idx f (z ∷ xs) zero x e = ground (arith, e)
  sum_by-erase_idx f (z ∷ xs) (suc i) x e = omega (arith, sum_by-erase_idx f xs i x e)

  pub get_elem?-set :
      (xs : List A) (i : ℕ) (x y : A) → get_elem? xs i ≡ some x → get_elem? (set xs i y) i ≡ some y
  get_elem?-set [] i x y e = absurd (ground (arith, e))
  get_elem?-set (z ∷ xs) zero x y e = refl
  get_elem?-set (z ∷ xs) (suc i) x y e = get_elem?-set xs i x y e

module _ {ℓ κ} {A : Type ℓ} (P : A → Type κ) where
  pub All-get_elem? : (xs : List A) (i : ℕ) (x : A) → get_elem? xs i ≡ some x → All P xs → P x
  All-get_elem? [] i x e h = absurd (ground (arith, e))
  All-get_elem? (z ∷ xs) zero x e (p, h) = let same : z ≡ x = ground (arith, e) in rw⁻¹ (same) p
  All-get_elem? (z ∷ xs) (suc i) x e (p, h) = All-get_elem? xs i x e h

  pub All-set : (xs : List A) (i : ℕ) (y : A) → P y → All P xs → All P (set xs i y)
  All-set [] i y q h = h
  All-set (z ∷ xs) zero y q (p, h) = (q, h)
  All-set (z ∷ xs) (suc i) y q (p, h) = (p, All-set xs i y q h)

  pub All-erase_idx : (xs : List A) (i : ℕ) → All P xs → All P (erase_idx xs i)
  All-erase_idx [] i h = h
  All-erase_idx (z ∷ xs) zero (p, h) = h
  All-erase_idx (z ∷ xs) (suc i) (p, h) = (p, All-erase_idx xs i h)

module _ {ℓ} {A : Type ℓ} where
  -- Two lists with the same elements at all positions are the same.
  pub ext-get_elem? : (xs ys : List A) → ((i : ℕ) → get_elem? xs i ≡ get_elem? ys i) → xs ≡ ys
  ext-get_elem? [] [] h = refl
  ext-get_elem? [] (y ∷ ys) h = absurd (ground (arith, h zero))
  ext-get_elem? (x ∷ xs) [] h = absurd (ground (arith, h zero))
  ext-get_elem? (x ∷ xs) (y ∷ ys) h =
      let heads : x ≡ y = ground (arith, h zero) in
      let tails : xs ≡ ys = ext-get_elem? xs ys (λ i. h (suc i)) in rw (heads, tails) refl
