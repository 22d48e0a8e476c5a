-- ===== src/Common/Tests.antt =====
-- Boolean tests on the native numbers, the conditional, and case splits that keep the equation.
use Prim.Native.Nat.{ℕ, ◌≤◌, ◌<◌, compare, Ordering}
use mathlib.Core.Path.{◌≡◌, refl}
use mathlib.Core.Logic.{◌↔◌, ◌⊎◌, inl, inr}
use mathlib.Core.Bool.{Bool, true, false}
use mathlib.Core.Option.{Option, none, some}
use native.Mathlib.Omega.{arith}

abbrev pub ltb : ℕ → ℕ → Bool
ltb a b = elim (compare a b) [ Ordering.lt ↦ true | _ ↦ false ]

abbrev pub leb : ℕ → ℕ → Bool
leb a b = elim (compare a b) [ Ordering.gt ↦ false | _ ↦ true ]

infix 50 ◌==◌
abbrev pub ◌==◌ : ℕ → ℕ → Bool
a == b = elim (compare a b) [ Ordering.eq ↦ true | _ ↦ false ]

infix 1 if◌then◌else◌
abbrev pub if◌then◌else◌ {ℓ} : {A : Type ℓ} → Bool → A → A → A
if true then x else y = x
if false then x else y = y

pub ltb→lt : (a b : ℕ) → ltb a b ≡ true → a < b
ltb→lt a b h = ground arith

pub lt→ltb : (a b : ℕ) → a < b → ltb a b ≡ true
lt→ltb a b h = ground arith

pub leb→le : (a b : ℕ) → leb a b ≡ true → a ≤ b
leb→le a b h = ground arith

pub le→leb : (a b : ℕ) → a ≤ b → leb a b ≡ true
le→leb a b h = ground arith

pub ==_iff : (a b : ℕ) → ((a == b) ≡ true) ↔ (a ≡ b)
==_iff a b = ground arith

pub ruleset tests = (arith, ltb→lt, lt→ltb, leb→le)

pub Bool-cases : (b : Bool) → (b ≡ true) ⊎ (b ≡ false)
Bool-cases true = inl refl
Bool-cases false = inr refl

pub Option-cases {ℓ} : {A : Type ℓ} (o : Option A) → (o ≡ none) ⊎ ((a : A) × (o ≡ some a))
Option-cases none = inl refl
Option-cases (some a) = inr (a, refl)

pub if-elim {ℓ κ} :
    {A : Type ℓ} {x y : A} (P : A → Type κ) (b : Bool) → P x → P y → P (if b then x else y)
if-elim P true p q = p
if-elim P false p q = q

pub Option-elim {ℓ κ μ} :
    {A : Type ℓ} {B : Type κ} {b : B} {f : A → B} (P : B → Type μ) (o : Option A)
    → (o ≡ none → P b)
    → ((a : A) → o ≡ some a → P (f a))
    → P (elim o [ none ↦ b | some a ↦ f a ])
Option-elim P none p q = p refl
Option-elim P (some a) p q = q a refl

pub if-elim₂ {ℓ κ μ} :
    {A : Type ℓ} {B : Type κ} {x y : A} {u v : B} (R : A → B → Type μ) (b : Bool)
    → R x u
    → R y v
    → R (if b then x else y) (if b then u else v)
if-elim₂ R true p q = p
if-elim₂ R false p q = q

-- The same for a relation, where both sides look at the same option.
pub Option-elim₂ {ℓ κ κ' μ} :
    {A : Type ℓ} {B : Type κ} {C : Type κ'} {b : B} {f : A → B} {c : C} {g : A → C}
    (R : B → C → Type μ) (o : Option A)
    → (o ≡ none → R b c)
    → ((a : A) → o ≡ some a → R (f a) (g a))
    → R (elim o [ none ↦ b | some a ↦ f a ]) (elim o [ none ↦ c | some a ↦ g a ])
Option-elim₂ R none p q = p refl
Option-elim₂ R (some a) p q = q a refl

-- Where the condition is known; the rest of the goal is left as it is.
pub if-true {ℓ κ} :
    {A : Type ℓ} {x : A} (P : A → Type κ) (b : Bool) (y : A)
    → b ≡ true
    → P x
    → P (if b then x else y)
if-true P true y e p = p
if-true P false y e p = absurd (ground (arith, e))

pub if-false {ℓ κ} :
    {A : Type ℓ} {y : A} (P : A → Type κ) (b : Bool) (x : A)
    → b ≡ false
    → P y
    → P (if b then x else y)
if-false P true x e p = absurd (ground (arith, e))
if-false P false x e p = p
