-- ===== src/Prelude/Tests.antt =====
-- Boolean tests, branching, equality as an instance, and case splits that keep the equation.
use Prim.Native.Nat.{ℕ, ◌<◌, ◌≤◌, compare, Ordering}
use mathlib.Core.Path.{◌≡◌, refl, ap₂}
use mathlib.Core.Logic.{◌⊎◌, inl, inr, ◌↔◌}
use mathlib.Core.Bool.{Bool, true, false, ◌&&◌}
use mathlib.Core.Option.{Option, none, some}
use mathlib.Core.List.{List, [], ◌∷◌}
use native.Mathlib.Omega.{arith}

abbrev pub ltb : ℕ → ℕ → Bool
ltb a b = elim (compare a b) [ Ordering.lt ↦ true | _ ↦ false ]

abbrev pub leb : ℕ → ℕ → Bool
leb a b = elim (compare a b) [ Ordering.gt ↦ false | _ ↦ true ]

abbrev pub nat_beq : ℕ → ℕ → Bool
nat_beq a b = elim (compare a b) [ Ordering.eq ↦ true | _ ↦ false ]

infix 1 if◌then◌else◌
abbrev pub if◌then◌else◌ {ℓ} : {A : Type ℓ} → Bool → A → A → A
if true then x else y = x
if false then x else y = y

pub ltb→lt : (a b : ℕ) → ltb a b ≡ true → a < b
ltb→lt a b h = ground arith

pub leb→le : (a b : ℕ) → leb a b ≡ true → a ≤ b
leb→le a b h = ground arith

pub nat_beq_iff : (a b : ℕ) → (nat_beq a b ≡ true) ↔ (a ≡ b)
nat_beq_iff a b = ground arith

pub Bool-cases : (b : Bool) → (b ≡ true) ⊎ (b ≡ false)
Bool-cases true = inl refl
Bool-cases false = inr refl

pub Option-cases {ℓ} : {A : Type ℓ} (o : Option A) → (o ≡ none) ⊎ ((a : A) × (o ≡ some a))
Option-cases none = inl refl
Option-cases (some a) = inr (a, refl)

pub List-cases {ℓ} :
    {A : Type ℓ} (xs : List A) → (xs ≡ []) ⊎ ((y : A) × (ys : List A) × (xs ≡ y ∷ ys))
List-cases [] = inl refl
List-cases (y ∷ ys) = inr (y, ys, refl)

pub and-eq-true : (a b : Bool) → (a && b) ≡ true → (a ≡ true) × (b ≡ true)
and-eq-true true true h = (refl, refl)
and-eq-true _ _ h = ground arith

-- `===` on the values that the program compares.
pub record StrictEq {ℓ} (A : Type ℓ) : Type ℓ where
  pub identical : A → A → Bool
  pub identical_iff : (x y : A) → (identical x y ≡ true) ↔ (x ≡ y)

infix 50 ◌==◌
abbrev pub ◌==◌ {ℓ} : {A : Type ℓ} ⦃s : StrictEq A⦄ → A → A → Bool
◌==◌ ⦃s⦄ x y = s.identical x y

instance abbrev pub nat_eq : StrictEq ℕ
nat_eq = record { identical_iff = nat_beq_iff; identical = nat_beq }

module _ {ℓ} {A : Type ℓ} ⦃e : StrictEq A⦄ where
  unfoldable pub list_beq : List A → List A → Bool
  list_beq [] [] = true
  list_beq (x ∷ xs) (y ∷ ys) = x == y && list_beq xs ys
  list_beq _ _ = false

  list_beq→eq : (xs ys : List A) → list_beq xs ys ≡ true → xs ≡ ys
  unfolding list_beq
  list_beq→eq [] [] h = refl
  list_beq→eq (x ∷ xs) (y ∷ ys) h =
      let (here, later) = and-eq-true _ _ h in
      ap₂ ◌∷◌ ((e.identical_iff x y).0 here) (list_beq→eq xs ys later)
  list_beq→eq _ _ h = ground arith

  list_beq_self : (xs : List A) → list_beq xs xs ≡ true
  unfolding list_beq
  list_beq_self [] = refl
  list_beq_self (x ∷ xs) = ground (arith, e.identical_iff x x, list_beq_self xs)

  pub list_beq_iff : (xs ys : List A) → (list_beq xs ys ≡ true) ↔ (xs ≡ ys)
  list_beq_iff xs ys = (list_beq→eq xs ys, λ p. rw p (list_beq_self ys))

  pub ==-self : (a : A) → (a == a) ≡ true
  ==-self a = (e.identical_iff a a).1 refl

instance abbrev pub list_eq {ℓ} : {A : Type ℓ} ⦃e : StrictEq A⦄ → StrictEq (List A)
list_eq = record { identical = list_beq; identical_iff = list_beq_iff }

-- `optional === value`, where `undefined` equals no value.
module _ {ℓ} {A : Type ℓ} ⦃e : StrictEq A⦄ where
  abbrev pub is_value : Option A → A → Bool
  is_value none b = false
  is_value (some a) b = a == b

  pub is_value_iff : (o : Option A) (b : A) → (is_value o b ≡ true) ↔ (o ≡ some b)
  is_value_iff none b = ground arith
  is_value_iff (some a) b = ground (arith, e.identical_iff a b)

-- `a ?? b`
abbrev pub or_else {ℓ} : {A : Type ℓ} → Option A → A → A
or_else none b = b
or_else (some a) b = a

abbrev pub is_some {ℓ} : {A : Type ℓ} → Option A → Bool
is_some none = false
is_some (some a) = true

-- A field that an input may leave out, or give as `null`.
pub data Patch {ℓ} (A : Type ℓ) : Type ℓ where
  absent : Patch A
  given : Option A → Patch A
