-- ===== src/Connection/Sort/Orders.antt =====
-- Comparators as orders, and how the manager's comparator is put together from them.
use Prim.Native.Nat.{Ordering}
use kudeploy.Prelude.{
  ◌≡◌, refl, Bool, true, false, Option, none, some, [], ◌∷◌, Text, arith, if◌then◌else◌,
}
use kudeploy.Prelude.Int.{ℤ, pos, negsuc, int_ltb}
use kudeploy.Connection.Value.{text_ltb}
use kudeploy.Connection.Sort.{not_after}
use kudeploy.Connection.Sort.Laws.{IsConsistent}

abbrev pub flipped : Ordering → Ordering
flipped Ordering.lt = Ordering.gt
flipped Ordering.eq = Ordering.eq
flipped Ordering.gt = Ordering.lt

-- `first || second` of two comparisons
abbrev pub then_by : Ordering → Ordering → Ordering
then_by Ordering.eq o = o
then_by o _ = o

-- A comparator that is a total preorder on the values with the property `P`.
pub record IsOrder {ℓ κ} {A : Type ℓ} (P : A → Type κ) (f : A → A → Ordering) : Type (ℓ ⊔ κ) where
  pub flip : (x y : A) → P x → P y → f y x ≡ flipped (f x y)
  pub trans :
      (x y z : A)
      → P x
      → P y
      → P z
      → not_after (f x y) ≡ true
      → not_after (f y z) ≡ true
      → not_after (f x z) ≡ true

module _ {ℓ κ} {A : Type ℓ} {P : A → Type κ} where
  pub IsOrder-IsConsistent : {f : A → A → Ordering} → IsOrder P f → IsConsistent P f
  IsOrder-IsConsistent {f} o = record {
    total = λ x y p q e. ground (arith, o.flip x y p q);
    trans = o.trans;
  }

  pub IsOrder-flipped : {f : A → A → Ordering} → IsOrder P f → IsOrder P (λ x y. flipped (f x y))
  IsOrder-flipped {f} o = record {
    flip = λ x y p q. ground (arith, o.flip x y p q);
    trans = λ x y z p q r e h.
        ground (arith, o.flip x y p q, o.flip y z q r, o.flip x z p r, o.trans z y x r q p);
  }

  pub IsOrder-then_by :
      {f g : A → A → Ordering}
      → IsOrder P f
      → IsOrder P g
      → IsOrder P (λ x y. then_by (f x y) (g x y))
  IsOrder-then_by {f} {g} o q = record {
    flip = λ x y p r. ground (arith, o.flip x y p r, q.flip x y p r);
    trans = λ x y z px py pz e h. ground (
      arith,
      o.flip x y px py,
      o.flip y z py pz,
      o.flip x z px pz,
      o.trans x y z px py pz,
      o.trans y z x py pz px,
      o.trans z x y pz px py,
      q.trans x y z px py pz,
    );
  }

-- A strict test that splits every pair it orders.
pub record IsStrict {ℓ} {A : Type ℓ} (lt : A → A → Bool) : Type ℓ where
  pub asym : (x y : A) → lt x y ≡ true → lt y x ≡ false
  pub cut : (x y z : A) → lt x z ≡ true → lt x y ≡ false → lt y z ≡ true

abbrev pub by_test {ℓ} : {A : Type ℓ} → (A → A → Bool) → A → A → Ordering
by_test lt x y = if lt x y then Ordering.lt else if lt y x then Ordering.gt else Ordering.eq

abbrev pub option_order {ℓ} : {A : Type ℓ} → (A → A → Ordering) → Option A → Option A → Ordering
option_order f none none = Ordering.eq
option_order f none (some b) = Ordering.lt
option_order f (some a) none = Ordering.gt
option_order f (some a) (some b) = f a b

abbrev pub Always {ℓ} : {A : Type ℓ} → A → Type 0
Always a = Unit

module _ {ℓ} {A : Type ℓ} where
  pub by_test-IsOrder : {lt : A → A → Bool} → IsStrict lt → IsOrder (Always {A = A}) (by_test lt)
  by_test-IsOrder {lt} s = record {
    flip = λ x y _ _. ground (arith, s.asym x y, s.asym y x);
    trans = λ x y z _ _ _ e h. ground (
      arith,
      s.asym x y,
      s.asym y x,
      s.asym y z,
      s.asym z y,
      s.asym x z,
      s.asym z x,
      s.cut z y x,
    );
  }

  pub option_order-IsOrder :
      {f : A → A → Ordering} → IsOrder (Always {A = A}) f → IsOrder Always (option_order f)
  option_order-IsOrder {f} o = record { flip = flip; trans = trans }
    where
      flip :
          (x y : Option A) → Unit {0} → Unit {0} → option_order f y x ≡ flipped (option_order f x y)
      flip none none _ _ = refl
      flip none (some b) _ _ = refl
      flip (some a) none _ _ = refl
      flip (some a) (some b) _ _ = o.flip a b tt tt

      trans :
          (x y z : Option A)
          → Unit {0}
          → Unit {0}
          → Unit {0}
          → not_after (option_order f x y) ≡ true
          → not_after (option_order f y z) ≡ true
          → not_after (option_order f x z) ≡ true
      trans none y none _ _ _ e h = refl
      trans none y (some c) _ _ _ e h = refl
      trans (some a) none z _ _ _ e h = ground arith
      trans (some a) (some b) none _ _ _ e h = ground arith
      trans (some a) (some b) (some c) _ _ _ e h = o.trans a b c tt tt tt e h

int_asym : (a b : ℤ) → int_ltb a b ≡ true → int_ltb b a ≡ false
int_asym (pos a) (pos b) h = ground arith
int_asym (pos a) (negsuc b) h = ground arith
int_asym (negsuc a) (pos b) h = ground arith
int_asym (negsuc a) (negsuc b) h = ground arith

int_cut : (a b c : ℤ) → int_ltb a c ≡ true → int_ltb a b ≡ false → int_ltb b c ≡ true
int_cut (pos a) (pos b) (pos c) h e = ground arith
int_cut (negsuc a) (negsuc b) (negsuc c) h e = ground arith
int_cut _ _ _ h e = ground arith

pub int_ltb-IsStrict : IsStrict int_ltb
int_ltb-IsStrict = record { asym = int_asym; cut = int_cut }

text_asym : (s t : Text) → text_ltb s t ≡ true → text_ltb t s ≡ false
unfolding text_ltb
text_asym [] [] h = ground arith
text_asym [] (d ∷ t) h = refl
text_asym (c ∷ s) [] h = ground arith
text_asym (c ∷ s) (d ∷ t) h = ground (arith, text_asym s t)

text_cut : (s t u : Text) → text_ltb s u ≡ true → text_ltb s t ≡ false → text_ltb t u ≡ true
unfolding text_ltb
text_cut (c ∷ s) (d ∷ t) (e ∷ u) h k = ground (arith, text_cut s t u)
text_cut _ _ _ h k = ground arith

pub text_ltb-IsStrict : IsStrict text_ltb
text_ltb-IsStrict = record { asym = text_asym; cut = text_cut }
