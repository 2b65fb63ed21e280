-- ===== src/Connection/Sort/Items.antt =====
-- The manager's comparator is an order where the order field has one kind of value.
use Prim.Native.Nat.{Ordering}
use mathlib.Core.List.{Perm}
use mathlib.Core.Path.{fun_ext}
use kudeploy.Prelude.{
  ◌≡◌, ◌∙◌, refl, inl, inr, Bool, Option, none, some, List, Text, All, arith, Bool-cases, units,
  ◌==◌, nat_eq, list_eq, if◌then◌else◌,
}
use kudeploy.Prelude.Int.{ℤ, int_ltb}
use kudeploy.Connection.Value.{
  Value, undefined, null, num, str, date, text_ltb, compare_values, get_value_by_path,
}
use kudeploy.Connection.Sort.Laws.{IsSorted, sort-perm, sort-IsSorted}
use kudeploy.Connection.Sort.Orders.{
  IsOrder, IsOrder-IsConsistent, IsOrder-then_by, then_by, by_test, option_order, by_test-IsOrder,
  option_order-IsOrder, int_ltb-IsStrict, text_ltb-IsStrict, Always,
}
use kudeploy.Connection.Manager.{
  Runtime, Entity, OrderBy, OrderDirection, asc, desc, directed, order_field, order_direction,
  id_value, compare_items, sort_items,
}

pub data Kind : Type 0 where
  numeric textual : Kind

-- Missing values go with both kinds; a date is compared by its time.
abbrev pub HasKind : Kind → Value → Type 0
HasKind k undefined = Unit
HasKind k null = Unit
HasKind numeric (num n) = Unit
HasKind numeric (date (some t)) = Unit
HasKind textual (str s) = Unit
HasKind _ _ = ⊥

number_key : Value → Option ℤ
number_key (num n) = some n
number_key (date (some t)) = some t
number_key _ = none

text_key : Value → Option Text
text_key (str s) = some s
text_key _ = none

module _ (coerced_ltb : Value → Value → Bool) where
  compare_values-numeric :
      (v w : Value)
      → HasKind numeric v
      → HasKind numeric w
      → compare_values coerced_ltb v w
        ≡ option_order (by_test int_ltb) (number_key v) (number_key w)
  unfolding compare_values number_key
  compare_values-numeric (num a) (num b) p q = refl
  compare_values-numeric (date (some a)) (date (some b)) p q = refl
  compare_values-numeric (date (some a)) (num b) p q = refl
  compare_values-numeric (num a) (date (some b)) p q = refl
  compare_values-numeric undefined undefined p q = refl
  compare_values-numeric _ _ p q = ground arith

  compare_values-textual :
      (v w : Value)
      → HasKind textual v
      → HasKind textual w
      → compare_values coerced_ltb v w ≡ option_order (by_test text_ltb) (text_key v) (text_key w)
  unfolding compare_values text_key
  compare_values-textual (str a) (str b) p q = refl
  compare_values-textual undefined undefined p q = refl
  compare_values-textual _ _ p q = ground arith

module _ {ℓ κ μ} {A : Type ℓ} {B : Type κ} {P : A → Type μ} (key : A → B) {f : A → A → Ordering}
    {g : B → B → Ordering} (o : IsOrder Always g)
    (same : (x y : A) → P x → P y → f x y ≡ g (key x) (key y)) where
  IsOrder-pull : IsOrder P f
  IsOrder-pull = record {
    flip = λ x y p q. ground (arith, same x y p q, same y x q p, o.flip (key x) (key y));
    trans = λ x y z p q r.
        ground (
          arith,
          same x y p q,
          same y z q r,
          same x z p r,
          o.trans (key x) (key y) (key z) tt tt tt,
        );
  }

module _ {ℓ} {A : Type ℓ} (coerced_ltb : Value → Value → Bool) (v : A → Value) where
  compare_values-IsOrder :
      (k : Kind) → IsOrder (λ x. HasKind k (v x)) (λ x y. compare_values coerced_ltb (v x) (v y))
  compare_values-IsOrder numeric =
      IsOrder-pull (λ x. number_key (v x)) (option_order-IsOrder (by_test-IsOrder int_ltb-IsStrict))
        (λ x y. compare_values-numeric coerced_ltb (v x) (v y))
  compare_values-IsOrder textual =
      IsOrder-pull (λ x. text_key (v x)) (option_order-IsOrder (by_test-IsOrder text_ltb-IsStrict))
        (λ x y. compare_values-textual coerced_ltb (v x) (v y))

IsOrder-directed {ℓ κ} :
    {A : Type ℓ} {P : A → Type κ} {f : A → A → Ordering} (d : OrderDirection)
    → IsOrder P f
    → IsOrder P (λ x y. directed d (f x y))
IsOrder-directed asc o = o
IsOrder-directed desc o = record {
  flip = λ x y p q. ground (arith, o.flip x y p q);
  trans = λ x y z p q r e h.
      ground (arith, o.flip x y p q, o.flip y z q r, o.flip x z p r, o.trans z y x r q p);
}

id_value-textual : (id : Option Text) → HasKind textual (id_value id)
id_value-textual none = tt
id_value-textual (some id) = tt

module _ {ℓ} {A : Type ℓ} (rt : Runtime) ⦃en : Entity A⦄ where
  abbrev pub HasField : Kind → Option OrderBy → A → Type 0
  HasField k order item = HasKind k (get_value_by_path (en.as_value item) (order_field order))

  by_field : Option OrderBy → A → A → Ordering
  by_field order x y = directed (order_direction order) (
      compare_values rt.coerced_ltb (get_value_by_path (en.as_value x) (order_field order))
        (get_value_by_path (en.as_value y) (order_field order)))

  by_id : Option OrderBy → A → A → Ordering
  by_id order x y =
      directed (order_direction order)
        (compare_values rt.coerced_ltb (id_value (en.id_of x)) (id_value (en.id_of y)))

  by_id-IsOrder : (order : Option OrderBy) (k : Kind) → IsOrder (HasField k order) (by_id order)
  unfolding by_id
  by_id-IsOrder order k =
      let o = compare_values-IsOrder rt.coerced_ltb (λ x. id_value (en.id_of x)) textual in
      IsOrder-directed (order_direction order) (record {
        flip =
            λ x y p q. o.flip x y (id_value-textual (en.id_of x)) (id_value-textual (en.id_of y));
        trans = λ x y z p q r.
            o.trans x y z (id_value-textual (en.id_of x)) (id_value-textual (en.id_of y))
              (id_value-textual (en.id_of z));
      })

  by_field-IsOrder :
      (order : Option OrderBy) (k : Kind) → IsOrder (HasField k order) (by_field order)
  unfolding by_field
  by_field-IsOrder order k = IsOrder-directed (order_direction order) (
      compare_values-IsOrder rt.coerced_ltb
        (λ x. get_value_by_path (en.as_value x) (order_field order)) k)

  compare_items-eq :
      (order : Option OrderBy) (x y : A)
      → compare_items rt order x y ≡ (
          if order_field order == units "id"
          then by_field order x y
          else then_by (by_field order x y) (by_id order x y))
  unfolding compare_items by_field by_id
  compare_items-eq order x y = ground arith

  compare_items-IsOrder :
      (order : Option OrderBy) (k : Kind) → IsOrder (HasField k order) (compare_items rt order)
  compare_items-IsOrder order k = elim (Bool-cases (order_field order == units "id")) [
    | inl e ↦
        let same : (x y : A) → compare_items rt order x y ≡ by_field order x y =
          λ x y. compare_items-eq order x y ∙ (rw e) in
        rw (fun_ext (λ x. fun_ext (λ y. same x y))) (by_field-IsOrder order k)
    | inr e ↦
        let same : (x y : A)
            → compare_items rt order x y ≡ then_by (by_field order x y) (by_id order x y) =
          λ x y. compare_items-eq order x y ∙ (rw e) in
        rw (fun_ext (λ x. fun_ext (λ y. same x y)))
          (IsOrder-then_by (by_field-IsOrder order k) (by_id-IsOrder order k))
  ]

-- If the order field holds numbers and dates, or texts, with missing values allowed, then
-- `sortItems` rearranges the items so that no item comes after one that follows it, in the order
-- of the field, then of the id, both in the direction that is asked for.
pub sort_items-IsSorted :
    {A : Type 0} (rt : Runtime) ⦃en : Entity A⦄ (items : List A) (order : Option OrderBy) (k : Kind)
    → All (HasField rt k order) items
    → IsSorted (compare_items rt order) (sort_items rt items order)
      × Perm (sort_items rt items order) items
unfolding sort_items
sort_items-IsSorted rt items order k h = (
  sort-IsSorted (IsOrder-IsConsistent (compare_items-IsOrder rt order k)) items h,
  sort-perm (compare_items rt order) items,
)
