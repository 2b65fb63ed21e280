-- ===== src/Logs/Order/Laws.antt =====
-- The laws of the comparator of log rows (service-log-order.ts).
use Prim.Native.Nat.{Ordering}
use kudeploy.Prelude.{
  ◌≡◌, refl, sym, ap, ◌∙◌, true, Option, none, some, Text, is_some, or_else, arith,
}
use kudeploy.Prelude.Int.{ℤ, pos, negsuc, int_ltb}
use kudeploy.Connection.Sort.{not_after}
use kudeploy.Connection.Sort.Orders.{
  IsOrder, flipped, then_by, by_test, Always, IsOrder-then_by, by_test-IsOrder, int_ltb-IsStrict,
}
use kudeploy.Kubernetes.Dates.{Date}
use kudeploy.Logs.Order.{
  ServiceLogCursorPayload, to_big_int, int_order, compare_numbers, compare_times,
  raw_time_to_epoch_nanoseconds, compare_sort_values, compare_raw_times, compare_sort_tuples,
}

module _ {ℓ κ} {A : Type ℓ} {P : A → Type κ} where
  -- What agrees with an order is one.
  IsOrder-agrees :
      {f g : A → A → Ordering} → ((x y : A) → P x → P y → f x y ≡ g x y) → IsOrder P g → IsOrder P f
  IsOrder-agrees {f} {g} e o = record {
    flip = λ x y p q. e y x q p ∙ o.flip x y p q ∙ ap flipped (sym (e x y p q));
    trans = λ x y z p q r h k.
        ap not_after (e x z p r)
        ∙ o.trans x y z p q r (ap not_after (sym (e x y p q)) ∙ h)
            (ap not_after (sym (e y z q r)) ∙ k);
  }

module _ {ℓ κ μ ν} {A : Type ℓ} {B : Type κ} {P : A → Type μ} {Q : B → Type ν} where
  pub IsOrder-on :
      {f : B → B → Ordering} (h : A → B)
      → ((x : A) → P x → Q (h x))
      → IsOrder Q f
      → IsOrder P (λ x y. f (h x) (h y))
  IsOrder-on h q o = record {
    flip = λ x y px py. o.flip (h x) (h y) (q x px) (q y py);
    trans = λ x y z px py pz. o.trans (h x) (h y) (h z) (q x px) (q y py) (q z pz);
  }

module _ {ℓ κ} {A : Type ℓ} {P : A → Type κ} {f : A → A → Ordering} (o : IsOrder P f) where
  pub IsOrder-self : (x : A) → P x → f x x ≡ Ordering.eq
  IsOrder-self x p = ground (arith, o.flip x x p p)

  pub IsOrder-gt : (x y : A) → P x → P y → f x y ≡ Ordering.lt → f y x ≡ Ordering.gt
  IsOrder-gt x y p q e = o.flip x y p q ∙ ap flipped e

  pub IsOrder-lt_trans :
      (x y z : A)
      → P x
      → P y
      → P z
      → f x y ≡ Ordering.lt
      → f y z ≡ Ordering.lt
      → f x z ≡ Ordering.lt
  IsOrder-lt_trans x y z p q r e h = ground (
    arith,
    o.flip x y p q,
    o.flip y z q r,
    o.flip x z p r,
    o.trans x y z p q r,
    o.trans z x y r p q,
  )

int_order-by_test : (a b : ℤ) → int_order a b ≡ by_test int_ltb a b
int_order-by_test (pos a) (pos b) = ground arith
int_order-by_test (negsuc a) (negsuc b) = ground arith
int_order-by_test (pos a) (negsuc b) = refl
int_order-by_test (negsuc a) (pos b) = refl

module _ (parse_date : Text → Date) (locale_compare : Text → Text → Ordering)
    (locale : IsOrder (Always {A = Text}) locale_compare) where
  int_order-IsOrder : IsOrder (Always {A = ℤ}) int_order
  int_order-IsOrder =
      IsOrder-agrees (λ a b p q. int_order-by_test a b) (by_test-IsOrder int_ltb-IsStrict)

  abbrev IsInteger : Text → Type 0
  IsInteger s = is_some (to_big_int s) ≡ true

  abbrev IsReadable : Text → Type 0
  IsReadable t = is_some (raw_time_to_epoch_nanoseconds parse_date t) ≡ true

  abbrev number : Option ℤ → ℤ
  number n = or_else n (pos 0)

  compare_numbers-there :
      (m n : Option ℤ) (o : Ordering)
      → is_some m ≡ true
      → is_some n ≡ true
      → compare_numbers m n o ≡ int_order (number m) (number n)
  compare_numbers-there (some a) (some b) o p q = refl
  compare_numbers-there none n o p q = ground arith
  compare_numbers-there (some a) none o p q = ground arith

  compare_times-there :
      (m n : Option ℤ) (o : Ordering)
      → is_some m ≡ true
      → is_some n ≡ true
      → compare_times m n o ≡ then_by (int_order (number m) (number n)) o
  compare_times-there (some a) (some b) o p q = refl
  compare_times-there none n o p q = ground arith
  compare_times-there (some a) none o p q = ground arith

  compare_sort_values-IsOrder : IsOrder IsInteger (compare_sort_values parse_date locale_compare)
  unfolding compare_sort_values
  compare_sort_values-IsOrder =
      IsOrder-agrees
        (λ s t p q. compare_numbers-there (to_big_int s) (to_big_int t) (locale_compare s t) p q)
        (IsOrder-on (λ s. number (to_big_int s)) (λ s p. tt) int_order-IsOrder)

  compare_raw_times-IsOrder : IsOrder IsReadable (compare_raw_times parse_date locale_compare)
  unfolding compare_raw_times
  compare_raw_times-IsOrder =
      IsOrder-agrees
        (λ s t p q.
          compare_times-there (raw_time_to_epoch_nanoseconds parse_date s)
            (raw_time_to_epoch_nanoseconds parse_date t) (locale_compare s t) p q)
        (IsOrder-then_by
          (IsOrder-on (λ s. number (raw_time_to_epoch_nanoseconds parse_date s)) (λ s p. tt)
            int_order-IsOrder)
          (IsOrder-on (λ s. s) (λ s p. tt) locale))

  -- a readable time and integer hashes
  abbrev pub IsComparable : ServiceLogCursorPayload → Type 0
  IsComparable c = IsReadable c.t × IsInteger c.sh × IsInteger c.mh

  -- If comparing texts is a total preorder, then comparing the cursors of log rows is one, on cursors
  -- with a readable time and integer hashes.
  pub compare_sort_tuples-IsOrder :
      IsOrder IsComparable (compare_sort_tuples parse_date locale_compare)
  unfolding compare_sort_tuples
  compare_sort_tuples-IsOrder =
      IsOrder-then_by (IsOrder-on (λ c. c.t) (λ c p. p.0) compare_raw_times-IsOrder) (
        IsOrder-then_by (IsOrder-on (λ c. c.sh) (λ c p. p.1) compare_sort_values-IsOrder) (
          IsOrder-then_by (IsOrder-on (λ c. c.mh) (λ c p. p.2) compare_sort_values-IsOrder) (
            IsOrder-then_by (IsOrder-on (λ c. c.sid) (λ c p. tt) locale)
              (IsOrder-on (λ c. c.id) (λ c p. tt) locale))))
