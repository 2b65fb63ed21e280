-- ===== src/Connection/Sort/Laws.antt =====
-- A sorted array is a rearrangement of the array, in the comparator's order.
use Prim.Native.Nat.{Ordering}
use mathlib.Core.List.{Perm}
use mathlib.Core.List.Perm
use kudeploy.Prelude.{◌≡◌, true, false, List, [], ◌∷◌, inl, inr, Bool-cases, All}
use kudeploy.Connection.Sort.{not_after, insert, sort}

module _ {ℓ} {A : Type ℓ} (comparator : A → A → Ordering) where
  insert-perm : (x : A) (xs : List A) → Perm (insert comparator x xs) (x ∷ xs)
  unfolding insert
  insert-perm x [] = Perm.refl (x ∷ [])
  insert-perm x (y ∷ ys) = elim (Bool-cases (not_after (comparator x y))) [
    | inl e ↦ rw e (Perm.refl (x ∷ y ∷ ys))
    | inr e ↦ rw e (Perm.trans (Perm.cons y (insert-perm x ys)) (Perm.swap x y ys))
  ]

  pub sort-perm : (xs : List A) → Perm (sort comparator xs) xs
  unfolding sort
  sort-perm [] = Perm.refl []
  sort-perm (x ∷ xs) = Perm.trans (insert-perm x (sort comparator xs)) (Perm.cons x (sort-perm xs))

  -- Each element is not after any that follows it.
  abbrev pub IsSorted : List A → Type ℓ
  IsSorted [] = Unit
  IsSorted (x ∷ xs) = All (λ y. not_after (comparator x y) ≡ true) xs × IsSorted xs

  pub All-insert {κ} :
      (Q : A → Type κ) (x : A) (xs : List A) → Q x → All Q xs → All Q (insert comparator x xs)
  unfolding insert
  All-insert Q x [] q h = (q, tt)
  All-insert Q x (y ∷ ys) q (p, h) = elim (Bool-cases (not_after (comparator x y))) [
    | inl e ↦ rw e (q, (p, h))
    | inr e ↦ rw e (p, All-insert Q x ys q h)
  ]

  pub All-sort {κ} : (Q : A → Type κ) (xs : List A) → All Q xs → All Q (sort comparator xs)
  unfolding sort
  All-sort Q [] h = tt
  All-sort Q (x ∷ xs) (q, h) = All-insert Q x (sort comparator xs) q (All-sort Q xs h)

-- A comparator that orders the values with the property `P` one way or the other, and transitively.
pub record IsConsistent {ℓ κ} {A : Type ℓ} (P : A → Type κ) (comparator : A → A → Ordering)
    : Type (ℓ ⊔ κ) where
  pub total :
      (x y : A) → P x → P y → not_after (comparator x y) ≡ false → not_after (comparator y x) ≡ true
  pub trans :
      (x y z : A)
      → P x
      → P y
      → P z
      → not_after (comparator x y) ≡ true
      → not_after (comparator y z) ≡ true
      → not_after (comparator x z) ≡ true

module _ {ℓ κ} {A : Type ℓ} {P : A → Type κ} {comparator : A → A → Ordering}
    (c : IsConsistent P comparator) where
  below :
      (x y : A) (ys : List A)
      → P x
      → P y
      → All P ys
      → not_after (comparator x y) ≡ true
      → All (λ z. not_after (comparator y z) ≡ true) ys
      → All (λ z. not_after (comparator x z) ≡ true) ys
  below x y [] px py ps e h = tt
  below x y (z ∷ zs) px py (pz, ps) e (f, h) =
      (c.trans x y z px py pz e f, below x y zs px py ps e h)

  insert-IsSorted :
      (x : A) (xs : List A)
      → P x
      → All P xs
      → IsSorted comparator xs
      → IsSorted comparator (insert comparator x xs)
  unfolding insert
  insert-IsSorted x [] p ps s = (tt, tt)
  insert-IsSorted x (y ∷ ys) p (q, ps) (h, s) = elim (Bool-cases (not_after (comparator x y))) [
    | inl e ↦ rw e ((e, below x y ys p q ps e h), (h, s))
    | inr e ↦ rw e (
      All-insert comparator (λ z. not_after (comparator y z) ≡ true) x ys (c.total x y p q e) h,
      insert-IsSorted x ys p ps s,
    )
  ]

  pub sort-IsSorted : (xs : List A) → All P xs → IsSorted comparator (sort comparator xs)
  unfolding sort
  sort-IsSorted [] ps = tt
  sort-IsSorted (x ∷ xs) (p, ps) =
      insert-IsSorted x (sort comparator xs) p (All-sort comparator P xs ps) (sort-IsSorted xs ps)
