-- ===== src/Connection/Sort.antt =====
-- `Array.prototype.sort`, which is stable: for a consistent comparator every stable sort gives the
-- list that insertion from the right gives.
pub mod Laws
pub mod Orders
pub mod Items
use Prim.Native.Nat.{Ordering}
use kudeploy.Prelude.{Bool, true, false, List, [], ◌∷◌, if◌then◌else◌}

-- `comparator(x, y) <= 0`
abbrev pub not_after : Ordering → Bool
not_after Ordering.gt = false
not_after _ = true

module _ {ℓ} {A : Type ℓ} (comparator : A → A → Ordering) where
  unfoldable pub insert : A → List A → List A
  insert x [] = x ∷ []
  insert x (y ∷ ys) =
      let later = y ∷ insert x ys in if not_after (comparator x y) then x ∷ y ∷ ys else later

  unfoldable pub sort : List A → List A
  unfolding insert
  sort [] = []
  sort (x ∷ xs) = insert x (sort xs)
