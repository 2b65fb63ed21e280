-- ===== src/Connection/Page/Laws.antt =====
-- A page as a part of the list that it is taken from, and where a cursor points.
use kudeploy.Prelude.{
  ℕ, zero, suc, ◌≤◌, ◌<◌, ◌≡◌, refl, ap, ◌≢◌, ◌↔◌, Bool, true, Option, none, some, List, [], ◌∷◌,
  ◌++◌, Text, length, take, drop, All, take-append-drop, length-take, length-drop, list_beq_iff,
  nat_eq, list_eq, arith,
}
use kudeploy.Prelude.Int.{pos}
use kudeploy.Connection.Page.{find_index, same_id, forward_page}

pub same_id_iff : (a b : Option Text) → (same_id a b ≡ true) ↔ (a ≡ b)
same_id_iff none none = ground arith
same_id_iff (some a) (some b) = ground (arith, list_beq_iff a b)
same_id_iff _ _ = ground arith

module _ {ℓ} {A : Type ℓ} where
  length-eq-zero : (xs : List A) → length xs ≡ 0 → xs ≡ []
  length-eq-zero [] h = refl
  length-eq-zero (x ∷ xs) h = absurd (omega arith)

  pub take-all : (n : ℕ) (xs : List A) → length xs ≤ n → take n xs ≡ xs
  unfolding take
  take-all (suc n) (x ∷ xs) h = ap (◌∷◌ x) (take-all n xs (omega arith))
  take-all zero (x ∷ xs) h = absurd (omega arith)
  take-all (suc n) [] h = refl
  take-all zero [] h = refl

  -- A forward page is an initial part of what follows the cursor, of at most `first` items, and
  -- there is a next page exactly when something is left.
  pub forward_page-split :
      (items : List A) (n : ℕ) (has_after : Bool)
      → (rest : List A) × ((forward_page items (some (pos n)) has_after).page_items ++ rest ≡ items)
        × (length (forward_page items (some (pos n)) has_after).page_items ≤ n)
        × (((forward_page items (some (pos n)) has_after).has_next_page ≡ true) ↔ (0 < length rest))
  unfolding forward_page
  forward_page-split items n has_after = (
    drop n items,
    take-append-drop n items,
    omega (arith, length-take n items),
    ground (arith, length-drop n items),
  )

  pub drop-middle :
      (pre : List A) (x : A) (post : List A) → drop (suc (length pre)) (pre ++ x ∷ post) ≡ post
  unfolding drop
  drop-middle [] x post = refl
  drop-middle (y ∷ pre) x post = drop-middle pre x post

  pub All-middle {κ} :
      (P : A → Type κ) (pre : List A) (x : A) (post : List A) → All P (pre ++ x ∷ post) → P x
  All-middle P [] x post (p, h) = p
  All-middle P (y ∷ pre) x post (q, h) = All-middle P pre x post h

  pub split_last : (xs : List A) → 0 < length xs → (init : List A) × (y : A) × (xs ≡ init ++ y ∷ [])
  split_last [] h = absurd (omega arith)
  split_last (x ∷ []) h = ([], x, refl)
  split_last (x ∷ y ∷ ys) h =
      let (init, z, e) = split_last (y ∷ ys) (omega arith) in (x ∷ init, z, ap (◌∷◌ x) e)

  -- No two items have the same `id`.
  module _ (id_of : A → Option Text) where
    abbrev pub HasDistinctIds : List A → Type 0
    HasDistinctIds [] = Unit
    HasDistinctIds (x ∷ xs) = All (λ y. id_of x ≢ id_of y) xs × HasDistinctIds xs

    pub find_index-middle :
        (pre : List A) (x : A) (post : List A)
        → HasDistinctIds (pre ++ x ∷ post)
        → find_index (λ item. same_id (id_of item) (id_of x)) (pre ++ x ∷ post) ≡ some (length pre)
    unfolding find_index
    find_index-middle [] x post d = rw ((same_id_iff (id_of x) (id_of x)).1 refl)
    find_index-middle (y ∷ pre) x post (h, d) =
        let distinct = All-middle (λ z. id_of y ≢ id_of z) pre x post h in
        ground (arith, same_id_iff (id_of y) (id_of x), find_index-middle pre x post d)
