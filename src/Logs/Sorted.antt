-- ===== src/Logs/Sorted.antt =====
-- Lists in order and their parts, for the pages of log rows.
use Prim.Native.Nat.{Ordering}
use kudeploy.Prelude.{
  ℕ, zero, suc, ◌≡◌, refl, ap, ◌∙◌, Bool, true, ◌&&◌, none, some, List, [], ◌∷◌, ◌++◌, arith, All,
  filter, take, drop, Bool-cases, inl, inr, ◌≤◌, length,
}
use kudeploy.Connection.Sort.{not_after, insert, sort}
use kudeploy.Logs.{last_of}

module _ {ℓ} {A : Type ℓ} where
  -- What is in order stays as it is.
  abbrev pub IsNext : (A → A → Ordering) → A → List A → Type 0
  IsNext f x [] = Unit
  IsNext f x (y ∷ ys) = not_after (f x y) ≡ true

  abbrev pub IsChain : (A → A → Ordering) → List A → Type 0
  IsChain f [] = Unit
  IsChain f (x ∷ xs) = IsNext f x xs × IsChain f xs

  pub insert_first :
      (f : A → A → Ordering) (x : A) (xs : List A) → IsNext f x xs → insert f x xs ≡ x ∷ xs
  unfolding insert
  insert_first f x [] h = refl
  insert_first f x (y ∷ ys) h = rw h refl

  pub sort-chain : (f : A → A → Ordering) (xs : List A) → IsChain f xs → sort f xs ≡ xs
  unfolding sort
  sort-chain f [] h = refl
  sort-chain f (x ∷ xs) h = ap (insert f x) (sort-chain f xs h.1) ∙ insert_first f x xs h.0

  pub split_last : (xs : List A) (l : A) → last_of xs ≡ some l → (a : List A) × (xs ≡ a ++ (l ∷ []))
  split_last [] l h = ground arith
  split_last (x ∷ []) l h = ([], ground arith)
  split_last (x ∷ y ∷ xs) l h = let (a, e) = split_last (y ∷ xs) l h in (x ∷ a, ap (◌∷◌ x) e)

  pub filter-All : (p : A → Bool) (xs : List A) → All (λ x. p x ≡ true) xs → filter p xs ≡ xs
  unfolding filter
  filter-All p [] h = refl
  filter-All p (x ∷ xs) h = rw (h.0, filter-All p xs h.1) refl

  pub All-filter_keeps {κ} :
      (Q : A → Type κ) (p : A → Bool) (xs : List A) → All Q xs → All Q (filter p xs)
  unfolding filter
  All-filter_keeps Q p [] h = tt
  All-filter_keeps Q p (x ∷ xs) h = elim (Bool-cases (p x)) [
    | inl e ↦ rw e (h.0, All-filter_keeps Q p xs h.1)
    | inr e ↦ rw e (All-filter_keeps Q p xs h.1)
  ]

  pub All-middle {κ} :
      (Q : A → Type κ) (a : List A) (l : A) (b : List A) → All Q (a ++ (l ∷ b)) → Q l
  All-middle Q [] l b h = h.0
  All-middle Q (x ∷ a) l b h = All-middle Q a l b h.1

  -- A test that implies another, on the elements that are there, makes it needless.
  pub filter-filter :
      (p q : A → Bool) (xs : List A)
      → All (λ x. (q x && p x) ≡ q x) xs
      → filter q (filter p xs) ≡ filter q xs
  unfolding filter
  filter-filter p q [] h = refl
  filter-filter p q (x ∷ xs) h = elim (Bool-cases (p x)) [
    | inl e ↦ rw (e, filter-filter p q xs h.1) refl
    | inr e ↦ elim (Bool-cases (q x)) [
      | inl f ↦ ground (arith, h.0)
      | inr f ↦ rw (e, f, filter-filter p q xs h.1) refl
    ]
  ]

  pub All-map {κ μ} :
      {P : A → Type κ} {Q : A → Type μ} (f : (x : A) → P x → Q x) (xs : List A)
      → All P xs
      → All Q xs
  All-map f [] h = tt
  All-map f (x ∷ xs) h = (f x h.0, All-map f xs h.1)

  pub append_one : (a : List A) (l : A) (b : List A) → (a ++ (l ∷ [])) ++ b ≡ a ++ (l ∷ b)
  append_one [] l b = refl
  append_one (x ∷ a) l b = ap (◌∷◌ x) (append_one a l b)

  pub take-take : (m n : ℕ) (xs : List A) → n ≤ m → take n (take m xs) ≡ take n xs
  unfolding take
  take-take (suc m) (suc n) (x ∷ xs) h = ap (◌∷◌ x) (take-take m n xs (omega arith))
  take-take zero (suc n) (x ∷ xs) h = absurd (omega arith)
  take-take (suc m) (suc n) [] h = refl
  take-take zero (suc n) [] h = refl
  take-take m zero xs h = refl

  pub drop_all : (n : ℕ) (xs : List A) → length xs ≤ n → drop n xs ≡ []
  unfolding drop
  drop_all (suc n) (x ∷ xs) h = drop_all n xs (omega arith)
  drop_all zero (x ∷ xs) h = absurd (omega arith)
  drop_all (suc n) [] h = refl
  drop_all zero [] h = refl

  pub last_of-none : (xs : List A) → last_of xs ≡ none → xs ≡ []
  last_of-none [] h = refl
  last_of-none (x ∷ []) h = ground arith
  last_of-none (x ∷ y ∷ xs) h = let e = last_of-none (y ∷ xs) h in ground (arith, e)
