-- ===== src/Connection/Page/Distinct.antt =====
-- Searching, filtering and sorting keep the ids of the items distinct.
use Prim.Native.Nat.{Ordering}
use kudeploy.Prelude.{
  sym, ◌≢◌, Bool, Option, none, some, List, [], ◌∷◌, Text, All, non_empty, trim, List-cases, inl,
  inr, Bool-cases, filter,
}
use kudeploy.Connection.Sort.{sort, insert, not_after}
use kudeploy.Connection.Sort.Laws.{All-insert, All-sort}
use kudeploy.Connection.Page.Laws.{HasDistinctIds}
use kudeploy.Connection.Manager.{
  Runtime, Entity, FieldOptions, ConnectionArgs, selected, sort_items, apply_query, apply_filter,
  searchable_fields,
}

module _ {ℓ} {A : Type ℓ} (id_of : A → Option Text) where
  All-filter_of {κ} : (Q : A → Type κ) (p : A → Bool) (xs : List A) → All Q xs → All Q (filter p xs)
  unfolding filter
  All-filter_of Q p [] h = tt
  All-filter_of Q p (x ∷ xs) (q, h) = elim (Bool-cases (p x)) [
    | inl e ↦ rw e (q, All-filter_of Q p xs h)
    | inr e ↦ rw e (All-filter_of Q p xs h)
  ]

  filter-HasDistinctIds :
      (p : A → Bool) (xs : List A) → HasDistinctIds id_of xs → HasDistinctIds id_of (filter p xs)
  unfolding filter
  filter-HasDistinctIds p [] d = tt
  filter-HasDistinctIds p (x ∷ xs) (h, d) = elim (Bool-cases (p x)) [
    | inl e ↦ rw e (All-filter_of (λ y. id_of x ≢ id_of y) p xs h, filter-HasDistinctIds p xs d)
    | inr e ↦ rw e (filter-HasDistinctIds p xs d)
  ]

  module _ (comparator : A → A → Ordering) where
    insert-HasDistinctIds :
        (x : A) (xs : List A)
        → All (λ y. id_of x ≢ id_of y) xs
        → HasDistinctIds id_of xs
        → HasDistinctIds id_of (insert comparator x xs)
    unfolding insert
    insert-HasDistinctIds x [] h d = (tt, tt)
    insert-HasDistinctIds x (y ∷ ys) (p, h) (g, d) =
        elim (Bool-cases (not_after (comparator x y))) [
          | inl e ↦ rw e ((p, h), (g, d))
          | inr e ↦ rw e (
            All-insert comparator (λ z. id_of y ≢ id_of z) x ys (λ q. p (sym q)) g,
            insert-HasDistinctIds x ys h d,
          )
        ]

    sort-HasDistinctIds :
        (xs : List A) → HasDistinctIds id_of xs → HasDistinctIds id_of (sort comparator xs)
    unfolding sort
    sort-HasDistinctIds [] d = tt
    sort-HasDistinctIds (x ∷ xs) (h, d) =
        insert-HasDistinctIds x (sort comparator xs)
          (All-sort comparator (λ y. id_of x ≢ id_of y) xs h) (sort-HasDistinctIds xs d)

module _ {ℓ} {A : Type ℓ} (rt : Runtime) ⦃en : Entity A⦄ where
  -- Searching keeps the items or filters them.
  apply_query-HasDistinctIds :
      (items : List A) (query : Option Text) (metadata : List FieldOptions)
      → HasDistinctIds en.id_of items
      → HasDistinctIds en.id_of (apply_query rt items query metadata)
  unfolding apply_query
  apply_query-HasDistinctIds items none metadata d = d
  apply_query-HasDistinctIds items (some query) metadata d =
      elim (Bool-cases (non_empty (rt.lower_case (trim query)))) [
        | inl e ↦ elim (List-cases (searchable_fields metadata)) [
          | inl nothing ↦ rw (e, nothing) d
          | inr (f, fs, found) ↦ rw (e, found) (filter-HasDistinctIds en.id_of _ items d)
        ]
        | inr e ↦ rw e d
      ]

  pub sorted-HasDistinctIds :
      (metadata : List FieldOptions) (args : ConnectionArgs) (items : List A)
      → HasDistinctIds en.id_of items
      → HasDistinctIds en.id_of (sort_items rt (selected rt metadata args items) args.order_by)
  unfolding sort_items selected apply_filter
  sorted-HasDistinctIds metadata args items d =
      sort-HasDistinctIds en.id_of _ _ (
        filter-HasDistinctIds en.id_of _ _ (apply_query-HasDistinctIds items args.query metadata d))
