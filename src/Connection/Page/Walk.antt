-- ===== src/Connection/Page/Walk.antt =====
-- A client that asks for page after page, each time after the last cursor that it was given.
use mathlib.Core.List.{append_assoc, Perm}
use kudeploy.Prelude.{
  ℕ, zero, suc, ◌<◌, ◌≡◌, refl, sym, ap, ◌∙◌, Bool, true, false, Option, none, some, List, [], ◌∷◌,
  ◌++◌, map, Text, length, take, drop, take-append-drop, length-take, length-drop, ltb, arith,
  non_empty, inl, inr, Bool-cases, if◌then◌else◌,
}
use kudeploy.Prelude.Exec.{Result, ok, err}
use kudeploy.Prelude.Int.{pos}
use kudeploy.Connection.Value.{Value}
use kudeploy.Connection.Sort.Laws.{sort-perm}
use kudeploy.Connection.Page.{forward_page, paginate}
use kudeploy.Connection.Page.Laws.{
  HasDistinctIds, find_index-middle, drop-middle, split_last, take-all,
}
use kudeploy.Connection.Page.Distinct.{sorted-HasDistinctIds}
use kudeploy.Connection.Manager.{
  Runtime, Entity, FieldOptions, ConnectionArgs, Connection, Edge, find, selected, sort_items,
  edge_of, last?, to_connection, cursor_of, OrderBy, compare_items,
}

-- `new Cursor(new Cursor({ id, value }).toString()).id` is `id`, and no cursor is empty.
pub record KeepsCursors (rt : Runtime) : Type 0 where
  pub kept :
      (id : Option Text) (value : Option Value) → rt.cursor_id (rt.new_cursor id value) ≡ ok id
  pub not_empty :
      (id : Option Text) (value : Option Value) → non_empty (rt.new_cursor id value) ≡ true

abbrev pub nodes {ℓ} : {A : Type ℓ} → List (Edge A) → List A
nodes [] = []
nodes (e ∷ es) = e.node ∷ nodes es

module _ {ℓ} {A : Type ℓ} where
  visit_rest : Result (Connection A) → (Option Text → Option (List A)) → Option (List A)
  visit_rest (err e) next = none
  visit_rest (ok c) next =
      if c.has_next_page
      then elim (next c.end_cursor) [ none ↦ none | some rest ↦ some (nodes c.edges ++ rest) ]
      else some (nodes c.edges)

  -- All the nodes that the client sees; `none` if a request fails or the rounds run out.
  pub visit : ℕ → (Option Text → Result (Connection A)) → Option Text → Option (List A)
  unfolding visit_rest
  visit zero request after = none
  visit (suc fuel) request after = visit_rest (request after) (visit fuel request)

abbrev pub page_after : ConnectionArgs → ℕ → Option Text → ConnectionArgs
page_after args n after = record args {
  paging = record { first = some (pos n); last = none; after = after; before = none };
}

module _ {ℓ} {A : Type ℓ} (rt : Runtime) ⦃en : Entity A⦄ where
  nodes-map : (order : _) (xs : List A) → nodes (map (edge_of rt order) xs) ≡ xs
  unfolding edge_of
  nodes-map order [] = refl
  nodes-map order (x ∷ xs) = ap (◌∷◌ x) (nodes-map order xs)

  last?-map :
      (order : _) (init : List A) (y : A)
      → last? (map (edge_of rt order) (init ++ y ∷ [])) ≡ some (edge_of rt order y).cursor
  unfolding last?
  last?-map order [] y = refl
  last?-map order (x ∷ []) y = refl
  last?-map order (x ∷ z ∷ init) y = last?-map order (z ∷ init) y

module _ {ℓ} {A : Type ℓ} where
  cut :
      (post init : List A) (y : A) (n : ℕ)
      → take n post ≡ init ++ y ∷ []
      → post ≡ init ++ y ∷ drop n post
  cut post init y n split =
      sym (take-append-drop n post)
      ∙ ap (λ l. l ++ drop n post) split
      ∙ append_assoc init (y ∷ []) _

  middle :
      (pre : List A) (x : A) (post : List A) (n : ℕ) (init : List A) (y : A)
      → take n post ≡ init ++ y ∷ []
      → pre ++ x ∷ post ≡ (pre ++ x ∷ init) ++ y ∷ drop n post
  middle pre x post n init y split =
      ap (λ l. pre ++ x ∷ l) (cut post init y n split) ∙ sym (append_assoc pre (x ∷ init) _)

module _ {ℓ} {A : Type ℓ} (rt : Runtime) (k : KeepsCursors rt) ⦃en : Entity A⦄ where
  -- The page that follows the cursor of an item starts right behind it.
  paginate-cursor :
      (order : Option OrderBy) (n : ℕ) (pre : List A) (x : A) (post : List A)
      → HasDistinctIds en.id_of (pre ++ x ∷ post)
      → paginate en.id_of rt.cursor_id (pre ++ x ∷ post) (record {
        first = some (pos n);
        last = none;
        after = some (cursor_of rt order x);
        before = none;
      })
        ≡ ok (forward_page post (some (pos n)) true)
  unfolding paginate cursor_of
  paginate-cursor none n pre x post d = rw (
    k.not_empty (en.id_of x) none,
    k.kept (en.id_of x) none,
    find_index-middle en.id_of pre x post d,
    drop-middle pre x post,
  )
  paginate-cursor (some order) n pre x post d = rw (
    k.not_empty (en.id_of x) _,
    k.kept (en.id_of x) _,
    find_index-middle en.id_of pre x post d,
    drop-middle pre x post,
  )

  module _ (args : ConnectionArgs) (n : ℕ) (positive : 0 < n) where
    -- One request, if the next one gives all that the page leaves.
    round :
        (filtered post : List A) (after : Option Text) (has_after : Bool)
        (next : Option Text → Option (List A))
        → ((init : List A) (y : A)
            → take n post ≡ init ++ y ∷ []
            → n < length post
            → next (some (cursor_of rt args.order_by y)) ≡ some (drop n post))
        → visit_rest
            (to_connection rt
              (page_after args n after)
              filtered
              (ok (forward_page post (some (pos n)) has_after)))
            next
          ≡ some post
    unfolding visit_rest to_connection forward_page
    round filtered post after has_after next step = elim (Bool-cases (ltb n (length post))) [
      | inl more ↦
          let (init, y, e) = split_last (take n post) (ground (arith, length-take n post)) in
          let ended : last? (map (edge_of rt args.order_by) (take n post))
              ≡ some (cursor_of rt args.order_by y) =
            ap (λ l. last? (map (edge_of rt args.order_by) l)) e
            ∙ last?-map rt args.order_by init y in
          rw (more, ended, step init y e (ground arith), nodes-map, take-append-drop)
      | inr done ↦ rw (done, nodes-map) (ap some (take-all n post (ground arith)))
    ]

    module _ (metadata : List FieldOptions) (items : List A) where
      abbrev request : Option Text → Result (Connection A)
      request after = find rt (some metadata) (page_after args n after) items

      abbrev sorted : List A
      sorted = sort_items rt (selected rt metadata args items) args.order_by

      find-cursor :
          (pre : List A) (x : A) (post : List A)
          → sorted ≡ pre ++ x ∷ post
          → HasDistinctIds en.id_of (pre ++ x ∷ post)
          → request (some (cursor_of rt args.order_by x))
            ≡ to_connection rt
                (page_after args n (some (cursor_of rt args.order_by x)))
                (selected rt metadata args items)
                (ok (forward_page post (some (pos n)) true))
      unfolding find selected
      find-cursor pre x post e d = rw (e, paginate-cursor args.order_by n pre x post d)

      find-first :
          request none
          ≡ to_connection rt
              (page_after args n none)
              (selected rt metadata args items)
              (ok (forward_page sorted (some (pos n)) false))
      unfolding find selected paginate
      find-first = refl

      visit_after :
          (fuel : ℕ) (pre : List A) (x : A) (post : List A)
          → sorted ≡ pre ++ x ∷ post
          → HasDistinctIds en.id_of (pre ++ x ∷ post)
          → length post < fuel
          → visit fuel request (some (cursor_of rt args.order_by x)) ≡ some post
      unfolding visit
      visit_after zero pre x post e d h = absurd (omega arith)
      visit_after (suc fuel) pre x post e d h = rw (find-cursor pre x post e d) (
          round (selected rt metadata args items) post (some (cursor_of rt args.order_by x)) true
            (visit fuel request)
            λ init y split more.
              let whole = middle pre x post n init y split in
              visit_after fuel (pre ++ x ∷ init) y (drop n post) (e ∙ whole) (rw (← whole) d)
                (omega (arith, length-drop n post)))

      visit_all :
          HasDistinctIds en.id_of sorted → visit (suc (length sorted)) request none ≡ some sorted
      unfolding visit
      visit_all d = rw find-first (
          round (selected rt metadata args items) sorted none false (visit (length sorted) request)
            λ init y split more.
              let whole = cut sorted init y n split in
              visit_after (length sorted) init y (drop n sorted) whole (rw (← whole) d)
                (omega (arith, length-drop n sorted)))

-- A client that asks for `first: n` after the end cursor of the page before, until there is no next
-- page, sees exactly the selected items, each once, in the order of `sortItems`, if the items have
-- distinct ids, `n` is positive and a cursor gives back its id.
pub visit-find :
    {A : Type 0} (rt : Runtime) ⦃en : Entity A⦄ (metadata : List FieldOptions)
    (args : ConnectionArgs) (items : List A) (n : ℕ)
    → KeepsCursors rt
    → 0 < n
    → HasDistinctIds en.id_of items
    → (visit
          (suc (length (sort_items rt (selected rt metadata args items) args.order_by)))
          (λ after. find rt (some metadata) (page_after args n after) items)
          none
        ≡ some (sort_items rt (selected rt metadata args items) args.order_by))
      × Perm
          (sort_items rt (selected rt metadata args items) args.order_by)
          (selected rt metadata args items)
visit-find rt ⦃en⦄ metadata args items n k positive d = (
  visit_all rt k args n positive metadata items (sorted-HasDistinctIds rt metadata args items d),
  unfold sort_items in sort-perm (compare_items rt args.order_by) (selected rt metadata args items),
)
