-- ===== src/Connection/Manager.antt =====
-- `find` of the connection manager: search, filter, order, page and edges.
use Prim.Native.Nat.{Ordering}
use kudeploy.Prelude.{
  ℕ, Bool, true, false, not, ◌||◌, Option, none, some, List, [], ◌∷◌, map, Text, units, ◌==◌,
  nat_eq, list_eq, length, filter, any, trim, non_empty, or_else, if◌then◌else◌,
}
use kudeploy.Prelude.Exec.{Result, ok, err, plain_error}
use kudeploy.Prelude.Int.{ℤ}
use kudeploy.Connection.Value.{
  Value, undefined, str, get_value_by_path, compare_values, searchable_value_to_string, includes,
}
use kudeploy.Connection.Filter.{matches_filter}
use kudeploy.Connection.Sort.{sort}
use kudeploy.Connection.Page.{Paging, PageOf, paginate}

-- What the language and @nest-boot/graphql-connection supply: `toLowerCase`, `toISOString`, `<` on
-- mixed operands, `new Cursor({ id, value }).toString()` and `new Cursor(text).id`.
pub record Runtime : Type 0 where
  pub lower_case : Text → Text
  pub to_iso_string : Option ℤ → Text
  pub coerced_ltb : Value → Value → Bool
  pub new_cursor : Option Text → Option Value → Text
  pub cursor_id : Text → Result (Option Text)

-- An entity as the object that the manager reads, and its `id`.
pub record Entity {ℓ} (A : Type ℓ) : Type ℓ where
  pub as_value : A → Value
  pub id_of : A → Option Text

pub record FieldOptions : Type 0 where
  pub field : Text
  pub searchable : Bool
  pub replacement : Option Text

pub data OrderDirection : Type 0 where
  asc desc : OrderDirection

pub record OrderBy : Type 0 where
  pub field : Text
  pub direction : OrderDirection

pub record ConnectionArgs : Type 0 where
  pub query : Option Text
  pub filter : Value
  pub order_by : Option OrderBy
  pub paging : Paging

pub record Edge {ℓ} (A : Type ℓ) : Type ℓ where
  pub node : A
  pub cursor : Text

pub record Connection {ℓ} (A : Type ℓ) : Type ℓ where
  pub total_count : ℕ
  pub edges : List (Edge A)
  pub start_cursor : Option Text
  pub end_cursor : Option Text
  pub has_next_page : Bool
  pub has_previous_page : Bool

abbrev pub id_value : Option Text → Value
id_value none = undefined
id_value (some id) = str id

-- `comparison * directionFactor`
abbrev pub directed : OrderDirection → Ordering → Ordering
directed asc o = o
directed desc Ordering.lt = Ordering.gt
directed desc Ordering.eq = Ordering.eq
directed desc Ordering.gt = Ordering.lt

abbrev pub order_field : Option OrderBy → Text
order_field none = units "id"
order_field (some order) = order.field

abbrev pub order_direction : Option OrderBy → OrderDirection
order_direction none = asc
order_direction (some order) = order.direction

abbrev pub is_eq : Ordering → Bool
is_eq Ordering.eq = true
is_eq _ = false

unfoldable pub searchable_fields : List FieldOptions → List Text
searchable_fields [] = []
searchable_fields (f ∷ fs) =
    let rest = searchable_fields fs in
    if f.searchable then or_else f.replacement f.field ∷ rest else rest

module _ {ℓ} {A : Type ℓ} where
  unfoldable pub head? : List (Edge A) → Option Text
  head? [] = none
  head? (e ∷ es) = some e.cursor

  unfoldable pub last? : List (Edge A) → Option Text
  last? [] = none
  last? (e ∷ []) = some e.cursor
  last? (e ∷ f ∷ es) = last? (f ∷ es)

module _ {ℓ} {A : Type ℓ} (rt : Runtime) ⦃en : Entity A⦄ where
  unfoldable pub found_by : Text → List Text → A → Bool
  found_by query fields item =
      any
        (λ field.
          includes
            (rt.lower_case (
              searchable_value_to_string rt.to_iso_string
                (get_value_by_path (en.as_value item) field)))
            query)
        fields

  apply_fields : List A → Text → List Text → List A
  unfolding found_by
  apply_fields items query [] = items
  apply_fields items query (f ∷ fs) = filter (found_by query (f ∷ fs)) items

  apply_text : List A → Text → List FieldOptions → List A
  unfolding apply_fields searchable_fields
  apply_text items query metadata =
      if non_empty query then apply_fields items query (searchable_fields metadata) else items

  unfoldable pub apply_query : List A → Option Text → List FieldOptions → List A
  unfolding apply_text
  apply_query items none metadata = items
  apply_query items (some query) metadata = apply_text items (rt.lower_case (trim query)) metadata

  -- A filter that is no object accepts every item, so `if (!filter)` needs no case of its own.
  unfoldable pub apply_filter : List A → Value → List A
  apply_filter items query_filter =
      filter (λ item. matches_filter rt.coerced_ltb query_filter (en.as_value item)) items

  -- the comparator that `sortItems` passes
  unfoldable pub compare_items : Option OrderBy → A → A → Ordering
  compare_items order left right =
      let field_comparison = directed (order_direction order) (
        compare_values rt.coerced_ltb (get_value_by_path (en.as_value left) (order_field order))
          (get_value_by_path (en.as_value right) (order_field order))) in
      if not (is_eq field_comparison) || order_field order == units "id"
      then field_comparison
      else directed (order_direction order)
          (compare_values rt.coerced_ltb (id_value (en.id_of left)) (id_value (en.id_of right)))

  unfoldable pub sort_items : List A → Option OrderBy → List A
  sort_items items order = sort (compare_items order) items

  unfoldable pub cursor_of : Option OrderBy → A → Text
  cursor_of none node = rt.new_cursor (en.id_of node) none
  cursor_of (some order) node =
      rt.new_cursor (en.id_of node) (some (get_value_by_path (en.as_value node) order.field))

  unfoldable pub edge_of : Option OrderBy → A → Edge A
  unfolding cursor_of
  edge_of order node = record { node = node; cursor = cursor_of order node }

  unfoldable pub to_connection : ConnectionArgs → List A → Result (PageOf A) → Result (Connection A)
  unfolding edge_of head? last?
  to_connection args items (err e) = err e
  to_connection args items (ok page) =
      let edges = map (edge_of args.order_by) page.page_items in
      ok (record {
        total_count = length items;
        edges = edges;
        start_cursor = head? edges;
        end_cursor = last? edges;
        has_next_page = page.has_next_page;
        has_previous_page = page.has_previous_page;
      })

  -- what `find` keeps of the items before it pages them
  unfoldable pub selected : List FieldOptions → ConnectionArgs → List A → List A
  unfolding apply_query apply_filter
  selected metadata args items = apply_filter (apply_query items args.query metadata) args.filter

  unfoldable pub find_from : List FieldOptions → ConnectionArgs → List A → Result (Connection A)
  unfolding to_connection sort_items paginate selected
  find_from metadata args items =
      let filtered_items = selected metadata args items in
      let sorted_items = sort_items filtered_items args.order_by in
      to_connection args filtered_items (paginate en.id_of rt.cursor_id sorted_items args.paging)

  -- `metadata` is what `Reflect.getMetadata` finds on the connection class.
  unfoldable pub find : Option (List FieldOptions) → ConnectionArgs → List A → Result (Connection A)
  unfolding find_from
  find none args items = err (plain_error (units "Connection metadata not found"))
  find (some metadata) args items = find_from metadata args items
