-- ===== src/Connection/Page.antt =====
-- `paginate` and `cursorIndex` of the connection manager. The cursor is a class of
-- @nest-boot/graphql-connection: a parameter.
pub mod Laws
pub mod Distinct
pub mod Walk
use kudeploy.Prelude.{
  ℕ, suc, ◌+◌, ◌-◌, Bool, true, false, ◌&&◌, ◌||◌, Option, none, some, List, [], ◌∷◌, Text, units,
  ltb, length, take, drop, is_some, or_else, non_empty, if◌then◌else◌, ◌==◌, nat_eq, list_eq,
}
use kudeploy.Prelude.Exec.{Result, ok, err, plain_error}
use kudeploy.Prelude.Int.{ℤ, pos, negsuc}

pub record Paging : Type 0 where
  pub first : Option ℤ
  pub last : Option ℤ
  pub after : Option Text
  pub before : Option Text

pub record PageOf {ℓ} (A : Type ℓ) : Type ℓ where
  pub page_items : List A
  pub has_next_page : Bool
  pub has_previous_page : Bool

abbrev pub next_index : Option ℕ → Option ℕ
next_index none = none
next_index (some i) = some (suc i)

module _ {ℓ} {A : Type ℓ} where
  -- `items.slice(0, limit)`: a negative end counts from the back
  unfoldable pub slice_to : List A → ℤ → List A
  slice_to items (pos n) = take n items
  slice_to items (negsuc n) = take (length items - suc n) items

  -- `items.slice(Math.max(items.length - limit, 0))`
  unfoldable pub slice_last : List A → ℤ → List A
  slice_last items (pos n) = drop (length items - n) items
  slice_last items (negsuc n) = drop (length items + suc n) items

  -- `items.length > limit`
  unfoldable pub exceeds : List A → ℤ → Bool
  exceeds items (pos n) = ltb n (length items)
  exceeds items (negsuc n) = true

  -- `items.findIndex(p)`, with `none` for -1
  unfoldable pub find_index : (A → Bool) → List A → Option ℕ
  find_index p [] = none
  find_index p (x ∷ xs) = let later = next_index (find_index p xs) in if p x then some 0 else later

  unfoldable pub items_before : List A → Option ℕ → List A
  items_before items none = items
  items_before items (some i) = take i items

  unfoldable pub items_after : List A → Option ℕ → List A
  items_after items none = items
  items_after items (some i) = drop (suc i) items

  unfoldable pub backward_page : List A → Option ℤ → Bool → PageOf A
  unfolding slice_last exceeds
  backward_page before_items last has_before =
      let limit = or_else last (pos (length before_items)) in
      record {
        page_items = slice_last before_items limit;
        has_next_page = has_before;
        has_previous_page = exceeds before_items limit;
      }

  unfoldable pub forward_page : List A → Option ℤ → Bool → PageOf A
  unfolding slice_to exceeds
  forward_page after_items first has_after =
      let limit = or_else first (pos (length after_items)) in
      record {
        page_items = slice_to after_items limit;
        has_next_page = exceeds after_items limit;
        has_previous_page = has_after;
      }

-- `item.id === cursor.id`, where both may be `undefined`
abbrev pub same_id : Option Text → Option Text → Bool
same_id none none = true
same_id (some a) (some b) = a == b
same_id _ _ = false

-- `new Cursor(value).id`, which throws at what is no cursor.
module _ {ℓ} {A : Type ℓ} (id_of : A → Option Text) (cursor_id : Text → Result (Option Text)) where
  unfoldable pub index_of_id : List A → Result (Option Text) → Result (Option ℕ)
  unfolding find_index
  index_of_id items (err e) = err e
  index_of_id items (ok id) = ok (find_index (λ item. same_id (id_of item) id) items)

  unfoldable pub cursor_index : List A → Option Text → Result (Option ℕ)
  unfolding index_of_id non_empty
  cursor_index items none = ok none
  cursor_index items (some value) =
      if non_empty value then index_of_id items (cursor_id value) else ok none

  backward : List A → Paging → Result (Option ℕ) → Result (PageOf A)
  unfolding backward_page items_before
  backward items args (err e) = err e
  backward items args (ok i) =
      ok (backward_page (items_before items i) args.last (is_some args.before))

  forward : List A → Paging → Result (Option ℕ) → Result (PageOf A)
  unfolding forward_page items_after
  forward items args (err e) = err e
  forward items args (ok i) =
      ok (forward_page (items_after items i) args.first (is_some args.after))

  unfoldable pub paginate : List A → Paging → Result (PageOf A)
  unfolding backward forward cursor_index
  paginate items args =
      let is_forward_paging = is_some args.first || is_some args.after in
      let is_backward_paging = is_some args.last || is_some args.before in
      if is_forward_paging && is_backward_paging
      then err (plain_error (units "paging must use either first/after or last/before"))
      else if is_backward_paging
      then backward items args (cursor_index items args.before)
      else forward items args (cursor_index items args.after)
