-- ===== src/Connection/Examples.antt =====
-- Runs of the connection manager, and its theorems at concrete lists.
use mathlib.Core.List.{Perm}
use kudeploy.Prelude.{
  ℕ, suc, ◌≤◌, ◌<◌, ◌++◌, ◌↔◌, non_empty, filter, ◌≡◌, refl, true, false, Option, none, some, List,
  [], ◌∷◌, Text, units, length, arith, list_beq,
}
use kudeploy.Prelude.Exec.{Result, ok}
use kudeploy.Prelude.Int.{pos}
use kudeploy.Connection.Value.{
  Value, undefined, str, obj, end, field, get_value_by_path, compare_values,
}
use kudeploy.Connection.Sort.Laws.{IsSorted}
use kudeploy.Connection.Sort.Items.{textual, sort_items-IsSorted}
use kudeploy.Connection.Page.{forward_page}
use kudeploy.Connection.Page.Laws.{forward_page-split, HasDistinctIds}
use kudeploy.Connection.Page.Walk.{KeepsCursors, visit, page_after, visit-find}
use kudeploy.Connection.Manager.{
  Runtime, Entity, desc, ConnectionArgs, find, selected, sort_items, compare_items, apply_query,
  apply_filter,
}
use kudeploy.Connection.Filter.{matches_filter}
use kudeploy.Connection.Sort.{sort}

abbrev pub encode : Option Text → Option Value → Text
encode none value = 0 ∷ []
encode (some id) value = 1 ∷ id

abbrev pub decode : Text → Result (Option Text)
decode (suc n ∷ id) = ok (some id)
decode _ = ok none

-- Cursors as marked ids; texts of this program that are already in lower case.
abbrev pub plain_runtime : Runtime
plain_runtime = record {
  lower_case = λ s. s;
  to_iso_string = λ t. [];
  coerced_ltb = λ a b. false;
  new_cursor = encode;
  cursor_id = decode;
}

decode-encode : (id : Option Text) (value : Option Value) → decode (encode id value) ≡ ok id
decode-encode none value = refl
decode-encode (some id) value = refl

encode-not_empty : (id : Option Text) (value : Option Value) → non_empty (encode id value) ≡ true
unfolding non_empty
encode-not_empty none value = refl
encode-not_empty (some id) value = refl

plain_runtime-KeepsCursors : KeepsCursors plain_runtime
plain_runtime-KeepsCursors = record { kept = decode-encode; not_empty = encode-not_empty }

record Node : Type 0 where
  id : Text
  name : Text

instance abbrev node_entity : Entity Node
node_entity = record {
  as_value = λ n. obj (field (units "id") (str n.id) (field (units "name") (str n.name) end));
  id_of = λ n. some n.id;
}

abbrev node : ℕ → Text → Node
node i name = record { id = i ∷ []; name = name }

abbrev three_nodes : List Node
three_nodes = node 7 (units "web") ∷ node 8 (units "api") ∷ node 9 (units "db") ∷ []

abbrev pub by_name : ConnectionArgs
by_name = record {
  query = none;
  filter = undefined;
  order_by = some (record { field = units "name"; direction = desc });
  paging = record { first = none; last = none; after = none; before = none };
}

three_nodes-HasDistinctIds : HasDistinctIds node_entity.id_of three_nodes
three_nodes-HasDistinctIds = ((cc, (cc, tt)), ((cc, tt), (tt, tt)))

visit-find_example :
    (visit
        (suc (
          length (
            sort_items plain_runtime
              (selected plain_runtime [] by_name three_nodes)
              by_name.order_by)))
        (λ after. find plain_runtime (some []) (page_after by_name 2 after) three_nodes)
        none
      ≡ some (
          sort_items plain_runtime
            (selected plain_runtime [] by_name three_nodes)
            by_name.order_by))
    × Perm
        (sort_items plain_runtime (selected plain_runtime [] by_name three_nodes) by_name.order_by)
        (selected plain_runtime [] by_name three_nodes)
visit-find_example =
    visit-find plain_runtime [] by_name three_nodes 2 plain_runtime-KeepsCursors (omega arith)
      three_nodes-HasDistinctIds

-- The order of the names, last first.
sorted_by_name :
    sort_items plain_runtime (selected plain_runtime [] by_name three_nodes) by_name.order_by
    ≡ node 7 (units "web") ∷ node 9 (units "db") ∷ node 8 (units "api") ∷ []
unfolding sort_items selected apply_query apply_filter filter matches_filter sort compare_items
    compare_values get_value_by_path list_beq units
sorted_by_name = refl

sort_items-IsSorted_example :
    IsSorted
      (compare_items plain_runtime by_name.order_by)
      (sort_items plain_runtime three_nodes by_name.order_by)
    × Perm (sort_items plain_runtime three_nodes by_name.order_by) three_nodes
unfolding get_value_by_path list_beq units
sort_items-IsSorted_example =
    sort_items-IsSorted plain_runtime three_nodes by_name.order_by textual (tt, (tt, (tt, tt)))

abbrev numbers : List ℕ
numbers = 1 ∷ 2 ∷ 3 ∷ []

forward_page-split_example :
    (rest : List ℕ) × ((forward_page numbers (some (pos 2)) true).page_items ++ rest ≡ numbers)
    × (length (forward_page numbers (some (pos 2)) true).page_items ≤ 2)
    × (((forward_page numbers (some (pos 2)) true).has_next_page ≡ true) ↔ (0 < length rest))
forward_page-split_example = forward_page-split numbers 2 true
