-- ===== src/Connection/Filter.antt =====
-- `matchesFilter` and `matchesFieldFilter` of the connection manager.
use Prim.Native.Nat.{Ordering}
use kudeploy.Prelude.{
  ℕ, suc, Bool, true, false, not, ◌&&◌, ◌||◌, Text, units, ◌==◌, nat_eq, list_eq, if◌then◌else◌,
}
use kudeploy.Prelude.Int.{decimal}
use kudeploy.Connection.Value.{
  Value, date, arr, obj, Items, nil, cons, Fields, end, field, strict_equal, includes_value,
  compare_values, get_value_by_path,
}

abbrev is_lt : Ordering → Bool
is_lt Ordering.lt = true
is_lt _ = false

abbrev is_gt : Ordering → Bool
is_gt Ordering.gt = true
is_gt _ = false

-- `Array.isArray(expected) && expected.includes(actual)`
abbrev is_among : Value → Value → Bool
is_among (arr vs) actual = includes_value vs actual
is_among _ actual = false

module _ (coerced_ltb : Value → Value → Bool) where
  -- the `switch` over the operators; an unknown one accepts
  unfoldable pub matches_operator : Text → Value → Value → Bool
  unfolding compare_values strict_equal includes_value units
  matches_operator operator expected actual =
      if operator == units "$eq"
      then strict_equal actual expected
      else if operator == units "$ne"
      then not (strict_equal actual expected)
      else if operator == units "$in"
      then is_among expected actual
      else if operator == units "$gt"
      then is_gt (compare_values coerced_ltb actual expected)
      else if operator == units "$gte"
      then not (is_lt (compare_values coerced_ltb actual expected))
      else if operator == units "$lt"
      then is_lt (compare_values coerced_ltb actual expected)
      else if operator == units "$lte"
      then not (is_gt (compare_values coerced_ltb actual expected))
      else true

  unfoldable pub matches_operators : Fields → Value → Bool
  unfolding matches_operator
  matches_operators end actual = true
  matches_operators (field operator expected fs) actual =
      matches_operator operator expected actual && matches_operators fs actual

  -- A `Date` is an object without entries of its own.
  unfoldable pub matches_field_filter : Value → Value → Bool
  unfolding matches_operators strict_equal
  matches_field_filter actual (obj fs) = matches_operators fs actual
  matches_field_filter actual (date t) = true
  matches_field_filter actual expected = strict_equal actual expected

  unfoldable mutual
    unfolding matches_field_filter get_value_by_path

    -- An array at the top is an object whose keys are its indices.
    pub matches_filter : Value → Value → Bool
    matches_filter (obj fs) item = matches_fields fs item
    matches_filter (arr vs) item = matches_indices vs 0 item
    matches_filter _ item = true

    pub matches_fields : Fields → Value → Bool
    matches_fields end item = true
    matches_fields (field k v fs) item = matches_entry v k item && matches_fields fs item

    -- one entry of the filter
    pub matches_entry : Value → Text → Value → Bool
    matches_entry (arr vs) k item =
        if k == units "$and"
        then every_child vs item
        else if k == units "$or"
        then some_child vs item
        else matches_field_filter (get_value_by_path item k) (arr vs)
    matches_entry v k item = matches_field_filter (get_value_by_path item k) v

    pub every_child : Items → Value → Bool
    every_child nil item = true
    every_child (cons v vs) item = matches_filter v item && every_child vs item

    pub some_child : Items → Value → Bool
    some_child nil item = false
    some_child (cons v vs) item = matches_filter v item || some_child vs item

    pub matches_indices : Items → ℕ → Value → Bool
    matches_indices nil i item = true
    matches_indices (cons v vs) i item =
        matches_field_filter (get_value_by_path item (decimal i)) v
        && matches_indices vs (suc i) item
