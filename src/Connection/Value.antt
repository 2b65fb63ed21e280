-- ===== src/Connection/Value.antt =====
-- The values that `unknown` stands for in the connection manager, and what it does to them.
-- Numbers are integers, with NaN beside them; what an object inherits is left out.
use Prim.Native.Nat.{Ordering}
use kudeploy.Prelude.{
  ℕ, suc, Bool, true, false, ◌&&◌, ◌||◌, Option, none, some, List, [], ◌∷◌, ◌++◌, Text, units, ltb,
  nat_beq, ◌==◌, nat_eq, list_eq, if◌then◌else◌, starts_with,
}
use kudeploy.Prelude.Int.{pos, ℤ, int_ltb, int_beq, decimal, int_text}

mutual
  pub data Value : Type 0 where
    undefined null nan : Value
    bool : Bool → Value
    num : ℤ → Value
    str : Text → Value
    -- a `Date` by its `getTime`, `none` where that is NaN
    date : Option ℤ → Value
    arr : Items → Value
    obj : Fields → Value

  pub data Items : Type 0 where
    nil : Items
    cons : Value → Items → Items

  pub data Fields : Type 0 where
    end : Fields
    field : Text → Value → Fields → Fields

-- `current[part]`, where `undefined` stands for a missing member too.
unfoldable pub member : Text → Fields → Value
member part end = undefined
member part (field k v fs) = if k == part then v else member part fs

unfoldable pub element : Text → ℕ → Items → Value
element part i nil = undefined
element part i (cons v vs) = if decimal i == part then v else element part (suc i) vs

unfoldable pub items_length : Items → ℕ
items_length nil = 0
items_length (cons v vs) = suc (items_length vs)

-- one round of the `reduce` of `getValueByPath`
unfoldable pub step_into : Value → Text → Value
unfolding member element items_length units
step_into (obj fs) part = member part fs
step_into (arr vs) part =
    if part == units "length" then num (pos (items_length vs)) else element part 0 vs
step_into _ part = undefined

-- `path.split('.')`
unfoldable pub split_dots : Text → Text → List Text
split_dots current [] = current ∷ []
split_dots current (c ∷ rest) =
    let closed = current ∷ split_dots [] rest in
    let longer = split_dots (current ++ c ∷ []) rest in if c == b'.' then closed else longer

unfoldable pub follow : Value → List Text → Value
follow current [] = current
follow current (part ∷ parts) = follow (step_into current part) parts

unfoldable pub get_value_by_path : Value → Text → Value
unfolding split_dots follow step_into
get_value_by_path item path = follow item (split_dots [] path)

-- `normalizedLeft` and `normalizedRight` of `compareValues`
unfoldable pub normalized : Value → Value
normalized (date (some t)) = num t
normalized (date none) = nan
normalized v = v

-- `a < b` on strings: by code units.
unfoldable pub text_ltb : Text → Text → Bool
text_ltb [] [] = false
text_ltb [] (d ∷ t) = true
text_ltb (c ∷ s) [] = false
text_ltb (c ∷ s) (d ∷ t) = ltb c d || (nat_beq c d && text_ltb s t)

abbrev pub is_nullish : Value → Bool
is_nullish undefined = true
is_nullish null = true
is_nullish _ = false

-- `a === b`. Two objects are the same only by identity, and no object of a request is one of the
-- objects that were built from the cluster.
unfoldable pub strict_equal : Value → Value → Bool
strict_equal undefined undefined = true
strict_equal null null = true
strict_equal (bool true) (bool b) = b
strict_equal (bool false) (bool true) = false
strict_equal (bool false) (bool false) = true
strict_equal (num a) (num b) = int_beq a b
strict_equal (str a) (str b) = a == b
strict_equal _ _ = false

-- `expected.includes(actual)` differs from `===` at NaN alone.
unfoldable pub includes_value : Items → Value → Bool
unfolding strict_equal
includes_value nil actual = false
includes_value (cons nan vs) nan = true
includes_value (cons v vs) actual = strict_equal v actual || includes_value vs actual

-- What `<` does with operands of different types, or with objects, by conversion to numbers.
module _ (coerced_ltb : Value → Value → Bool) where
  unfoldable pub value_ltb : Value → Value → Bool
  unfolding text_ltb
  value_ltb (num a) (num b) = int_ltb a b
  value_ltb (str a) (str b) = text_ltb a b
  value_ltb (bool false) (bool b) = b
  value_ltb (bool true) (bool b) = false
  value_ltb nan _ = false
  value_ltb _ nan = false
  value_ltb a b = coerced_ltb a b

  order_of : Value → Value → Ordering
  unfolding value_ltb
  order_of a b =
      if is_nullish a && is_nullish b
      then Ordering.eq
      else if is_nullish a
      then Ordering.lt
      else if is_nullish b
      then Ordering.gt
      else if value_ltb a b
      then Ordering.lt
      else if value_ltb b a
      then Ordering.gt
      else Ordering.eq

  -- -1, 0 and 1 are `lt`, `eq` and `gt`
  unfoldable pub compare_values : Value → Value → Ordering
  unfolding order_of normalized
  compare_values left right = order_of (normalized left) (normalized right)

-- `text.includes(query)`
unfoldable pub includes : Text → Text → Bool
unfolding starts_with
includes [] query = starts_with [] query
includes (c ∷ text) query = starts_with (c ∷ text) query || includes text query

-- `toISOString` throws at an invalid date; the searchable fields of this program are strings.
unfoldable pub searchable_value_to_string : (Option ℤ → Text) → Value → Text
unfolding int_text
searchable_value_to_string to_iso_string (date t) = to_iso_string t
searchable_value_to_string to_iso_string (bool true) = units "true"
searchable_value_to_string to_iso_string (bool false) = units "false"
searchable_value_to_string to_iso_string (num n) = int_text n
searchable_value_to_string to_iso_string nan = units "NaN"
searchable_value_to_string to_iso_string (str s) = s
searchable_value_to_string to_iso_string _ = []
