-- ===== src/Prelude/Texts.antt =====
-- JavaScript strings as lists of UTF-16 code units.
use Prim.Native.Nat.{ℕ}
use Prim.Native.Char.{code}
use Prim.Native.String.{String}
use mathlib.Core.Path.{◌≡◌, refl, sym, ap₂}
use mathlib.Core.Logic.{◌↔◌}
use mathlib.Core.Bool.{Bool, true, false, ◌&&◌, ◌||◌}
use mathlib.Core.Option.{Option, none, some}
use mathlib.Core.List.{List, [], ◌∷◌, ◌++◌, reverse}
use native.Mathlib.Omega.{arith}
use kudeploy.Prelude.Tests.{leb, nat_beq_iff, ◌==◌, nat_eq, list_eq, if◌then◌else◌, and-eq-true}
use kudeploy.Prelude.Lists.{length, drop}

abbrev pub Text : Type 0
Text = List ℕ

-- A literal of the source; all of them lie in the basic plane, where a code point is one unit.
unfoldable pub units : String → Text
units String.[] = []
units (String.◌∷◌ c s) = code c ∷ units s

unfoldable pub starts_with : Text → Text → Bool
starts_with name [] = true
starts_with [] (c ∷ prefix) = false
starts_with (d ∷ name) (c ∷ prefix) = d == c && starts_with name prefix

-- White space and line ends, as `String.prototype.trim` removes them.
unfoldable pub is_space : ℕ → Bool
is_space c =
    leb 9 c && leb c 13
    || c == 32
    || c == 160
    || c == 5760
    || leb 8192 c && leb c 8202
    || c == 8232
    || c == 8233
    || c == 8239
    || c == 8287
    || c == 12288
    || c == 65279

unfoldable pub drop_spaces : Text → Text
drop_spaces [] = []
drop_spaces (c ∷ s) = if is_space c then drop_spaces s else c ∷ s

unfoldable pub trim : Text → Text
unfolding drop_spaces is_space
trim s = reverse (drop_spaces (reverse (drop_spaces s)))

-- `Boolean(s)`: only the empty string is falsy.
unfoldable pub non_empty : Text → Bool
non_empty [] = false
non_empty (c ∷ s) = true

-- `record[key]` of a plain object with string values; `none` is `undefined`.
unfoldable pub dict_get {ℓ} : {V : Type ℓ} → Text → List (Text × V) → Option V
dict_get k [] = none
dict_get k ((j, v) ∷ m) = if j == k then some v else dict_get k m

-- `parts.join(separator)`
unfoldable pub join : Text → List Text → Text
join separator [] = []
join separator (x ∷ []) = x
join separator (x ∷ y ∷ rest) = x ++ (separator ++ join separator (y ∷ rest))

pub starts_with-append : (prefix s : Text) → starts_with (prefix ++ s) prefix ≡ true
unfolding starts_with
starts_with-append [] s = refl
starts_with-append (c ∷ prefix) s = ground (arith, starts_with-append prefix s)

pub drop-append : (prefix s : Text) → drop (length prefix) (prefix ++ s) ≡ s
unfolding drop
drop-append [] s = refl
drop-append (c ∷ prefix) s = drop-append prefix s

starts_with→split :
    (s prefix : Text) → starts_with s prefix ≡ true → prefix ++ drop (length prefix) s ≡ s
unfolding starts_with drop
starts_with→split s [] h = refl
starts_with→split (d ∷ s) (c ∷ prefix) h =
    let (here, later) = and-eq-true _ _ h in
    ap₂ ◌∷◌ (sym ((nat_beq_iff d c).0 here)) (starts_with→split s prefix later)
starts_with→split [] (c ∷ prefix) h = ground arith

-- A text starts with a prefix exactly when it is the prefix and what slicing leaves.
pub starts_with_iff :
    (s prefix : Text) → (starts_with s prefix ≡ true) ↔ (prefix ++ drop (length prefix) s ≡ s)
starts_with_iff s prefix =
    (starts_with→split s prefix, λ e. rw e at (starts_with-append prefix (drop (length prefix) s)))
