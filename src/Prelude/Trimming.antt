-- ===== src/Prelude/Trimming.antt =====
-- `nonEmpty` and `optional` of the services: texts that count only if something is left of them
-- when they are trimmed.
use Prim.Native.Nat.{◌≤◌}
use mathlib.Core.Path.{◌≡◌, refl, sym, ap, ◌∙◌}
use mathlib.Core.Logic.{inl, inr}
use mathlib.Core.Bool.{true}
use mathlib.Core.Option.{Option, none, some}
use mathlib.Core.List.{[], ◌∷◌, ◌++◌, reverse, reverse-append, reverse-reverse}
use native.Mathlib.Omega.{arith}
use kudeploy.Prelude.Tests.{if◌then◌else◌, Bool-cases}
use kudeploy.Prelude.Lists.{length}
use kudeploy.Prelude.Texts.{Text, trim, drop_spaces, is_space, non_empty}

unfoldable pub optional : Option Text → Option Text
unfolding trim non_empty
optional none = none
optional (some value) = if non_empty (trim value) then some (trim value) else none

-- What `drop_spaces` leaves is the end of the text.
drop_spaces-split : (s : Text) → (p : Text) × (s ≡ p ++ drop_spaces s)
unfolding drop_spaces
drop_spaces-split [] = ([], refl)
drop_spaces-split (c ∷ s) = elim (Bool-cases (is_space c)) [
  | inl e ↦ let (p, q) = drop_spaces-split s in (c ∷ p, rw e (ap (◌∷◌ c) q))
  | inr e ↦ ([], rw e refl)
]

drop_spaces_idem : (s : Text) → drop_spaces (drop_spaces s) ≡ drop_spaces s
unfolding drop_spaces
drop_spaces_idem [] = refl
drop_spaces_idem (c ∷ s) = elim (Bool-cases (is_space c)) [
  | inl e ↦ rw e (drop_spaces_idem s)
  | inr e ↦ rw (e, e) refl
]

length-drop_spaces : (s : Text) → length (drop_spaces s) ≤ length s
unfolding drop_spaces
length-drop_spaces [] = omega arith
length-drop_spaces (c ∷ s) = ground (arith, length-drop_spaces s)

-- A text that does not start with a space has no start that does.
drop_spaces-prefix : (x y : Text) → drop_spaces (x ++ y) ≡ x ++ y → drop_spaces x ≡ x
unfolding drop_spaces
drop_spaces-prefix [] y h = refl
drop_spaces-prefix (c ∷ x) y h = elim (Bool-cases (is_space c)) [
  | inl e ↦
      let same : drop_spaces (x ++ y) ≡ c ∷ (x ++ y) = rw e at h in
      absurd (omega (arith, length-drop_spaces (x ++ y), ap length same))
  | inr e ↦ rw e refl
]

pub trim-trim : (s : Text) → trim (trim s) ≡ trim s
unfolding trim
trim-trim s =
    let a = drop_spaces s in
    let b = drop_spaces (reverse a) in
    let (p, q) = drop_spaces-split (reverse a) in
    let whole : a ≡ reverse b ++ reverse p =
      sym (reverse-reverse a) ∙ ap reverse q ∙ reverse-append p b in
    let start : drop_spaces (reverse b) ≡ reverse b =
      drop_spaces-prefix (reverse b) (reverse p)
        (ap drop_spaces (sym whole) ∙ drop_spaces_idem s ∙ whole) in
    rw (start, reverse-reverse b) (ap reverse (drop_spaces_idem (reverse a)))

pub optional-optional : (o : Option Text) → optional (optional o) ≡ optional o
unfolding optional
optional-optional none = refl
optional-optional (some s) = elim (Bool-cases (non_empty (trim s))) [
  | inl e ↦ rw (e, trim-trim s, e) refl
  | inr e ↦ rw e refl
]

-- What is trimmed is not empty.
pub optional-non_empty : (o : Option Text) (s : Text) → optional o ≡ some s → non_empty s ≡ true
unfolding optional
optional-non_empty none s h = ground arith
optional-non_empty (some t) s h = ground arith
