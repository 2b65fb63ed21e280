-- ===== src/Prelude/Exec.antt =====
-- Asynchronous methods that may throw: a state of the outside world is passed along, and what was
-- done before a throw stays done.
use Prim.Native.Nat.{ℕ}
use mathlib.Core.Path.{◌≡◌, refl}
use mathlib.Core.Logic.{◌⊎◌, inl, inr}
use mathlib.Core.Option.{Option}
use mathlib.Core.List.{List, [], ◌∷◌}
use mathlib.Core.Bool.{Bool, true, false}
use kudeploy.Prelude.Texts.{Text}

-- What the server throws: Nest's HTTP exceptions with their messages, a plain `Error`, and what a
-- client library throws, with its `code` where it has one.
pub data Failure : Type 0 where
  not_found bad_request forbidden unauthorized plain_error : Text → Failure
  thrown : Option ℕ → Failure

pub data Result {ℓ} (A : Type ℓ) : Type ℓ where
  ok : A → Result A
  err : Failure → Result A

abbrev pub Exec {ℓ} : Type 0 → Type ℓ → Type ℓ
Exec W A = W → Result A × W

module _ {ℓ} {W : Type 0} {A : Type ℓ} where
  abbrev pub pure : A → Exec W A
  pure a w = (ok a, w)

  abbrev pub throw : Failure → Exec W A
  throw e w = (err e, w)

  abbrev pub lift : Result A → Exec W A
  lift r w = (r, w)

  abbrev pub recover : Result A × W → (Failure → Exec W A) → Result A × W
  recover (ok a, w) handler = (ok a, w)
  recover (err e, w) handler = handler e w

  -- `try { body } catch (error) { handler }`
  abbrev pub try_catch : Exec W A → (Failure → Exec W A) → Exec W A
  try_catch body handler w = recover (body w) handler

module _ {ℓ κ} {W : Type 0} {A : Type ℓ} {B : Type κ} where
  abbrev pub continue : Result A × W → (A → Exec W B) → Result B × W
  continue (ok a, w) f = f a w
  continue (err e, w) f = (err e, w)

  infixl 5 ◌>>=◌ ◌>>◌
  abbrev pub ◌>>=◌ : Exec W A → (A → Exec W B) → Exec W B
  ◌>>=◌ m f w = continue (m w) f

  abbrev pub ◌>>◌ : Exec W A → Exec W B → Exec W B
  m >> n = m >>= λ _. n

-- `if (!condition) throw error`
abbrev pub guard : {W : Type 0} → Bool → Failure → Exec W (Unit {0})
guard true e w = (ok tt, w)
guard false e w = (err e, w)

-- what a call that may throw is built into
abbrev pub with_result {ℓ κ} : {A : Type ℓ} {B : Type κ} → Result A → (A → B) → Result B
with_result (ok a) f = ok (f a)
with_result (err e) f = err e

pub with_result-ok {ℓ κ} :
    {A : Type ℓ} {B : Type κ} {r : Result A} {a : A} (f : A → B)
    → r ≡ ok a
    → with_result r f ≡ ok (f a)
with_result-ok f e = rw e

abbrev pub prepend {ℓ} : {B : Type ℓ} → Result B → Result (List B) → Result (List B)
prepend (ok y) (ok ys) = ok (y ∷ ys)
prepend (ok y) (err e) = err e
prepend (err e) _ = err e

-- `items.map(f)`, where the first item at which `f` throws ends the call
unfoldable pub map_results {ℓ κ} :
    {A : Type ℓ} {B : Type κ} → (A → Result B) → List A → Result (List B)
map_results f [] = ok []
map_results f (x ∷ xs) = prepend (f x) (map_results f xs)

-- the rest of a body after a call that may throw
abbrev pub and_then {ℓ κ} : {A : Type ℓ} {B : Type κ} → Result A → (A → Result B) → Result B
and_then (ok a) f = f a
and_then (err e) f = err e

pub Result-cases {ℓ} :
    {A : Type ℓ} (r : Result A) → ((a : A) × (r ≡ ok a)) ⊎ ((e : Failure) × (r ≡ err e))
Result-cases (ok a) = inl (a, refl)
Result-cases (err e) = inr (e, refl)
