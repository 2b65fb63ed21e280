-- ===== src/Kubernetes/Api.antt =====
-- The Kubernetes client library, as the services use it for one kind of resource, and what they
-- rely on. `S` is the scope of a name: a namespace, or `Unit` for resources without one.
use kudeploy.Prelude.{◌≡◌, Bool, false, Option, none, some, List, Text, ◌==◌, nat_eq, if◌then◌else◌}
use kudeploy.Prelude.Exec.{Failure, thrown, not_found, ok, err, Exec, pure, throw}

pub record ResourceApi (W S R : Type 0) : Type 0 where
  -- `read…`, `getNamespacedCustomObject`
  pub read : S → Text → Exec W R
  -- `list…` with a label selector; `items` may be absent
  pub list_items : S → Text → Exec W (Option (List R))
  pub create : S → R → Exec W R
  -- `patch…` with server-side apply, forced, as the server's field manager
  pub apply : S → Text → R → Exec W R
  pub delete : S → Text → Exec W (Unit {0})

-- `isNotFoundError`: the `code` of the error is 404. Nest's exceptions have no `code`.
unfoldable pub is_not_found_error : Failure → Bool
is_not_found_error (thrown (some code)) = code == 404
is_not_found_error _ = false

-- the handlers of a failed read
unfoldable pub null_if_missing : {W A : Type 0} → Failure → Exec W (Option A)
unfolding is_not_found_error
null_if_missing e = if is_not_found_error e then pure none else throw e

unfoldable pub not_found_if_missing : {W A : Type 0} → Text → Failure → Exec W A
unfolding is_not_found_error
not_found_if_missing message e = throw (if is_not_found_error e then not_found message else e)

-- What the services rely on: a resource that is stored can be read, one that is not gives 404, and
-- neither changes the cluster; a write stores what it returns, and what it returns keeps the parts
-- of the body that `Keeps` names.
pub record IsStore {W S R : Type 0} (api : ResourceApi W S R) (stored : W → S → Text → Option R)
    (name_of : R → Text) (Keeps : R → R → Type 0) : Type 0 where
  pub read_found :
      (s : S) (name : Text) (w : W) (r : R)
      → stored w s name ≡ some r
      → api.read s name w ≡ (ok r, w)
  pub read_missing :
      (s : S) (name : Text) (w : W)
      → stored w s name ≡ none
      → api.read s name w ≡ (err (thrown (some 404)), w)
  pub created :
      (s : S) (body : R) (w : W)
      → stored w s (name_of body) ≡ none
      → (r : R) × (w' : W) × (api.create s body w ≡ (ok r, w'))
        × Keeps body r
        × (stored w' s (name_of body) ≡ some r)
  pub applied :
      (s : S) (name : Text) (body : R) (w : W)
      → (r : R) × (w' : W) × (api.apply s name body w ≡ (ok r, w'))
        × Keeps body r
        × (stored w' s name ≡ some r)
  pub deleted :
      (s : S) (name : Text) (w : W) (r : R)
      → stored w s name ≡ some r
      → (w' : W) × (api.delete s name w ≡ (ok tt, w')) × (stored w' s name ≡ none)
