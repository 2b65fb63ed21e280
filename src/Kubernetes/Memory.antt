-- ===== src/Kubernetes/Memory.antt =====
-- A cluster in memory: it shows that what is assumed of the client library can hold.
use kudeploy.Prelude.{
  ◌≡◌, refl, sym, ap, ◌∙◌, true, ◌&&◌, Option, none, some, List, [], ◌∷◌, Text, ◌==◌, StrictEq,
  nat_eq, list_eq, ==-self, if◌then◌else◌, Bool-cases, inl, inr,
}
use kudeploy.Prelude.Exec.{Result, ok, err, thrown}
use kudeploy.Kubernetes.Api.{ResourceApi, IsStore}

instance abbrev pub unit_eq : StrictEq (Unit {0})
unit_eq = record { identical = λ _ _. true; identical_iff = λ a b. ((λ h. refl), λ h. refl) }

abbrev pub Memory : Type 0 → Type 0 → Type 0
Memory S R = List (S × Text × R)

module _ {S R : Type 0} ⦃e : StrictEq S⦄ where
  unfoldable pub find_entry : S → Text → Memory S R → Option R
  find_entry s name [] = none
  find_entry s name ((s', name', r) ∷ m) =
      if s' == s && name' == name then some r else find_entry s name m

  unfoldable pub without_entry : S → Text → Memory S R → Memory S R
  without_entry s name [] = []
  without_entry s name ((s', name', r) ∷ m) =
      let rest = without_entry s name m in
      if s' == s && name' == name then rest else (s', name', r) ∷ rest

  unfoldable pub entries_in : S → Memory S R → List R
  entries_in s [] = []
  entries_in s ((s', name', r) ∷ m) =
      let rest = entries_in s m in if s' == s then r ∷ rest else rest

  find-without :
      (s : S) (name : Text) (m : Memory S R) → find_entry s name (without_entry s name m) ≡ none
  unfolding find_entry without_entry
  find-without s name [] = refl
  find-without s name ((s', name', r) ∷ m) = elim (Bool-cases (s' == s && name' == name)) [
    | inl same ↦ rw same (find-without s name m)
    | inr other ↦ rw (other, other) (find-without s name m)
  ]

  find_self :
      (s : S) (name : Text) (r : R) (m : Memory S R) → find_entry s name ((s, name, r) ∷ m) ≡ some r
  unfolding find_entry
  find_self s name r m = rw (==-self s, ==-self name)

  module _ {W : Type 0} (get : W → Memory S R) (set : Memory S R → W → W)
      (get-set : (m : Memory S R) (w : W) → get (set m w) ≡ m) (name_of : R → Text) where
    abbrev answer : Option R → W → Result R × W
    answer none w = (err (thrown (some 404)), w)
    answer (some r) w = (ok r, w)

    unfoldable pub memory_api : ResourceApi W S R
    unfolding find_entry without_entry entries_in
    memory_api = record {
      read = λ s name w. answer (find_entry s name (get w)) w;
      list_items = λ s selector w. (ok (some (entries_in s (get w))), w);
      create = λ s body w. (ok body, set ((s, name_of body, body) ∷ get w) w);
      apply = λ s name body w. (ok body, set ((s, name, body) ∷ without_entry s name (get w)) w);
      delete = λ s name w. (ok tt, set (without_entry s name (get w)) w);
    }

    abbrev pub held : W → S → Text → Option R
    held w s name = find_entry s name (get w)

    pub memory_api-IsStore :
        {Keeps : R → R → Type 0} → ((r : R) → Keeps r r) → IsStore memory_api held name_of Keeps
    unfolding memory_api
    memory_api-IsStore keeps = record {
      read_found = λ s name w r h. rw h;
      read_missing = λ s name w h. rw h;
      created = λ s body w h.
          (body, _, refl, keeps body, rw get-set (find_self s (name_of body) body (get w)));
      applied = λ s name body w. (body, _, refl, keeps body, rw get-set (find_self s name body _));
      deleted = λ s name w r h. (_, refl, rw get-set (find-without s name (get w)));
    }

-- A cluster that changes what it is given before it stores it.
unfoldable pub admitting : {W S R : Type 0} → (R → R) → ResourceApi W S R → ResourceApi W S R
admitting admit api = record api {
  create = λ s body. api.create s (admit body);
  apply = λ s name body. api.apply s name (admit body);
}

pub admitting-IsStore :
    {W S R : Type 0} (admit : R → R) {api : ResourceApi W S R} {stored : W → S → Text → Option R}
    {name_of : R → Text} {Keeps Admits : R → R → Type 0}
    → IsStore api stored name_of Keeps
    → ((body : R) → name_of (admit body) ≡ name_of body)
    → ((body r : R) → Keeps (admit body) r → Admits body r)
    → IsStore (admitting admit api) stored name_of Admits
unfolding admitting
admitting-IsStore admit {stored = stored} store same keeps = record {
  read_found = store.read_found;
  read_missing = store.read_missing;
  created = λ s body w h.
      let (r, w', made, k, there) =
        store.created s (admit body) w (ap (stored w s) (same body) ∙ h) in
      (r, w', made, keeps body r k, ap (stored w' s) (sym (same body)) ∙ there);
  applied = λ s name body w.
      let (r, w', made, k, there) = store.applied s name (admit body) w in
      (r, w', made, keeps body r k, there);
  deleted = store.deleted;
}
