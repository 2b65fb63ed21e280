-- ===== src/Kubernetes/Names/Laws.antt =====
-- Ids and names are two views of one thing, and a name tells its kind.
use mathlib.Core.List.{append_cancel_left}
use kudeploy.Prelude.{
  ◌≡◌, refl, sym, ap, ◌∙◌, ◌↔◌, inl, inr, true, ◌++◌, Text, starts_with, length, drop,
  starts_with_iff, starts_with-append, drop-append, Bool-cases, units, non_empty, ◌==◌, nat_eq,
  list_eq, list_beq_iff,
}
use kudeploy.Prelude.Exec.{Result, ok}
use kudeploy.Kubernetes.Names.{
  ResourceKind, workspace, project, registry_credential, service, volume, name_prefix,
  strip_kubernetes_prefix, to_kubernetes_name, to_graphql_id, has_name_prefix,
}

ok-injective : {a b : Text} → ◌≡◌ {A = Result Text} (ok a) (ok b) → a ≡ b
ok-injective h = cc

strip-ok :
    (name prefix id : Text) → strip_kubernetes_prefix name prefix ≡ ok id → name ≡ prefix ++ id
unfolding strip_kubernetes_prefix
strip-ok name prefix id h = elim (Bool-cases (starts_with name prefix)) [
  | inl e ↦
      let same : drop (length prefix) name ≡ id = ok-injective (rw e at h) in
      sym ((starts_with_iff name prefix).0 e) ∙ ap (λ s. prefix ++ s) same
  | inr e ↦ let wrong = rw e at h in cc
]

strip-append : (prefix id : Text) → strip_kubernetes_prefix (prefix ++ id) prefix ≡ ok id
unfolding strip_kubernetes_prefix
strip-append prefix id = rw (starts_with-append prefix id, drop-append prefix id)

-- The GraphQL id of a cluster name is `id` exactly when the name is the cluster name of `id`: the
-- two translations undo each other, and any other name is refused.
pub to_graphql_id_iff :
    (kind : ResourceKind) (name id : Text)
    → (to_graphql_id kind name ≡ ok id) ↔ (name ≡ to_kubernetes_name kind id)
unfolding to_graphql_id to_kubernetes_name
to_graphql_id_iff kind name id =
    (strip-ok name (name_prefix kind) id, λ e. rw e (strip-append (name_prefix kind) id))

pub to_graphql_id-name :
    (kind : ResourceKind) (id : Text) → to_graphql_id kind (to_kubernetes_name kind id) ≡ ok id
to_graphql_id-name kind id = (to_graphql_id_iff kind _ id).1 refl

pub has_name_prefix-name :
    (kind : ResourceKind) (id : Text) → has_name_prefix kind (to_kubernetes_name kind id) ≡ true
unfolding has_name_prefix to_kubernetes_name
has_name_prefix-name kind id = starts_with-append (name_prefix kind) id

-- What has the prefix has an id.
pub to_graphql_id_of_prefix :
    (kind : ResourceKind) (name : Text)
    → has_name_prefix kind name ≡ true
    → to_graphql_id kind name ≡ ok (drop (length (name_prefix kind)) name)
unfolding to_graphql_id has_name_prefix strip_kubernetes_prefix
to_graphql_id_of_prefix kind name h = rw h

-- A name carries the prefix of one kind at most.
pub has_name_prefix-eq :
    (a b : ResourceKind) (id : Text) → has_name_prefix b (to_kubernetes_name a id) ≡ true → a ≡ b
unfolding has_name_prefix to_kubernetes_name name_prefix starts_with
has_name_prefix-eq workspace workspace id h = refl
has_name_prefix-eq project project id h = refl
has_name_prefix-eq registry_credential registry_credential id h = refl
has_name_prefix-eq service service id h = refl
has_name_prefix-eq volume volume id h = refl
has_name_prefix-eq _ _ id h = cc

pub to_kubernetes_name-injective :
    (kind : ResourceKind) (a b : Text)
    → to_kubernetes_name kind a ≡ to_kubernetes_name kind b
    → a ≡ b
unfolding to_kubernetes_name
to_kubernetes_name-injective kind a b h = append_cancel_left (name_prefix kind) a b h

pub non_empty-name :
    (kind : ResourceKind) (id : Text) → non_empty (to_kubernetes_name kind id) ≡ true
unfolding to_kubernetes_name name_prefix units non_empty
non_empty-name workspace id = refl
non_empty-name project id = refl
non_empty-name registry_credential id = refl
non_empty-name service id = refl
non_empty-name volume id = refl

-- Two names of one kind are the same text when their ids are.
pub to_kubernetes_name-== :
    (kind : ResourceKind) (a b : Text)
    → (to_kubernetes_name kind a == to_kubernetes_name kind b) ≡ (a == b)
to_kubernetes_name-== kind a b =
    elim (Bool-cases (to_kubernetes_name kind a == to_kubernetes_name kind b)) [
      | inl e ↦
          let same = to_kubernetes_name-injective kind a b ((list_beq_iff _ _).0 e) in
          e ∙ sym ((list_beq_iff a b).1 same)
      | inr e ↦ elim (Bool-cases (a == b)) [
        | inl f ↦
            (list_beq_iff _ _).1 (ap (to_kubernetes_name kind) ((list_beq_iff a b).0 f)) ∙ sym f
        | inr f ↦ e ∙ sym f
      ]
    ]
