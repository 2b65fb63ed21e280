-- ===== src/Project/Laws.antt =====
-- Who owns a project, and what the operations do to a cluster that keeps what it is given.
use kudeploy.Prelude.{
  ◌≡◌, ap, ◌↔◌, true, Option, none, some, Text, nat_eq, list_eq, list_beq_iff, ==-self, Bool-cases,
  if◌then◌else◌, dict_get, inl, inr, and-eq-true,
}
use kudeploy.Prelude.Exec.{ok}
use kudeploy.Kubernetes.Api.{ResourceApi, IsStore, is_not_found_error}
use kudeploy.Kubernetes.Dates.{to_date}
use kudeploy.Kubernetes.Labels.{
  managed_by_label, managed_by_label_value, workspace_label, project_label, display_name_annotation,
  value_at, owner_labels, owner_labels-managed_by, owner_labels-workspace, owner_labels-project,
}
use kudeploy.Kubernetes.Names.{
  workspace, project, to_kubernetes_project_name, to_kubernetes_workspace_name,
}
use kudeploy.Kubernetes.Names.Laws.{
  to_graphql_id-name, has_name_prefix-name, to_kubernetes_name-injective,
}
use kudeploy.Kubernetes.Outside.{Outside}
use kudeploy.Project.{
  Workspace, ProjectResource, Project, belongs_to_workspace, build_project_resource, to_project,
  to_project_status, find_project,
}

-- The parts of a body that the cluster keeps: it may add labels and annotations of its own.
pub record KeepsMetadata (body r : ProjectResource) : Type 0 where
  pub name : r.name ≡ body.name
  pub labels :
      (key value : Text)
      → value_at body.labels key ≡ some value
      → value_at r.labels key ≡ some value
  pub annotations :
      (key value : Text)
      → value_at body.annotations key ≡ some value
      → value_at r.annotations key ≡ some value

module _ (ws : Workspace) (id display_name : Text) {r : ProjectResource}
    (k : KeepsMetadata
      (build_project_resource ws (to_kubernetes_project_name id) display_name)
      r) where
  kept_label :
      (key value : Text)
      → dict_get key
          (owner_labels (to_kubernetes_workspace_name ws.id) (to_kubernetes_project_name id))
        ≡ some value
      → value_at r.labels key ≡ some value
  unfolding build_project_resource value_at
  kept_label key value e = k.labels key value e

  pub kept_name : r.name ≡ to_kubernetes_project_name id
  unfolding build_project_resource
  kept_name = k.name

  pub kept_display_name : value_at r.annotations display_name_annotation ≡ some display_name
  unfolding build_project_resource value_at dict_get
  kept_display_name =
      k.annotations display_name_annotation display_name (rw (==-self display_name_annotation))

  -- The labels of a project that was built for a workspace are accepted for that one alone.
  pub belongs_of_keeps : (ws' : Workspace) → (belongs_to_workspace r ws' ≡ true) ↔ (ws.id ≡ ws'.id)
  unfolding belongs_to_workspace
  belongs_of_keeps ws' =
      let wsn = to_kubernetes_workspace_name ws.id in
      let pn = to_kubernetes_project_name id in
      let managed = kept_label managed_by_label _ (owner_labels-managed_by wsn pn) in
      let of_workspace = kept_label workspace_label _ (owner_labels-workspace wsn pn) in
      let of_project = kept_label project_label _ (owner_labels-project wsn pn) in
      rw
        (
          managed,
          of_workspace,
          of_project,
          kept_name,
          has_name_prefix-name project id,
          ==-self managed_by_label_value,
          ==-self pn,
        )
        (
          λ h.
              to_kubernetes_name-injective workspace ws.id ws'.id
                ((list_beq_iff _ _).0 (and-eq-true _ _ h).0),
          λ e. rw ((list_beq_iff _ _).1 (ap to_kubernetes_workspace_name e)),
        )

module _ {W : Type 0} (o : Outside W) (projects : ResourceApi W (Unit {0}) ProjectResource) where
  module _ (ws : Workspace) (id display_name : Text) {r : ProjectResource}
      (k : KeepsMetadata
        (build_project_resource ws (to_kubernetes_project_name id) display_name)
        r) where
    pub to_project_of_keeps :
        to_project o projects r
        ≡ ok (record {
          id = id;
          name = display_name;
          status = to_project_status r;
          created_at = to_date o.parse_date r.creation_timestamp;
          updated_at = to_date o.parse_date r.creation_timestamp;
        })
    unfolding to_project
    to_project_of_keeps = rw (
      kept_name ws id display_name k,
      to_graphql_id-name project id,
      kept_display_name ws id display_name k,
    )

  module _ {stored : W → Unit {0} → Text → Option ProjectResource}
      (store : IsStore projects stored (λ r. r.name) KeepsMetadata) where
    -- Reading a stored project, by who owns it.
    pub find_project-stored :
        (ws : Workspace) (id : Text) (w : W) (r : ProjectResource) (p : Project)
        → stored w tt (to_kubernetes_project_name id) ≡ some r
        → to_project o projects r ≡ ok p
        → find_project o projects ws id w
          ≡ (ok (if belongs_to_workspace r ws then some p else none), w)
    unfolding find_project
    find_project-stored ws id w r p s e = elim (Bool-cases (belongs_to_workspace r ws)) [
      | inl b ↦ rw (store.read_found tt (to_kubernetes_project_name id) w r s, b, e)
      | inr b ↦ rw (store.read_found tt (to_kubernetes_project_name id) w r s, b)
    ]

    -- A stored project that another workspace owns, or none at all, is not found.
    pub find_project-missing :
        (ws : Workspace) (id : Text) (w : W)
        → stored w tt (to_kubernetes_project_name id) ≡ none
        → find_project o projects ws id w ≡ (ok none, w)
    unfolding find_project is_not_found_error
    find_project-missing ws id w s = rw (store.read_missing tt (to_kubernetes_project_name id) w s)
