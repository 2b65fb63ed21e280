-- ===== src/Volume/Laws.antt =====
-- Who owns a volume, and what a claim that was built for a volume is read as.
use kudeploy.Prelude.{◌≡◌, refl, ◌==◌, ◌&&◌, some, Text, nat_eq, list_eq, ==-self, dict_get, arith}
use kudeploy.Prelude.Exec.{ok}
use kudeploy.Kubernetes.Api.{ResourceApi}
use kudeploy.Kubernetes.Dates.{to_date}
use kudeploy.Kubernetes.Labels.{
  managed_by_label, managed_by_label_value, workspace_label, project_label, display_name_annotation,
  value_at, owner_labels, owner_labels-managed_by, owner_labels-workspace, owner_labels-project,
}
use kudeploy.Kubernetes.Names.{
  workspace, project, volume, to_kubernetes_project_name, to_kubernetes_volume_name,
  to_kubernetes_workspace_name,
}
use kudeploy.Kubernetes.Names.Laws.{
  to_graphql_id-name, has_name_prefix-name, non_empty-name, to_kubernetes_name-==,
}
use kudeploy.Kubernetes.Outside.{Outside}
use kudeploy.Project.{Workspace, ProjectResource}
use kudeploy.Volume.{
  VolumeResource, CreateVolumeInput, belongs_to_workspace_and_project, build_volume_resource,
  to_volume, to_volume_status,
}
use kudeploy.Volume.Size.{storage_of, to_volume_size-storage_of}

-- The parts of a body that the cluster keeps.
pub record KeepsClaim (body r : VolumeResource) : Type 0 where
  pub name : r.name ≡ body.name
  pub namespace : r.namespace ≡ body.namespace
  pub storage : r.storage ≡ body.storage
  pub labels :
      (key value : Text)
      → value_at body.labels key ≡ some value
      → value_at r.labels key ≡ some value
  pub annotations :
      (key value : Text)
      → value_at body.annotations key ≡ some value
      → value_at r.annotations key ≡ some value

module _ (ws : Workspace) (id : Text) (input : CreateVolumeInput) {r : VolumeResource}
    (k : KeepsClaim
      (build_volume_resource ws
        (to_kubernetes_project_name input.project_id)
        (to_kubernetes_volume_name id)
        input)
      r) where
  claim_label :
      (key value : Text)
      → dict_get key (
          owner_labels
            (to_kubernetes_workspace_name ws.id)
            (to_kubernetes_project_name input.project_id))
        ≡ some value
      → value_at r.labels key ≡ some value
  unfolding build_volume_resource value_at
  claim_label key value e = k.labels key value e

  claim_name : r.name ≡ some (to_kubernetes_volume_name id)
  unfolding build_volume_resource
  claim_name = k.name

  claim_namespace : r.namespace ≡ some (to_kubernetes_project_name input.project_id)
  unfolding build_volume_resource
  claim_namespace = k.namespace

  claim_storage : r.storage ≡ some (storage_of input.size)
  unfolding build_volume_resource
  claim_storage = k.storage

  claim_display_name : value_at r.annotations display_name_annotation ≡ some input.name
  unfolding build_volume_resource value_at dict_get
  claim_display_name =
      k.annotations display_name_annotation input.name (rw (==-self display_name_annotation) refl)

  -- A claim that was built for a workspace and a project is accepted for those alone.
  pub belongs_of_claim :
      (ws' : Workspace) (project_id : Text)
      → belongs_to_workspace_and_project r ws' (to_kubernetes_project_name project_id)
        ≡ (ws.id == ws'.id && input.project_id == project_id)
  unfolding belongs_to_workspace_and_project
  belongs_of_claim ws' project_id =
      let wsn = to_kubernetes_workspace_name ws.id in
      let pn = to_kubernetes_project_name input.project_id in
      let managed = claim_label managed_by_label _ (owner_labels-managed_by wsn pn) in
      let of_workspace = claim_label workspace_label _ (owner_labels-workspace wsn pn) in
      let of_project = claim_label project_label _ (owner_labels-project wsn pn) in
      rw
        (
          managed,
          of_workspace,
          of_project,
          claim_name,
          claim_namespace,
          has_name_prefix-name volume id,
          non_empty-name volume id,
          ==-self managed_by_label_value,
          to_kubernetes_name-== workspace ws.id ws'.id,
          to_kubernetes_name-== project input.project_id project_id,
        )
        (ground arith)

module _ {W : Type 0} (o : Outside W) (projects : ResourceApi W (Unit {0}) ProjectResource)
    (volumes : ResourceApi W Text VolumeResource) (ws : Workspace) (id : Text)
    (input : CreateVolumeInput) {r : VolumeResource}
    (k : KeepsClaim
      (build_volume_resource ws
        (to_kubernetes_project_name input.project_id)
        (to_kubernetes_volume_name id)
        input)
      r) where
  pub to_volume_of_claim :
      to_volume o projects volumes r
      ≡ ok (record {
        id = id;
        project_id = input.project_id;
        name = input.name;
        size = input.size;
        status = to_volume_status r.phase;
        created_at = to_date o.parse_date r.creation_timestamp;
        updated_at = to_date o.parse_date r.creation_timestamp;
      })
  unfolding to_volume
  to_volume_of_claim =
      rw
        (
          claim_name ws id input k,
          claim_namespace ws id input k,
          claim_storage ws id input k,
          claim_display_name ws id input k,
          non_empty-name volume id,
          non_empty-name project input.project_id,
          to_graphql_id-name volume id,
          to_graphql_id-name project input.project_id,
          to_volume_size-storage_of input.size,
        )
        refl
