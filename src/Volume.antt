-- ===== src/Volume.antt =====
-- app/volume/volume.service.ts. The persistent volume claims of a project's namespace are its
-- volumes.
pub mod Size
pub mod Laws
pub mod Lifecycle
mod Examples
use kudeploy.Prelude.{
  ℕ, Bool, true, false, ◌&&◌, Option, none, some, List, [], ◌∷◌, ◌++◌, Text, units, filter,
  dict_get, is_value, ◌==◌, nat_eq, list_eq, or_else, non_empty, if◌then◌else◌,
}
use kudeploy.Prelude.Exec.{
  Result, ok, err, Failure, not_found, Exec, pure, throw, lift, guard, try_catch, map_results,
  with_result, and_then, ◌>>=◌, ◌>>◌,
}
use kudeploy.Prelude.Int.{pos}
use kudeploy.Connection.Value.{Value, num, str, date, obj, end, field}
use kudeploy.Connection.Manager.{Entity, FieldOptions, ConnectionArgs, Connection, find}
use kudeploy.Kubernetes.Api.{ResourceApi, null_if_missing, not_found_if_missing}
use kudeploy.Kubernetes.Dates.{Date, to_date}
use kudeploy.Kubernetes.Labels.{
  managed_by_label, managed_by_label_value, workspace_label, project_label, display_name_annotation,
  value_at, owner_labels,
}
use kudeploy.Kubernetes.Names.{
  to_kubernetes_project_name, to_kubernetes_workspace_name, to_kubernetes_volume_name,
  to_graphql_project_id, to_graphql_volume_id, has_kubernetes_volume_name_prefix, id_or_empty,
}
use kudeploy.Kubernetes.Outside.{Outside}
use kudeploy.Project.{Workspace, ProjectResource, is_set, ensure_project}
use kudeploy.Volume.Size.{to_volume_size, storage_of}

pub data VolumeStatus : Type 0 where
  pending bound lost unknown : VolumeStatus

-- `storage` is `spec?.resources?.requests?.storage`, and `phase` is `status?.phase`.
pub record VolumeResource : Type 0 where
  pub name : Option Text
  pub namespace : Option Text
  pub labels : Option (List (Text × Text))
  pub annotations : Option (List (Text × Text))
  pub creation_timestamp : Option Text
  pub access_modes : List Text
  pub storage : Option Text
  pub phase : Option Text

pub record Volume : Type 0 where
  pub id : Text
  pub project_id : Text
  pub name : Text
  pub size : ℕ
  pub status : VolumeStatus
  pub created_at : Date
  pub updated_at : Date

pub record CreateVolumeInput : Type 0 where
  pub project_id : Text
  pub name : Text
  pub size : ℕ

unfoldable pub status_text : VolumeStatus → Text
status_text pending = units "PENDING"
status_text bound = units "BOUND"
status_text lost = units "LOST"
status_text unknown = units "UNKNOWN"

unfoldable pub to_volume_status : Option Text → VolumeStatus
unfolding units
to_volume_status none = pending
to_volume_status (some phase) =
    if phase == units "Bound"
    then bound
    else if phase == units "Lost"
    then lost
    else if phase == units "Pending"
    then pending
    else unknown

unfoldable pub belongs_to_workspace_and_project : VolumeResource → Workspace → Text → Bool
unfolding value_at non_empty
belongs_to_workspace_and_project r workspace project_name =
    is_value r.namespace project_name
    && is_set r.name
    && has_kubernetes_volume_name_prefix (or_else r.name [])
    && is_value (value_at r.labels managed_by_label) managed_by_label_value
    && is_value (value_at r.labels workspace_label) (to_kubernetes_workspace_name workspace.id)
    && is_value (value_at r.labels project_label) project_name

unfoldable pub build_volume_resource : Workspace → Text → Text → CreateVolumeInput → VolumeResource
unfolding units
build_volume_resource workspace project_name name input = record {
  name = some name;
  namespace = some project_name;
  labels = some (owner_labels (to_kubernetes_workspace_name workspace.id) project_name);
  annotations = some ((display_name_annotation, input.name) ∷ []);
  creation_timestamp = none;
  access_modes = units "ReadWriteOnce" ∷ [];
  storage = some (storage_of input.size);
  phase = none;
}

instance abbrev pub volume_entity : Entity Volume
volume_entity = record {
  as_value = λ v. obj (
      field (units "id") (str v.id) (
        field (units "projectId") (str v.project_id) (
          field (units "name") (str v.name) (
            field (units "size") (num (pos v.size)) (
              field (units "status") (str (status_text v.status)) (
                field (units "createdAt") (date v.created_at)
                  (field (units "updatedAt") (date v.updated_at) end)))))));
  id_of = λ v. some v.id;
}

-- volume.connection-definition.ts
unfoldable pub volume_connection : List FieldOptions
unfolding units
volume_connection =
    record { field = units "name"; searchable = true; replacement = none }
    ∷ record { field = units "createdAt"; searchable = false; replacement = none }
    ∷ []

module _ {W : Type 0} (o : Outside W) (projects : ResourceApi W (Unit {0}) ProjectResource)
    (volumes : ResourceApi W Text VolumeResource) where
  with_ids : VolumeResource → Text → Text → Volume
  with_ids r id project_id = record {
    id = id;
    project_id = project_id;
    name = or_else (value_at r.annotations display_name_annotation) (or_else r.name []);
    size = to_volume_size r.storage;
    status = to_volume_status r.phase;
    created_at = to_date o.parse_date r.creation_timestamp;
    updated_at = to_date o.parse_date r.creation_timestamp;
  }

  unfoldable pub to_volume : VolumeResource → Result Volume
  unfolding with_ids non_empty
  to_volume r = and_then (id_or_empty to_graphql_volume_id r.name) λ id.
      with_result (id_or_empty to_graphql_project_id r.namespace)
        λ project_id. with_ids r id project_id

  unfoldable pub volume_label_selector : Workspace → Text → Text
  unfolding units
  volume_label_selector workspace project_name =
      managed_by_label
      ++ units "="
      ++ managed_by_label_value
      ++ units ","
      ++ workspace_label
      ++ units "="
      ++ to_kubernetes_workspace_name workspace.id
      ++ units ","
      ++ project_label
      ++ units "="
      ++ project_name

  unfoldable pub find_volumes : Workspace → Text → ConnectionArgs → Exec W (Connection Volume)
  unfolding volume_label_selector filter find
  find_volumes workspace project_id args = do
    let project_name = to_kubernetes_project_name project_id
    ensure_project o projects workspace project_id
    items ← volumes.list_items project_name (volume_label_selector workspace project_name)
    let owned =
        filter (λ r. belongs_to_workspace_and_project r workspace project_name) (or_else items [])
    nodes ← lift (map_results to_volume owned)
    lift (find o.runtime (some volume_connection) args nodes)

  -- the body of the `try` in `findVolume`
  unfoldable pub found_volume : Workspace → Text → VolumeResource → Exec W (Option Volume)
  found_volume workspace project_name r =
      if belongs_to_workspace_and_project r workspace project_name
      then (do found ← lift (to_volume r); pure (some found))
      else pure none

  unfoldable pub find_volume : Workspace → Text → Text → Exec W (Option Volume)
  unfolding found_volume null_if_missing
  find_volume workspace project_id id = do
    let project_name = to_kubernetes_project_name project_id
    ensure_project o projects workspace project_id
    try_catch
        (do
          r ← volumes.read project_name (to_kubernetes_volume_name id)
          found_volume workspace project_name r)
        null_if_missing

  unfoldable pub create_volume : Workspace → CreateVolumeInput → Exec W Volume
  create_volume workspace input = do
    let project_name = to_kubernetes_project_name input.project_id
    ensure_project o projects workspace input.project_id
    id ← o.next_id
    r ←
        volumes.create project_name
          (build_volume_resource workspace project_name (to_kubernetes_volume_name id) input)
    lift (to_volume r)

  -- the body of the `try` in `getOwnedVolume`
  unfoldable pub owned_volume : Workspace → Text → VolumeResource → Exec W VolumeResource
  unfolding units
  owned_volume workspace project_name r = do
    guard (belongs_to_workspace_and_project r workspace project_name)
        (not_found (units "Volume not found"))
    pure r

  unfoldable pub get_owned_volume : Workspace → Text → Text → Exec W VolumeResource
  unfolding owned_volume not_found_if_missing units
  get_owned_volume workspace project_name name =
      try_catch (do r ← volumes.read project_name name; owned_volume workspace project_name r)
        (not_found_if_missing (units "Volume not found"))

  unfoldable pub delete_volume : Workspace → Text → Text → Exec W Volume
  unfolding get_owned_volume
  delete_volume workspace project_id id = do
    let project_name = to_kubernetes_project_name project_id
    ensure_project o projects workspace project_id
    r ← get_owned_volume workspace project_name (to_kubernetes_volume_name id)
    volumes.delete project_name (to_kubernetes_volume_name id)
    lift (to_volume r)
