-- ===== src/Project.antt =====
-- app/project/project.service.ts. The namespaces of the cluster are the projects.
pub mod Laws
pub mod Ensuring
pub mod Lifecycle
pub mod Town
mod Examples
use kudeploy.Prelude.{
  ◌≡◌, Bool, true, false, ◌&&◌, Option, none, some, List, [], ◌∷◌, ◌++◌, Text, units, filter,
  dict_get, is_value, ◌==◌, nat_eq, list_eq, or_else, is_some, non_empty, if◌then◌else◌,
}
use kudeploy.Prelude.Exec.{
  Result, ok, err, Failure, not_found, Exec, pure, throw, lift, guard, try_catch, map_results,
  with_result, ◌>>=◌, ◌>>◌,
}
use kudeploy.Connection.Value.{undefined, str, date, obj, end, field}
use kudeploy.Connection.Manager.{Entity, FieldOptions, ConnectionArgs, Connection, find}
use kudeploy.Kubernetes.Api.{ResourceApi, null_if_missing}
use kudeploy.Kubernetes.Dates.{Date, to_date}
use kudeploy.Kubernetes.Labels.{
  managed_by_label, managed_by_label_value, workspace_label, project_label, display_name_annotation,
  value_at, owner_labels,
}
use kudeploy.Kubernetes.Names.{
  to_kubernetes_project_name, to_kubernetes_workspace_name, to_graphql_project_id,
  has_kubernetes_project_name_prefix,
}
use kudeploy.Kubernetes.Outside.{Outside}

pub data ProjectStatus : Type 0 where
  pending progressing ready failed unknown : ProjectStatus

pub record Workspace : Type 0 where
  pub id : Text

-- `phase` is `status?.phase`.
pub record ProjectResource : Type 0 where
  pub name : Text
  pub labels : Option (List (Text × Text))
  pub annotations : Option (List (Text × Text))
  pub creation_timestamp : Option Text
  pub deletion_timestamp : Option Text
  pub phase : Option Text

pub record Project : Type 0 where
  pub id : Text
  pub name : Text
  pub status : ProjectStatus
  pub created_at : Date
  pub updated_at : Date

unfoldable pub status_text : ProjectStatus → Text
status_text pending = units "PENDING"
status_text progressing = units "PROGRESSING"
status_text ready = units "READY"
status_text failed = units "FAILED"
status_text unknown = units "UNKNOWN"

-- `if (value)` on an optional string
abbrev pub is_set : Option Text → Bool
is_set none = false
is_set (some value) = non_empty value

abbrev of_phase : Option Text → ProjectStatus
of_phase none = pending
of_phase (some phase) =
    if phase == units "Active"
    then ready
    else if phase == units "Terminating"
    then progressing
    else unknown

unfoldable pub to_project_status : ProjectResource → ProjectStatus
unfolding units non_empty
to_project_status r = if is_set r.deletion_timestamp then progressing else of_phase r.phase

unfoldable pub belongs_to_workspace : ProjectResource → Workspace → Bool
unfolding value_at
belongs_to_workspace r workspace =
    is_value (value_at r.labels managed_by_label) managed_by_label_value
    && has_kubernetes_project_name_prefix r.name
    && is_value (value_at r.labels workspace_label) (to_kubernetes_workspace_name workspace.id)
    && is_value (value_at r.labels project_label) r.name

unfoldable pub build_project_resource : Workspace → Text → Text → ProjectResource
build_project_resource workspace name display_name = record {
  name = name;
  labels = some (owner_labels (to_kubernetes_workspace_name workspace.id) name);
  annotations = some ((display_name_annotation, display_name) ∷ []);
  creation_timestamp = none;
  deletion_timestamp = none;
  phase = none;
}

-- The object that the connection manager reads.
instance abbrev pub project_entity : Entity Project
project_entity = record {
  as_value = λ p. obj (
      field (units "id") (str p.id) (
        field (units "name") (str p.name) (
          field (units "status") (str (status_text p.status)) (
            field (units "createdAt") (date p.created_at)
              (field (units "updatedAt") (date p.updated_at) end)))));
  id_of = λ p. some p.id;
}

-- project.connection-definition.ts
unfoldable pub project_connection : List FieldOptions
unfolding units
project_connection =
    record { field = units "name"; searchable = true; replacement = none }
    ∷ record { field = units "createdAt"; searchable = false; replacement = none }
    ∷ []

module _ {W : Type 0} (o : Outside W) (projects : ResourceApi W (Unit {0}) ProjectResource) where
  unfoldable pub to_project : ProjectResource → Result Project
  unfolding to_project_status
  to_project r = with_result (to_graphql_project_id r.name) λ id. record {
    id = id;
    name = or_else (value_at r.annotations display_name_annotation) r.name;
    status = to_project_status r;
    created_at = to_date o.parse_date r.creation_timestamp;
    updated_at = to_date o.parse_date r.creation_timestamp;
  }

  unfoldable pub workspace_label_selector : Workspace → Text
  workspace_label_selector workspace =
      managed_by_label
      ++ (units "="
          ++ (managed_by_label_value
              ++ (units ","
                  ++ (workspace_label
                      ++ (units "=" ++ to_kubernetes_workspace_name workspace.id)))))

  unfoldable pub find_projects : Workspace → ConnectionArgs → Exec W (Connection Project)
  unfolding workspace_label_selector filter find
  find_projects workspace args = do
    items ← projects.list_items tt (workspace_label_selector workspace)
    let owned = filter (λ r. belongs_to_workspace r workspace) (or_else items [])
    nodes ← lift (map_results to_project owned)
    lift (find o.runtime (some project_connection) args nodes)

  -- the body of the `try` in `findProject`
  owned_project : Workspace → ProjectResource → Exec W (Option Project)
  owned_project workspace r =
      if belongs_to_workspace r workspace
      then (do found ← lift (to_project r); pure (some found))
      else pure none

  unfoldable pub find_project : Workspace → Text → Exec W (Option Project)
  unfolding owned_project null_if_missing
  find_project workspace id =
      try_catch (do r ← projects.read tt (to_kubernetes_project_name id); owned_project workspace r)
        null_if_missing

  unfoldable pub create_project : Workspace → Text → Exec W Project
  create_project workspace display_name = do
    id ← o.next_id
    r ←
        projects.create tt
          (build_project_resource workspace (to_kubernetes_project_name id) display_name)
    lift (to_project r)

  or_not_found : Option Project → Exec W Project
  unfolding units
  or_not_found none = throw (not_found (units "Project not found"))
  or_not_found (some project) = pure project

  -- `input.name` may be left out
  unfoldable pub update_project : Workspace → Text → Option Text → Exec W Project
  unfolding or_not_found
  update_project workspace id input_name = do
    found ← find_project workspace id
    existing ← or_not_found found
    r ← projects.apply tt (to_kubernetes_project_name id) (
        build_project_resource workspace (to_kubernetes_project_name id)
          (or_else input_name existing.name))
    lift (to_project r)

  unfoldable pub delete_project : Workspace → Text → Exec W Project
  unfolding units
  delete_project workspace id = do
    existing ← projects.read tt (to_kubernetes_project_name id)
    guard (belongs_to_workspace existing workspace) (not_found (units "Project not found"))
    projects.delete tt (to_kubernetes_project_name id)
    lift (to_project existing)

  -- `ensureProject` of the services whose resources live in a project
  unfoldable pub ensure_project : Workspace → Text → Exec W (Unit {0})
  unfolding units
  ensure_project workspace id = do
    found ← find_project workspace id
    guard (is_some found) (not_found (units "Project not found"))
