-- ===== src/Service.antt =====
-- app/service/service.service.ts. The services of a project are custom resources in its namespace;
-- Entity has the data, Building what is written, Reading what is shown.
pub mod Entity
pub mod Building
pub mod Reading
pub mod Normal
pub mod Kept
pub mod Updates
pub mod Lifecycle
mod Examples
use kudeploy.Prelude.{
  Bool, true, false, not, ◌&&◌, Option, none, some, List, [], ◌∷◌, ◌++◌, map, Text, units, filter,
  is_value, is_some, ◌==◌, nat_eq, list_eq, or_else, non_empty, if◌then◌else◌, join, Patch, absent,
  given,
}
use kudeploy.Prelude.Exec.{
  Result, ok, err, Failure, not_found, Exec, pure, throw, lift, guard, try_catch, map_results,
  ◌>>=◌, ◌>>◌,
}
use kudeploy.Prelude.Int.{ℤ}
use kudeploy.Connection.Manager.{FieldOptions, ConnectionArgs, Connection, find}
use kudeploy.Kubernetes.Api.{ResourceApi, null_if_missing}
use kudeploy.Kubernetes.Labels.{
  managed_by_label, managed_by_label_value, workspace_label, project_label, value_at,
}
use kudeploy.Kubernetes.Names.{
  to_kubernetes_project_name, to_kubernetes_service_name, to_kubernetes_workspace_name,
  has_kubernetes_service_name_prefix,
}
use kudeploy.Kubernetes.Outside.{Outside}
use kudeploy.Project.{Workspace, ProjectResource, is_set, ensure_project}
use kudeploy.RegistryCredential.{RegistryCredentialResource, find_registry_credential}
use kudeploy.RegistryCredential.Docker.{Encoding}
use kudeploy.Volume.{VolumeResource, find_volume}
use kudeploy.Service.Entity.{
  ServicePortInput, ServiceResource, ServicePort, ServiceVolume, Service, ServiceVolumeInput,
  ServiceResourceInput, UpdateServiceInput, service_entity,
}
use kudeploy.Service.Building.{default_replicas, build_service_resource}
use kudeploy.Service.Reading.{or_null, to_service}

unfoldable pub belongs_to_workspace_and_project : ServiceResource → Workspace → Text → Bool
unfolding value_at
belongs_to_workspace_and_project r workspace project_name =
    r.namespace == project_name
    && (has_kubernetes_service_name_prefix r.name
        && (is_value (value_at r.labels managed_by_label) managed_by_label_value
            && (is_value (value_at r.labels workspace_label)
                  (to_kubernetes_workspace_name workspace.id)
                && is_value (value_at r.labels project_label) project_name)))

unfoldable pub service_label_selector : Workspace → Text → Text
unfolding join units
service_label_selector workspace project_name = join (units ",") (
    (managed_by_label ++ (units "=" ++ managed_by_label_value))
    ∷ (workspace_label ++ (units "=" ++ to_kubernetes_workspace_name workspace.id))
    ∷ (project_label ++ (units "=" ++ project_name))
    ∷ [])

-- service.connection-definition.ts
unfoldable pub service_connection : List FieldOptions
unfolding units
service_connection =
    record { field = units "name"; searchable = true; replacement = none }
    ∷ record { field = units "createdAt"; searchable = false; replacement = none }
    ∷ []

-- `targetPort == null ? {} : { targetPort }`
abbrev pub if_present {ℓ} : {A : Type ℓ} → Option A → Patch A
if_present none = absent
if_present (some value) = given (some value)

unfoldable pub to_service_input_port : ServicePort → ServicePortInput
to_service_input_port p = record { port = p.port; target_port = if_present p.target_port }

-- A volume of a service, as an input takes it.
unfoldable pub as_input_volume : ServiceVolume → ServiceVolumeInput
as_input_volume v = record {
  volume_id = v.volume_id;
  mount_path = v.mount_path;
  sub_path = v.sub_path;
  read_only = some v.read_only;
}

-- `input === undefined ? existing : input`, where `null` stays
abbrev pub kept {ℓ} : {A : Type ℓ} → Patch A → Option A → Option A
kept absent existing = existing
kept (given value) existing = value

abbrev pub kept_replicas : Patch ℤ → Option ℤ → Option ℤ
kept_replicas absent existing = existing
kept_replicas (given value) existing = some (default_replicas value)

abbrev pub kept_volumes :
    Patch (List ServiceVolumeInput) → List ServiceVolume → List ServiceVolumeInput
kept_volumes absent existing = map as_input_volume existing
kept_volumes (given value) existing = or_else value []

-- What an update builds the resource from.
unfoldable pub merged_input : Text → UpdateServiceInput → Service → ServiceResourceInput
unfolding default_replicas to_service_input_port as_input_volume
merged_input project_id input existing = record {
  project_id = project_id;
  name = or_else input.name existing.name;
  image = or_else input.image existing.image;
  registry_credential_id = kept input.registry_credential_id existing.registry_credential_id;
  replicas = kept_replicas input.replicas existing.replicas;
  command = kept input.command (some existing.command);
  args = kept input.args (some existing.args);
  resources = kept input.resources existing.resources;
  health_check = kept input.health_check existing.health_check;
  ports = or_else input.ports (map to_service_input_port existing.ports);
  env = some (or_else input.env existing.env);
  volumes = given (some (kept_volumes input.volumes existing.volumes));
}

abbrev pub volume_inputs : Patch (List ServiceVolumeInput) → List ServiceVolumeInput
volume_inputs absent = []
volume_inputs (given vs) = or_else vs []

module _ {W : Type 0} (o : Outside W) (enc : Encoding)
    (projects : ResourceApi W (Unit {0}) ProjectResource)
    (secrets : ResourceApi W Text RegistryCredentialResource)
    (claims : ResourceApi W Text VolumeResource)
    (services : ResourceApi W Text ServiceResource) where
  abbrev pub shown : ServiceResource → Result Service
  shown r = to_service o.parse_date o.number_of r

  unfoldable pub find_services : Workspace → Text → ConnectionArgs → Exec W (Connection Service)
  unfolding service_label_selector filter find
  find_services workspace project_id args = do
    let project_name = to_kubernetes_project_name project_id
    ensure_project o projects workspace project_id
    items ← services.list_items project_name (service_label_selector workspace project_name)
    let owned =
        filter (λ r. belongs_to_workspace_and_project r workspace project_name) (or_else items [])
    nodes ← lift (map_results shown owned)
    lift (find o.runtime (some service_connection) args nodes)

  -- the body of the `try` in `findService`
  unfoldable pub found_service : Workspace → Text → ServiceResource → Exec W (Option Service)
  found_service workspace project_name r =
      if belongs_to_workspace_and_project r workspace project_name
      then (do found ← lift (shown r); pure (some found))
      else pure none

  unfoldable pub find_service : Workspace → Text → Text → Exec W (Option Service)
  unfolding found_service null_if_missing
  find_service workspace project_id id = do
    let project_name = to_kubernetes_project_name project_id
    ensure_project o projects workspace project_id
    try_catch
        (do
          r ← services.read project_name (to_kubernetes_service_name id)
          found_service workspace project_name r)
        null_if_missing

  unfoldable pub ensure_registry_credential : Workspace → Text → Option Text → Exec W (Unit {0})
  unfolding units non_empty
  ensure_registry_credential workspace project_id none = pure tt
  ensure_registry_credential workspace project_id (some id) =
      if non_empty id
      then (do
        found ← find_registry_credential o enc projects secrets workspace project_id id
        guard (is_some found) (not_found (units "Registry credential not found")))
      else pure tt

  -- the loop of `ensureVolumes`
  unfoldable pub ensure_each_volume : Workspace → Text → List ServiceVolumeInput → Exec W (Unit {0})
  unfolding units
  ensure_each_volume workspace project_id [] = pure tt
  ensure_each_volume workspace project_id (v ∷ vs) = do
    existing ← find_volume o projects claims workspace project_id v.volume_id
    guard (is_some existing) (not_found (units "Volume not found"))
    ensure_each_volume workspace project_id vs

  unfoldable pub ensure_volumes :
      Workspace → Text → Patch (List ServiceVolumeInput) → Exec W (Unit {0})
  unfolding ensure_each_volume
  ensure_volumes workspace project_id vs =
      ensure_each_volume workspace project_id (volume_inputs vs)

  unfoldable pub create_service : Workspace → ServiceResourceInput → Exec W Service
  create_service workspace input = do
    let project_name = to_kubernetes_project_name input.project_id
    ensure_project o projects workspace input.project_id
    ensure_registry_credential workspace input.project_id input.registry_credential_id
    ensure_volumes workspace input.project_id input.volumes
    id ← o.next_id
    r ←
        services.apply project_name (to_kubernetes_service_name id)
          (build_service_resource workspace project_name (to_kubernetes_service_name id) input)
    lift (shown r)

  unfoldable pub or_not_found : Option Service → Exec W Service
  unfolding units
  or_not_found none = throw (not_found (units "Service not found"))
  or_not_found (some s) = pure s

  unfoldable pub update_service : Workspace → Text → Text → UpdateServiceInput → Exec W Service
  unfolding or_not_found
  update_service workspace project_id id input = do
    let project_name = to_kubernetes_project_name project_id
    found ← find_service workspace project_id id
    existing ← or_not_found found
    ensure_registry_credential workspace project_id
        (kept input.registry_credential_id existing.registry_credential_id)
    ensure_volumes workspace project_id input.volumes
    r ← services.apply project_name (to_kubernetes_service_name id) (
        build_service_resource workspace project_name (to_kubernetes_service_name id)
          (merged_input project_id input existing))
    lift (shown r)

  unfoldable pub delete_service : Workspace → Text → Text → Exec W Service
  unfolding units
  delete_service workspace project_id id = do
    let project_name = to_kubernetes_project_name project_id
    ensure_project o projects workspace project_id
    existing ← services.read project_name (to_kubernetes_service_name id)
    guard (belongs_to_workspace_and_project existing workspace project_name)
        (not_found (units "Service not found"))
    services.delete project_name (to_kubernetes_service_name id)
    lift (shown existing)
