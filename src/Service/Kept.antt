-- ===== src/Service/Kept.antt =====
-- Who owns a service, and what a resource that was built for one is shown as.
use kudeploy.Prelude.{
  ◌≡◌, refl, ◌==◌, ◌&&◌, Option, some, List, [], map, Text, or_else, Patch, absent, given, nat_eq,
  list_eq, ==-self, dict_get, arith,
}
use kudeploy.Prelude.Exec.{ok, map_results}
use kudeploy.Prelude.Int.{ℤ, pos}
use kudeploy.Kubernetes.Dates.{to_date, Date}
use kudeploy.Kubernetes.Labels.{
  managed_by_label, managed_by_label_value, workspace_label, project_label, display_name_annotation,
  value_at, owner_labels, owner_labels-managed_by, owner_labels-workspace, owner_labels-project,
}
use kudeploy.Kubernetes.Names.{
  workspace, project, service, to_kubernetes_project_name, to_kubernetes_service_name,
  to_kubernetes_workspace_name,
}
use kudeploy.Kubernetes.Names.Laws.{to_graphql_id-name, has_name_prefix-name, to_kubernetes_name-==}
use kudeploy.Project.{Workspace}
use kudeploy.Service.Entity.{Service, ServiceResource, ServiceResourceInput, ServiceVolumeInput}
use kudeploy.Service.Building.{build_service_resource, default_replicas, build_volumes}
use kudeploy.Service.Reading.{to_service, to_service_port, to_service_status, to_service_volume}
use kudeploy.Service.{belongs_to_workspace_and_project, volume_inputs}
use kudeploy.Service.Normal.{
  normal_credential, normal_resources, normal_check, normal_volume,
  to_registry_credential_id-image_secret_ref_of, to_service_resources-build_resource_requirements,
  to_service_health_check-build_probe, or_else-if_any, map_results-build_volume,
}

-- The parts of a body that the cluster keeps: its place, its labels and annotations, its spec.
pub record KeepsService (body r : ServiceResource) : Type 0 where
  pub name : r.name ≡ body.name
  pub namespace : r.namespace ≡ body.namespace
  pub labels :
      (key value : Text)
      → value_at body.labels key ≡ some value
      → value_at r.labels key ≡ some value
  pub annotations :
      (key value : Text)
      → value_at body.annotations key ≡ some value
      → value_at r.annotations key ≡ some value
  pub image : r.image ≡ body.image
  pub replicas : r.replicas ≡ body.replicas
  pub command : r.command ≡ body.command
  pub args : r.args ≡ body.args
  pub resources : r.resources ≡ body.resources
  pub image_secret_ref : r.image_secret_ref ≡ body.image_secret_ref
  pub ports : r.ports ≡ body.ports
  pub env : r.env ≡ body.env
  pub readiness_probe : r.readiness_probe ≡ body.readiness_probe
  pub volumes : r.volumes ≡ body.volumes

abbrev pub built : Workspace → Text → ServiceResourceInput → ServiceResource
built ws id input =
    build_service_resource ws (to_kubernetes_project_name input.project_id)
      (to_kubernetes_service_name id) input

-- What an input asks for, as it is shown; the status and the dates are the resource's.
abbrev pub shown_service : (Text → Date) → Text → ServiceResourceInput → ServiceResource → Service
shown_service parse_date id input r = record {
  id = id;
  project_id = input.project_id;
  name = input.name;
  image = input.image;
  registry_credential_id = normal_credential input.registry_credential_id;
  replicas = some (default_replicas input.replicas);
  ports = map to_service_port input.ports;
  env = or_else input.env [];
  command = or_else input.command [];
  args = or_else input.args [];
  resources = normal_resources input.resources;
  health_check = normal_check input.health_check;
  volumes = map normal_volume (volume_inputs input.volumes);
  status = to_service_status r;
  active_deployment_name = r.active_deployment_name;
  latest_deployment_name = r.latest_deployment_name;
  created_at = to_date parse_date r.creation_timestamp;
  updated_at = to_date parse_date r.creation_timestamp;
}

map_results-build_volumes :
    (vs : Patch (List ServiceVolumeInput))
    → map_results to_service_volume (or_else (build_volumes vs) [])
      ≡ ok (map normal_volume (volume_inputs vs))
unfolding build_volumes
map_results-build_volumes absent = unfold map_results in refl
map_results-build_volumes (given vs) = map_results-build_volume (or_else vs [])

module _ (ws : Workspace) (id : Text) (input : ServiceResourceInput) {r : ServiceResource}
    (k : KeepsService (built ws id input) r) where
  service_label :
      (key value : Text)
      → dict_get key (
          owner_labels
            (to_kubernetes_workspace_name ws.id)
            (to_kubernetes_project_name input.project_id))
        ≡ some value
      → value_at r.labels key ≡ some value
  unfolding build_service_resource value_at
  service_label key value e = k.labels key value e

  kept_name : r.name ≡ to_kubernetes_service_name id
  unfolding build_service_resource
  kept_name = k.name

  kept_namespace : r.namespace ≡ to_kubernetes_project_name input.project_id
  unfolding build_service_resource
  kept_namespace = k.namespace

  kept_display_name : value_at r.annotations display_name_annotation ≡ some input.name
  unfolding build_service_resource value_at dict_get
  kept_display_name =
      k.annotations display_name_annotation input.name (rw (==-self display_name_annotation) refl)

  -- A resource that was built for a workspace and a project is accepted for those alone.
  pub belongs_of_built :
      (ws' : Workspace) (project_id : Text)
      → belongs_to_workspace_and_project r ws' (to_kubernetes_project_name project_id)
        ≡ (ws.id == ws'.id && input.project_id == project_id)
  unfolding belongs_to_workspace_and_project
  belongs_of_built ws' project_id =
      let wsn = to_kubernetes_workspace_name ws.id in
      let pn = to_kubernetes_project_name input.project_id in
      let managed = service_label managed_by_label _ (owner_labels-managed_by wsn pn) in
      let of_workspace = service_label workspace_label _ (owner_labels-workspace wsn pn) in
      let of_project = service_label project_label _ (owner_labels-project wsn pn) in
      rw
        (
          managed,
          of_workspace,
          of_project,
          kept_name,
          kept_namespace,
          has_name_prefix-name service id,
          ==-self managed_by_label_value,
          to_kubernetes_name-== workspace ws.id ws'.id,
          to_kubernetes_name-== project input.project_id project_id,
        )
        (ground arith)

  -- A resource that was built from an input is shown as the input asks, in normal form.
  pub to_service-built :
      (parse_date : Text → Date) (number_of : Text → Option ℤ)
      → to_service parse_date number_of r ≡ ok (shown_service parse_date id input r)
  unfolding to_service build_service_resource
  to_service-built parse_date number_of =
      rw
        (
          kept_name,
          kept_namespace,
          kept_display_name,
          k.image,
          k.replicas,
          k.command,
          k.args,
          k.resources,
          k.image_secret_ref,
          k.ports,
          k.env,
          k.readiness_probe,
          k.volumes,
          to_graphql_id-name service id,
          to_graphql_id-name project input.project_id,
          to_registry_credential_id-image_secret_ref_of input.registry_credential_id,
          map_results-build_volumes input.volumes,
          or_else-if_any input.command,
          or_else-if_any input.args,
          to_service_resources-build_resource_requirements input.resources,
          to_service_health_check-build_probe number_of input.health_check (pos 5) (pos 3),
        )
        refl
