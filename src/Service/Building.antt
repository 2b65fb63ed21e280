-- ===== src/Service/Building.antt =====
-- `buildServiceResource` of service.service.ts and the helpers that it calls.
use kudeploy.Prelude.{
  Bool, true, ◌||◌, Option, none, some, List, [], ◌∷◌, Text, units, map, is_some, or_else,
  non_empty, if◌then◌else◌, Patch, absent, given,
}
use kudeploy.Prelude.Int.{ℤ, pos}
use kudeploy.Prelude.Trimming.{optional}
use kudeploy.Kubernetes.Labels.{display_name_annotation, owner_labels}
use kudeploy.Kubernetes.Names.{
  to_kubernetes_workspace_name, to_kubernetes_registry_credential_name, to_kubernetes_volume_name,
}
use kudeploy.Project.{Workspace}
use kudeploy.Service.Entity.{
  ServiceHealthCheckType, http, tcp, number, ServiceResourceProbe, Quantities,
  ServiceResourceRequirements, ResourceVolume, ServiceResource, ServiceResources,
  ServiceHealthCheck, ServiceVolumeInput, ServiceResourceInput,
}

abbrev pub default_service_replicas : ℤ
default_service_replicas = pos 1

unfoldable pub default_replicas : Option ℤ → ℤ
default_replicas replicas = or_else replicas default_service_replicas

-- `{ cpu, memory }` with what is not blank, if anything is left
abbrev pub quantities_of : Option Text → Option Text → Option Quantities
quantities_of cpu memory =
    if is_some cpu || is_some memory then some (record { cpu = cpu; memory = memory }) else none

abbrev pub requirements_of :
    Option Quantities → Option Quantities → Option ServiceResourceRequirements
requirements_of requests limits =
    if is_some requests || is_some limits
    then some (record { requests = requests; limits = limits })
    else none

unfoldable pub build_resource_requirements :
    Option ServiceResources → Option ServiceResourceRequirements
unfolding optional
build_resource_requirements none = none
build_resource_requirements (some r) =
    requirements_of (quantities_of (optional r.cpu_request) (optional r.memory_request))
      (quantities_of (optional r.cpu_limit) (optional r.memory_limit))

-- `buildProbeAction`, and the limits that the caller adds to it
unfoldable pub action_of : ServiceHealthCheckType → Option Text → ℤ → ℤ → ℤ → ServiceResourceProbe
unfolding optional units
action_of http path port period failures = record {
  http_get =
      some (record { path = some (or_else (optional path) (units "/")); port = number port });
  tcp_socket = none;
  initial_delay_seconds = some (pos 0);
  timeout_seconds = some (pos 3);
  period_seconds = some period;
  success_threshold = some (pos 1);
  failure_threshold = some failures;
}
action_of tcp path port period failures = record {
  http_get = none;
  tcp_socket = some (number port);
  initial_delay_seconds = some (pos 0);
  timeout_seconds = some (pos 3);
  period_seconds = some period;
  success_threshold = some (pos 1);
  failure_threshold = some failures;
}

unfoldable pub build_probe : Option ServiceHealthCheck → ℤ → ℤ → Option ServiceResourceProbe
unfolding action_of
build_probe none period failures = none
build_probe (some h) period failures = some (action_of h.type h.path h.port period failures)

abbrev pub build_readiness_probe : Option ServiceHealthCheck → Option ServiceResourceProbe
build_readiness_probe h = build_probe h (pos 5) (pos 3)

abbrev pub build_liveness_probe : Option ServiceHealthCheck → Option ServiceResourceProbe
build_liveness_probe h = build_probe h (pos 10) (pos 3)

abbrev pub build_startup_probe : Option ServiceHealthCheck → Option ServiceResourceProbe
build_startup_probe h = build_probe h (pos 10) (pos 30)

unfoldable pub image_secret_ref_of : Option Text → Option Text
unfolding non_empty
image_secret_ref_of none = none
image_secret_ref_of (some id) =
    if non_empty id then some (to_kubernetes_registry_credential_name id) else none

-- `list?.length ? { list } : {}`
unfoldable pub if_any : Option (List Text) → Option (List Text)
if_any none = none
if_any (some []) = none
if_any (some (x ∷ xs)) = some (x ∷ xs)

abbrev pub only_true : Option Bool → Option Bool
only_true (some true) = some true
only_true _ = none

unfoldable pub build_volume : ServiceVolumeInput → ResourceVolume
unfolding optional
build_volume v = record {
  name = to_kubernetes_volume_name v.volume_id;
  mount_path = v.mount_path;
  sub_path = optional v.sub_path;
  read_only = only_true v.read_only;
}

unfoldable pub build_volumes : Patch (List ServiceVolumeInput) → Option (List ResourceVolume)
unfolding build_volume
build_volumes absent = none
build_volumes (given vs) = some (map build_volume (or_else vs []))

unfoldable pub build_service_resource :
    Workspace → Text → Text → ServiceResourceInput → ServiceResource
unfolding default_replicas build_resource_requirements build_probe image_secret_ref_of if_any
    build_volumes
build_service_resource workspace project_name name input = record {
  name = name;
  namespace = project_name;
  labels = some (owner_labels (to_kubernetes_workspace_name workspace.id) project_name);
  annotations = some ((display_name_annotation, input.name) ∷ []);
  creation_timestamp = none;
  image = input.image;
  replicas = some (default_replicas input.replicas);
  command = if_any input.command;
  args = if_any input.args;
  resources = build_resource_requirements input.resources;
  image_secret_ref = image_secret_ref_of input.registry_credential_id;
  ports = input.ports;
  env = some (or_else input.env []);
  readiness_probe = build_readiness_probe input.health_check;
  liveness_probe = build_liveness_probe input.health_check;
  startup_probe = build_startup_probe input.health_check;
  volumes = build_volumes input.volumes;
  active_deployment_name = none;
  conditions = none;
  latest_deployment_name = none;
}
