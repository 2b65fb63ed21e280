-- ===== src/Service/Reading.antt =====
-- `toService` of service.service.ts and the helpers that it calls.
use kudeploy.Prelude.{
  false, ◌||◌, Option, none, some, List, [], Text, units, map, is_some, or_else, non_empty,
  if◌then◌else◌, Patch, absent, given, nat_eq, list_eq, find, is_value,
}
use kudeploy.Prelude.Exec.{Result, ok, map_results, with_result, and_then}
use kudeploy.Prelude.Int.{ℤ}
use kudeploy.Kubernetes.Dates.{to_date, Date}
use kudeploy.Kubernetes.Labels.{display_name_annotation, value_at}
use kudeploy.Kubernetes.Names.{
  to_graphql_service_id, to_graphql_project_id, to_graphql_registry_credential_id,
  to_graphql_volume_id, has_kubernetes_registry_credential_name_prefix,
  has_kubernetes_volume_name_prefix,
}
use kudeploy.Service.Entity.{
  ServiceStatus, pending, progressing, ready, failed, unknown, ServiceHealthCheckType, http, tcp,
  PortValue, number, text, HttpGetAction, ServiceResourceProbe, Quantities,
  ServiceResourceRequirements, ServicePortInput, ResourceVolume, ServiceCondition, ServiceResource,
  ServicePort, ServiceResources, ServiceHealthCheck, ServiceVolume, Service,
}

abbrev status_of_condition : Option ServiceCondition → ServiceStatus
status_of_condition none = pending
status_of_condition (some c) =
    if is_value c.status (units "True")
    then ready
    else if is_value c.status (units "False")
    then (if is_value c.reason (units "DeploymentProgressing") then progressing else failed)
    else if is_value c.status (units "Unknown")
    then progressing
    else unknown

unfoldable pub to_service_status : ServiceResource → ServiceStatus
unfolding find units
to_service_status r =
    status_of_condition (find (λ c. is_value c.type (units "Ready")) (or_else r.conditions []))

unfoldable pub to_registry_credential_id : Option Text → Result (Option Text)
unfolding non_empty
to_registry_credential_id none = ok none
to_registry_credential_id (some name) =
    if non_empty name
    then (if has_kubernetes_registry_credential_name_prefix name
        then with_result (to_graphql_registry_credential_id name) (λ id. some id)
        else ok none)
    else ok none

unfoldable pub to_volume_id : Text → Result Text
to_volume_id name =
    if has_kubernetes_volume_name_prefix name then to_graphql_volume_id name else ok name

unfoldable pub to_service_volume : ResourceVolume → Result ServiceVolume
unfolding to_volume_id
to_service_volume v = with_result (to_volume_id v.name) λ id. record {
  volume_id = id;
  mount_path = v.mount_path;
  sub_path = v.sub_path;
  read_only = or_else v.read_only false;
}

-- `value ?? null`
abbrev pub or_null {ℓ} : {A : Type ℓ} → Patch A → Option A
or_null absent = none
or_null (given value) = value

unfoldable pub to_service_port : ServicePortInput → ServicePort
to_service_port p = record { port = p.port; target_port = or_null p.target_port }

abbrev cpu_of : Option Quantities → Option Text
cpu_of none = none
cpu_of (some q) = q.cpu

abbrev memory_of : Option Quantities → Option Text
memory_of none = none
memory_of (some q) = q.memory

abbrev pub if_some : ServiceResources → Option ServiceResources
if_some r =
    if is_some r.cpu_request
      || (is_some r.cpu_limit || (is_some r.memory_request || is_some r.memory_limit))
    then some r
    else none

unfoldable pub to_service_resources : Option ServiceResourceRequirements → Option ServiceResources
to_service_resources none = none
to_service_resources (some r) = if_some (record {
  cpu_request = cpu_of r.requests;
  cpu_limit = cpu_of r.limits;
  memory_request = memory_of r.requests;
  memory_limit = memory_of r.limits;
})

unfoldable pub to_number : (Text → Option ℤ) → PortValue → Option ℤ
to_number number_of (number n) = some n
to_number number_of (text s) = number_of s

abbrev check_of : ServiceHealthCheckType → Option Text → Option ℤ → Option ServiceHealthCheck
check_of type path none = none
check_of type path (some port) = some (record { type = type; port = port; path = path })

abbrev tcp_check : (Text → Option ℤ) → Option PortValue → Option ServiceHealthCheck
tcp_check number_of none = none
tcp_check number_of (some port) = check_of tcp none (to_number number_of port)

abbrev check_of_actions :
    (Text → Option ℤ) → Option HttpGetAction → Option PortValue → Option ServiceHealthCheck
check_of_actions number_of none socket = tcp_check number_of socket
check_of_actions number_of (some get) socket = check_of http get.path (to_number number_of get.port)

unfoldable pub to_service_health_check :
    (Text → Option ℤ) → Option ServiceResourceProbe → Option ServiceHealthCheck
unfolding to_number
to_service_health_check number_of none = none
to_service_health_check number_of (some p) = check_of_actions number_of p.http_get p.tcp_socket

module _ (parse_date : Text → Date) (number_of : Text → Option ℤ) where
  unfoldable pub service_with_ids :
      ServiceResource → Text → Text → Option Text → List ServiceVolume → Service
  unfolding to_service_port to_service_resources to_service_health_check to_service_status
  service_with_ids r id project_id credential volumes = record {
    id = id;
    project_id = project_id;
    name = or_else (value_at r.annotations display_name_annotation) r.name;
    image = r.image;
    registry_credential_id = credential;
    replicas = r.replicas;
    ports = map to_service_port r.ports;
    env = or_else r.env [];
    command = or_else r.command [];
    args = or_else r.args [];
    resources = to_service_resources r.resources;
    health_check = to_service_health_check number_of r.readiness_probe;
    volumes = volumes;
    status = to_service_status r;
    active_deployment_name = r.active_deployment_name;
    latest_deployment_name = r.latest_deployment_name;
    created_at = to_date parse_date r.creation_timestamp;
    updated_at = to_date parse_date r.creation_timestamp;
  }

  unfoldable pub to_service : ServiceResource → Result Service
  unfolding to_registry_credential_id to_service_volume service_with_ids
  to_service r = and_then (to_graphql_service_id r.name) λ id.
      and_then (to_graphql_project_id r.namespace) λ project_id.
        and_then (to_registry_credential_id r.image_secret_ref) λ credential.
          with_result (map_results to_service_volume (or_else r.volumes []))
            λ volumes. service_with_ids r id project_id credential volumes
