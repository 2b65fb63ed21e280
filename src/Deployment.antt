-- ===== src/Deployment.antt =====
-- app/deployment/deployment.service.ts. Deployments belong to a service, of which the service of
-- services tells what is active: a parameter here.
pub mod Entity
pub mod Times
pub mod Laws
mod Examples
use kudeploy.Prelude.{
  ℕ, Bool, true, false, not, ◌&&◌, ◌||◌, Option, none, some, List, [], ◌∷◌, ◌++◌, map, Text, units,
  filter, find, is_value, starts_with, ◌==◌, nat_eq, list_eq, or_else, is_some, if◌then◌else◌, join,
  non_empty,
}
use kudeploy.Prelude.Exec.{
  Result, ok, err, Failure, not_found, Exec, pure, throw, lift, try_catch, map_results, with_result,
  and_then, ◌>>=◌, ◌>>◌,
}
use kudeploy.Connection.Manager.{FieldOptions, ConnectionArgs, Connection}
use kudeploy.Kubernetes.Api.{ResourceApi, null_if_missing}
use kudeploy.Kubernetes.Labels.{
  managed_by_label, managed_by_label_value, workspace_label, project_label, value_at,
}
use kudeploy.Kubernetes.Names.{
  to_kubernetes_project_name, to_kubernetes_service_name, to_kubernetes_workspace_name,
  to_graphql_project_id, to_graphql_service_id,
}
use kudeploy.Kubernetes.Outside.{Outside}
use kudeploy.Project.{Workspace, is_set}
use kudeploy.Deployment.Entity.{
  DeploymentResource, DeploymentCondition, Deployment, DeploymentStatus, pending, progressing,
  ready, failed, unknown, DeploymentResources, EnvFromSource, DeploymentEnvFrom, deployment_entity,
}
use kudeploy.Deployment.Times.{to_valid_date, to_updated_at}

-- What a service tells of its deployments, by their names in the cluster.
pub record ServiceStatus : Type 0 where
  pub active_deployment_name : Option Text
  pub latest_deployment_name : Option Text

unfoldable pub service_label : Text
unfolding units
service_label = units "kudeploy.com/service"

-- `haystack.includes(needle)`
unfoldable pub includes : Text → Text → Bool
includes needle [] = starts_with [] needle
includes needle (c ∷ s) = starts_with (c ∷ s) needle || includes needle s

unfoldable pub status_of_condition : Option DeploymentCondition → DeploymentStatus
unfolding includes units
status_of_condition none = pending
status_of_condition (some c) =
    if is_value c.status (units "True")
    then ready
    else if is_value c.status (units "Unknown")
    then unknown
    else if includes (units "Progress") (or_else c.reason [])
    then progressing
    else failed

unfoldable pub to_deployment_status : DeploymentResource → DeploymentStatus
unfolding status_of_condition find units
to_deployment_status r =
    status_of_condition (find (λ c. is_value c.type (units "Ready")) (or_else r.conditions []))

-- `limits` and `requests`, each with its `cpu` and `memory`
unfoldable pub to_deployment_resources : DeploymentResource → Option DeploymentResources
to_deployment_resources r =
    if is_some r.limits || is_some r.requests
    then some (record {
      cpu_request = (or_else r.requests (none, none)).0;
      cpu_limit = (or_else r.limits (none, none)).0;
      memory_request = (or_else r.requests (none, none)).1;
      memory_limit = (or_else r.limits (none, none)).1;
    })
    else none

source_of : Text → Option Text → Option Text → List DeploymentEnvFrom
source_of kind none prefix = []
source_of kind (some name) prefix =
    if non_empty name then record { kind = kind; name = name; prefix = prefix } ∷ [] else []

unfoldable pub to_deployment_env_from : List EnvFromSource → List DeploymentEnvFrom
unfolding source_of non_empty units
to_deployment_env_from [] = []
to_deployment_env_from (e ∷ es) =
    source_of (units "ConfigMap") e.config_map_name e.prefix
    ++ (source_of (units "Secret") e.secret_name e.prefix ++ to_deployment_env_from es)

unfoldable pub belongs_to_service : DeploymentResource → Workspace → Text → Text → Bool
unfolding value_at
belongs_to_service r workspace project_name service_name =
    r.namespace == project_name
    && is_value (value_at r.labels managed_by_label) managed_by_label_value
    && is_value (value_at r.labels workspace_label) (to_kubernetes_workspace_name workspace.id)
    && is_value (value_at r.labels project_label) project_name
    && is_value (value_at r.labels service_label) service_name

-- deployment.connection-definition.ts
unfoldable pub deployment_connection : List FieldOptions
unfolding units
deployment_connection =
    record { field = units "version"; searchable = false; replacement = none }
    ∷ record { field = units "image"; searchable = true; replacement = none }
    ∷ record { field = units "status"; searchable = false; replacement = none }
    ∷ record { field = units "createdAt"; searchable = false; replacement = none }
    ∷ []

module _ {W : Type 0} (o : Outside W) (deployments : ResourceApi W Text DeploymentResource)
    (find_service : Workspace → Text → Text → Exec W (Option ServiceStatus)) where
  unfoldable pub with_ids : DeploymentResource → ServiceStatus → Text → Text → Text → Deployment
  with_ids r s id project_id service_id = record {
    id = id;
    project_id = project_id;
    service_id = service_id;
    version = r.version;
    image = r.image;
    replicas = r.replicas;
    ports = or_else r.ports [];
    env = or_else r.env [];
    env_from = to_deployment_env_from (or_else r.env_from []);
    command = or_else r.command [];
    args = or_else r.args [];
    resources = to_deployment_resources r;
    service_account_name = r.service_account_name;
    status = to_deployment_status r;
    active = is_value s.active_deployment_name r.name;
    latest = is_value s.latest_deployment_name r.name;
    kubernetes_deployment_name = r.kubernetes_deployment_name;
    created_at = to_valid_date o.parse_date r.creation_timestamp;
    updated_at =
        to_updated_at o.parse_date (or_else r.conditions [])
          (to_valid_date o.parse_date r.creation_timestamp);
  }

  unfoldable pub to_deployment : DeploymentResource → ServiceStatus → Result Deployment
  unfolding with_ids value_at
  to_deployment r s = and_then (to_graphql_service_id r.name) λ id.
      and_then (to_graphql_project_id r.namespace) λ project_id.
        with_result
          (to_graphql_service_id (or_else (value_at r.labels service_label) r.service_name))
          λ service_id. with_ids r s id project_id service_id

  unfoldable pub deployment_label_selector : Workspace → Text → Text → Text
  unfolding join units
  deployment_label_selector workspace project_name service_name = join (units ",") (
      (managed_by_label ++ (units "=" ++ managed_by_label_value))
      ∷ (workspace_label ++ (units "=" ++ to_kubernetes_workspace_name workspace.id))
      ∷ (project_label ++ (units "=" ++ project_name))
      ∷ (service_label ++ (units "=" ++ service_name))
      ∷ [])

  -- the rest of `findDeployments` once the service is known
  listed :
      Workspace
      → Text
      → Text
      → ConnectionArgs
      → Option ServiceStatus
      → Exec W (Connection Deployment)
  unfolding deployment_label_selector filter kudeploy.Connection.Manager.find units
  listed workspace project_name service_name args none =
      throw (not_found (units "Service not found"))
  listed workspace project_name service_name args (some s) = do
    items ←
        deployments.list_items project_name
          (deployment_label_selector workspace project_name service_name)
    let owned =
        filter (λ r. belongs_to_service r workspace project_name service_name) (or_else items [])
    nodes ← lift (map_results (λ r. to_deployment r s) owned)
    lift (kudeploy.Connection.Manager.find o.runtime (some deployment_connection) args nodes)

  unfoldable pub find_deployments :
      Workspace → Text → Text → ConnectionArgs → Exec W (Connection Deployment)
  unfolding listed
  find_deployments workspace project_id service_id args = do
    service ← find_service workspace project_id service_id
    listed workspace (to_kubernetes_project_name project_id) (to_kubernetes_service_name service_id)
        args service

  unfoldable pub with_service :
      DeploymentResource → Option ServiceStatus → Exec W (Option Deployment)
  with_service r none = pure none
  with_service r (some s) = do found ← lift (to_deployment r s); pure (some found)

  unfoldable pub of_service :
      Workspace → Text → DeploymentResource → Text → Exec W (Option Deployment)
  unfolding with_service
  of_service workspace project_id r service_name = do
    service_id ← lift (to_graphql_service_id service_name)
    service ← find_service workspace project_id service_id
    with_service r service

  -- the body of the `try` in `findDeployment`
  unfoldable pub found_deployment :
      Workspace → Text → DeploymentResource → Exec W (Option Deployment)
  unfolding of_service value_at non_empty
  found_deployment workspace project_id r =
      let service_name = or_else (value_at r.labels service_label) [] in
      if non_empty service_name
        && belongs_to_service r workspace (to_kubernetes_project_name project_id) service_name
      then of_service workspace project_id r service_name
      else pure none

  unfoldable pub find_deployment : Workspace → Text → Text → Exec W (Option Deployment)
  unfolding found_deployment null_if_missing
  find_deployment workspace project_id id =
      try_catch
        (do
          r ←
              deployments.read (to_kubernetes_project_name project_id)
                (to_kubernetes_service_name id)
          found_deployment workspace project_id r)
        null_if_missing
