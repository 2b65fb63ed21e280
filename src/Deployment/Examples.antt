-- ===== src/Deployment/Examples.antt =====
-- The theorems on deployments for one resource of a small cluster.
use kudeploy.Prelude.{
  ◌≡◌, ◌↔◌, ◌⊎◌, refl, true, false, Option, none, some, List, [], ◌∷◌, Text, units, or_else,
}
use kudeploy.Prelude.Exec.{ok, Exec}
use kudeploy.Prelude.Int.{pos}
use kudeploy.Connection.Examples.{plain_runtime}
use kudeploy.Kubernetes.Api.{ResourceApi}
use kudeploy.Kubernetes.Dates.{Date}
use kudeploy.Kubernetes.Labels.{owner_labels, value_at}
use kudeploy.Kubernetes.Names.{
  to_kubernetes_project_name, to_kubernetes_service_name, to_kubernetes_workspace_name,
}
use kudeploy.Kubernetes.Runs.{kubernetes_runs}
use kudeploy.Kubernetes.Outside.{Outside}
use kudeploy.Project.{Workspace}
use kudeploy.Deployment.Entity.{DeploymentResource, DeploymentCondition, Deployment}
use kudeploy.Deployment.Times.{to_updated_at, condition_times, IsLatest, to_updated_at-IsLatest}
use kudeploy.Deployment.{ServiceStatus, belongs_to_service, service_label, find_deployment}
use kudeploy.Deployment.Laws.{find_deployment-owned}

abbrev read_time : Text → Date
read_time [] = none
read_time (c ∷ s) = some (pos c)

abbrev condition : Text → DeploymentCondition
condition time = record {
  type = some (units "Ready");
  status = some (units "True");
  reason = none;
  last_transition_time = some time;
}

abbrev conditions : List DeploymentCondition
conditions = condition (units "1") ∷ condition (units "3") ∷ condition (units "2") ∷ []

to_updated_at-IsLatest_example :
    ((condition_times read_time conditions ≡ [])
      × (to_updated_at read_time conditions (pos 7) ≡ pos 7))
    ⊎ IsLatest (to_updated_at read_time conditions (pos 7)) (condition_times read_time conditions)
to_updated_at-IsLatest_example = to_updated_at-IsLatest read_time conditions (pos 7)

abbrev ann : Workspace
ann = record { id = units "1" }

abbrev bob : Workspace
bob = record { id = units "2" }

abbrev resource : DeploymentResource
resource = record {
  name = to_kubernetes_service_name (units "8-1");
  namespace = to_kubernetes_project_name (units "42");
  labels = some (
      (service_label, to_kubernetes_service_name (units "8"))
      ∷ owner_labels (to_kubernetes_workspace_name (units "1"))
          (to_kubernetes_project_name (units "42")));
  creation_timestamp = some (units "1");
  args = none;
  command = none;
  env = none;
  env_from = none;
  image = units "nginx";
  ports = none;
  replicas = some 2;
  limits = none;
  requests = none;
  service_account_name = none;
  service_name = to_kubernetes_service_name (units "8");
  version = 1;
  conditions = some conditions;
  kubernetes_deployment_name = none;
}

abbrev cluster : ResourceApi (Unit {0}) Text DeploymentResource
cluster = record {
  read = λ s name w. (ok resource, w);
  list_items = λ s selector w. (ok (some (resource ∷ [])), w);
  create = λ s body w. (ok body, w);
  apply = λ s name body w. (ok body, w);
  delete = λ s name w. (ok tt, w);
}

abbrev outside : Outside (Unit {0})
outside = record {
  runtime = plain_runtime;
  parse_date = read_time;
  next_id = λ w. (ok (units "9"), w);
  number_of = λ s. none;
}

abbrev status : ServiceStatus
status = record { active_deployment_name = some resource.name; latest_deployment_name = none }

abbrev services : Workspace → Text → Text → Exec (Unit {0}) (Option ServiceStatus)
services ws project_id id w = (ok (some status), w)

runs : Unit {0}
unfolding kubernetes_runs belongs_to_service service_label
runs = tt

belongs_to_service-resource :
    belongs_to_service resource ann
      (to_kubernetes_project_name (units "42"))
      (to_kubernetes_service_name (units "8"))
    ≡ true
unfolding runs
belongs_to_service-resource = refl

value_at-resource :
    value_at resource.labels service_label ≡ some (to_kubernetes_service_name (units "8"))
unfolding runs
value_at-resource = refl

foreign-resource :
    belongs_to_service resource bob
      (to_kubernetes_project_name (units "42"))
      (or_else (value_at resource.labels service_label) [])
    ≡ false
unfolding runs
foreign-resource = refl

find_deployment-owned_example :
    (d : Deployment) × (find_deployment outside cluster services ann (units "42") (units "8-1") tt
      ≡ (ok (some d), tt))
    × (d.id ≡ units "8-1")
    × (d.project_id ≡ units "42")
    × (d.service_id ≡ units "8")
    × ((d.active ≡ true) ↔ (status.active_deployment_name ≡ some resource.name))
    × ((d.latest ≡ true) ↔ (status.latest_deployment_name ≡ some resource.name))
find_deployment-owned_example =
    find_deployment-owned outside cluster services ann (units "42") (units "8-1") tt resource refl
      (units "8") status refl value_at-resource belongs_to_service-resource refl
