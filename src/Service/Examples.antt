-- ===== src/Service/Examples.antt =====
-- The theorems on services in a small cluster in memory.
use kudeploy.Prelude.{
  ◌≡◌, refl, true, Option, none, some, [], ◌∷◌, Text, units, ◌==◌, nat_eq, list_eq, if◌then◌else◌,
  absent, given, all,
}
use kudeploy.Prelude.Exec.{ok, err, not_found}
use kudeploy.Prelude.Int.{pos}
use kudeploy.Kubernetes.Api.{ResourceApi, IsStore}
use kudeploy.Kubernetes.Memory.{Memory, memory_api, held, memory_api-IsStore}
use kudeploy.Kubernetes.Dates.{Date}
use kudeploy.Kubernetes.Names.{to_kubernetes_service_name}
use kudeploy.Project.{Workspace, find_project, ensure_project}
use kudeploy.Project.Ensuring.{in_project, KeepsProjects}
use kudeploy.Project.Town.{
  Town, ann, bob, shop, shop_name, town_runs, outside, namespaces, shop_with, find_project-shop,
  find_project_beside,
}
use kudeploy.RegistryCredential.Docker.{Encoding}
use kudeploy.RegistryCredential.{RegistryCredentialResource, find_registry_credential}
use kudeploy.RegistryCredential.Lifecycle.{secret_key}
use kudeploy.Volume.{VolumeResource, find_volume}
use kudeploy.Volume.Lifecycle.{claim_name}
use kudeploy.Service.Entity.{
  ServiceResource, Service, ServiceResourceInput, UpdateServiceInput, http,
}
use kudeploy.Service.Building.{build_service_resource, default_replicas}
use kudeploy.Service.{
  belongs_to_workspace_and_project, find_service, create_service, update_service, delete_service,
  ensure_registry_credential, ensure_volumes, ensure_each_volume,
}
use kudeploy.Service.Kept.{KeepsService, built, shown_service}
use kudeploy.Service.Lifecycle.{
  service_key, service_refused, create_service-find_service, create_service-dangling,
}
use kudeploy.Service.Updates.{Updated, update_service-Updated}

abbrev plain : Encoding
plain = record { stringify = λ c. []; parse = λ s. none; to_base64 = λ s. s; of_base64 = λ s. s }

abbrev Held : Type 0
Held =
    Memory Text RegistryCredentialResource
    × Memory Text VolumeResource
    × Memory Text ServiceResource

abbrev dates : Text → Date
dates s = some (pos 5)

abbrev World : Type 0
World = Town Held

abbrev secrets : ResourceApi World Text RegistryCredentialResource
secrets =
    memory_api (λ (w : World). w.1.0) (λ m w. (w.0, (m, w.1.1, w.1.2))) (λ m w. refl) secret_key

abbrev claims : ResourceApi World Text VolumeResource
claims =
    memory_api (λ (w : World). w.1.1) (λ m w. (w.0, (w.1.0, m, w.1.2))) (λ m w. refl) claim_name

abbrev services : ResourceApi World Text ServiceResource
services =
    memory_api (λ (w : World). w.1.2) (λ m w. (w.0, (w.1.0, w.1.1, m))) (λ m w. refl) service_key

abbrev stored : World → Text → Text → Option ServiceResource
stored = held (λ (w : World). w.1.2) (λ m w. (w.0, (w.1.0, w.1.1, m))) (λ m w. refl) service_key

KeepsService-self : (r : ServiceResource) → KeepsService r r
KeepsService-self r = record {
  name = refl;
  namespace = refl;
  labels = λ k v h. h;
  annotations = λ k v h. h;
  image = refl;
  replicas = refl;
  command = refl;
  args = refl;
  resources = refl;
  image_secret_ref = refl;
  ports = refl;
  env = refl;
  readiness_probe = refl;
  volumes = refl;
}

store : IsStore services stored service_key KeepsService
store =
    memory_api-IsStore (λ (w : World). w.1.2) (λ m w. (w.0, (w.1.0, w.1.1, m))) (λ m w. refl)
      service_key KeepsService-self

apart : KeepsProjects outside namespaces services
unfolding memory_api
apart = record {
  created = λ ws id scope body w. find_project_beside ws id w.0 w.1 _;
  applied = λ ws id scope name body w. find_project_beside ws id w.0 w.1 _;
}

abbrev api_input : ServiceResourceInput
api_input = record {
  project_id = units "42";
  name = units "api";
  image = units "nginx";
  registry_credential_id = none;
  replicas = none;
  command = none;
  args = some (units "-v" ∷ []);
  resources = some (record {
    cpu_request = some (units " 100m ");
    cpu_limit = none;
    memory_request = some (units "  ");
    memory_limit = none;
  });
  health_check = some (record { type = http; port = pos 80; path = none });
  ports = record { port = pos 80; target_port = given none } ∷ [];
  env = some ((units "A", units "b") ∷ []);
  volumes = absent;
}

abbrev with_volume : ServiceResourceInput
with_volume = record api_input {
  volumes = given (
      some (
        record {
          volume_id = units "9";
          mount_path = units "/data";
          sub_path = none;
          read_only = none;
        }
        ∷ []));
}

abbrev empty : World
empty = shop_with ([], [], [])

abbrev holding : Workspace → World
holding ws = shop_with (
  [],
  [],
  (shop_name, to_kubernetes_service_name (units "7"), built ws (units "7") api_input) ∷ [],
)

runs : Unit {0}
unfolding town_runs belongs_to_workspace_and_project build_service_resource default_replicas
    ensure_registry_credential ensure_volumes ensure_each_volume all
runs = tt

create_service-find_service_example :
    (r : ServiceResource) × (w : World) × (create_service outside plain namespaces secrets claims
        services ann api_input empty
      ≡ (ok (shown_service dates (units "7") api_input r), w))
    × ((ws : Workspace)
        → find_service outside plain namespaces secrets claims services ws
            (units "42")
            (units "7")
            w
          ≡ (
            in_project (find_project outside namespaces ws (units "42") empty).0 (
                if ann.id == ws.id
                then some (shown_service dates (units "7") api_input r)
                else none),
            w,
          ))
unfolding runs
create_service-find_service_example =
    create_service-find_service outside plain namespaces secrets claims services stored store apart
      ann api_input shop (units "7") empty empty (find_project-shop _) refl refl refl

service_refused_example :
    (find_service outside plain namespaces secrets claims services ann
        (units "42")
        (units "7")
        (holding bob)
      ≡ (ok none, holding bob))
    × ((change : UpdateServiceInput)
        → update_service outside plain namespaces secrets claims services ann
            (units "42")
            (units "7")
            change
            (holding bob)
          ≡ (err (not_found (units "Service not found")), holding bob))
    × (delete_service outside plain namespaces secrets claims services ann
          (units "42")
          (units "7")
          (holding bob)
        ≡ (err (not_found (units "Service not found")), holding bob))
unfolding runs
service_refused_example =
    service_refused outside plain namespaces secrets claims services stored store ann (units "42")
      (units "7") shop (holding bob) (built bob (units "7") api_input) (find_project-shop _) refl
      refl

-- The volume that the input names is not there.
create_service-dangling_example :
    create_service outside plain namespaces secrets claims services ann with_volume empty
    ≡ (err (not_found (units "Volume not found")), empty)
unfolding runs find_volume find_registry_credential ensure_project
create_service-dangling_example =
    create_service-dangling outside plain namespaces secrets claims services ann with_volume shop
      empty (λ id. none) (λ id. none) (find_project-shop _) (λ id. refl) (λ id. refl) refl

-- A new name and no args; all else is kept.
abbrev change : UpdateServiceInput
change = record {
  name = some (units "web");
  image = none;
  registry_credential_id = absent;
  replicas = absent;
  command = absent;
  args = given none;
  resources = absent;
  health_check = absent;
  ports = none;
  env = none;
  volumes = absent;
}

update_service-Updated_example :
    (s : Service) × (r : ServiceResource) × (w : World) × (update_service outside plain namespaces
        secrets claims services ann
        (units "42")
        (units "7")
        change
        (holding ann)
      ≡ (ok s, w))
    × Updated change (shown_service dates (units "7") api_input (built ann (units "7") api_input)) s
    × (stored w shop_name (to_kubernetes_service_name (units "7")) ≡ some r)
    × (belongs_to_workspace_and_project r ann shop_name ≡ true)
unfolding runs
update_service-Updated_example =
    update_service-Updated outside plain namespaces secrets claims services stored store ann
      (units "7") api_input shop change (holding ann) (built ann (units "7") api_input)
      (find_project-shop _) refl (KeepsService-self _) refl refl
