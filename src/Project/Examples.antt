-- ===== src/Project/Examples.antt =====
-- The theorems on projects in a small cluster in memory.
use kudeploy.Prelude.{◌≡◌, ◌↔◌, refl, true, false, Option, none, some, [], ◌∷◌, Text, units}
use kudeploy.Prelude.Exec.{ok, err, not_found}
use kudeploy.Prelude.Int.{pos}
use kudeploy.Connection.Examples.{plain_runtime}
use kudeploy.Kubernetes.Api.{ResourceApi, IsStore}
use kudeploy.Kubernetes.Memory.{Memory, unit_eq, memory_api, held, memory_api-IsStore}
use kudeploy.Kubernetes.Names.{
  project, to_kubernetes_project_name, to_kubernetes_name, to_graphql_id,
}
use kudeploy.Kubernetes.Names.Laws.{to_graphql_id_iff}
use kudeploy.Kubernetes.Runs.{kubernetes_runs}
use kudeploy.Kubernetes.Outside.{Outside}
use kudeploy.Project.{
  Workspace, ProjectResource, Project, pending, belongs_to_workspace, build_project_resource,
  to_project, find_project, create_project, update_project, delete_project, project_entity,
}
use kudeploy.Project.Laws.{KeepsMetadata}
use kudeploy.Project.Lifecycle.{
  IsFoundBy, create_project-find_project, update_project-find_project, project_refused,
}

abbrev World : Type 0
World = Memory (Unit {0}) ProjectResource

abbrev outside : Outside World
outside = record {
  runtime = plain_runtime;
  parse_date = λ s. some (pos 5);
  next_id = λ w. (ok (units "42"), w);
  number_of = λ s. none;
}

abbrev namespaces : ResourceApi World (Unit {0}) ProjectResource
namespaces = memory_api (λ w. w) (λ m w. m) (λ m w. refl) (λ r. r.name)

abbrev stored : World → Unit {0} → Text → Option ProjectResource
stored = held (λ (w : World). w) (λ m w. m) (λ m w. refl) (λ r. r.name)

KeepsMetadata-self : (r : ProjectResource) → KeepsMetadata r r
KeepsMetadata-self r = record { name = refl; labels = λ k v h. h; annotations = λ k v h. h }

store : IsStore namespaces stored (λ r. r.name) KeepsMetadata
store = memory_api-IsStore (λ w. w) (λ m w. m) (λ m w. refl) (λ r. r.name) KeepsMetadata-self

abbrev ann : Workspace
ann = record { id = units "1" }

abbrev bob : Workspace
bob = record { id = units "2" }

create_project-find_project_example :
    (p : Project) × (w : World) × (create_project outside namespaces ann (units "Shop") []
      ≡ (ok p, w))
    × IsFoundBy outside namespaces stored store ann (units "42") (units "Shop") p w
unfolding memory_api
create_project-find_project_example =
    create_project-find_project outside namespaces stored store ann (units "Shop") (units "42") []
      [] refl refl

abbrev shop : ProjectResource
shop = build_project_resource ann (to_kubernetes_project_name (units "42")) (units "Shop")

abbrev world : World
world = (tt, to_kubernetes_project_name (units "42"), shop) ∷ []

abbrev shop_project : Project
shop_project = record {
  id = units "42";
  name = units "Shop";
  status = pending;
  created_at = some (pos 0);
  updated_at = some (pos 0);
}

-- What the tests below compute with.
runs : Unit {0}
unfolding kubernetes_runs belongs_to_workspace build_project_resource to_project
runs = tt

shop-owned : belongs_to_workspace shop ann ≡ true
unfolding runs
shop-owned = refl

shop-not_owned : belongs_to_workspace shop bob ≡ false
unfolding runs
shop-not_owned = refl

shop-converts : to_project outside namespaces shop ≡ ok shop_project
unfolding runs
shop-converts = refl

shop-stored : stored world tt (to_kubernetes_project_name (units "42")) ≡ some shop
unfolding runs
shop-stored = refl

update_project-find_project_example :
    (p : Project) × (w : World) × (update_project outside namespaces ann
        (units "42")
        (some (units "Store"))
        world
      ≡ (ok p, w))
    × IsFoundBy outside namespaces stored store ann (units "42") (units "Store") p w
update_project-find_project_example =
    update_project-find_project outside namespaces stored store ann (units "42") world shop
      shop-stored (some (units "Store")) shop_project shop-owned shop-converts

project_refused_example :
    (find_project outside namespaces bob (units "42") world ≡ (ok none, world))
    × ((input_name : Option Text)
        → update_project outside namespaces bob (units "42") input_name world
          ≡ (err (not_found (units "Project not found")), world))
    × (delete_project outside namespaces bob (units "42") world
        ≡ (err (not_found (units "Project not found")), world))
project_refused_example =
    project_refused outside namespaces stored store bob (units "42") world shop shop-stored
      shop-not_owned

to_graphql_id_iff_example :
    (to_graphql_id project (to_kubernetes_project_name (units "42")) ≡ ok (units "42"))
    ↔ (to_kubernetes_project_name (units "42") ≡ to_kubernetes_name project (units "42"))
to_graphql_id_iff_example =
    to_graphql_id_iff project (to_kubernetes_project_name (units "42")) (units "42")
