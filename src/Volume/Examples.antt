-- ===== src/Volume/Examples.antt =====
-- The theorems on volumes in a small cluster in memory.
use kudeploy.Prelude.{
  ◌≡◌, refl, true, false, Option, none, some, [], ◌∷◌, Text, units, ◌==◌, nat_eq, list_eq,
  if◌then◌else◌,
}
use kudeploy.Prelude.Exec.{ok, err, not_found}
use kudeploy.Prelude.Int.{pos}
use kudeploy.Kubernetes.Api.{ResourceApi, IsStore}
use kudeploy.Kubernetes.Memory.{Memory, unit_eq, memory_api, held, memory_api-IsStore}
use kudeploy.Kubernetes.Names.{to_kubernetes_project_name, to_kubernetes_volume_name}
use kudeploy.Project.{Workspace, find_project}
use kudeploy.Project.Ensuring.{in_project}
use kudeploy.Project.Town.{
  Town, ann, bob, shop, town_runs, outside, namespaces, shop_with, find_project-shop,
  find_project_beside,
}
use kudeploy.Volume.{
  VolumeResource, Volume, CreateVolumeInput, build_volume_resource,
  belongs_to_workspace_and_project, to_volume, to_volume_status, find_volumes, find_volume,
  create_volume, delete_volume,
}
use kudeploy.Volume.Size.{to_volume_size, storage_of, to_volume_size-storage_of}
use kudeploy.Volume.Laws.{KeepsClaim}
use kudeploy.Volume.Lifecycle.{IsApart, claim_name, create_volume-find_volume, volume_refused}

abbrev World : Type 0
World = Town (Memory Text VolumeResource)

abbrev claims : ResourceApi World Text VolumeResource
claims = memory_api (λ (w : World). w.1) (λ m w. (w.0, m)) (λ m w. refl) claim_name

abbrev stored : World → Text → Text → Option VolumeResource
stored = held (λ (w : World). w.1) (λ m w. (w.0, m)) (λ m w. refl) claim_name

KeepsClaim-self : (r : VolumeResource) → KeepsClaim r r
KeepsClaim-self r = record {
  name = refl;
  namespace = refl;
  storage = refl;
  labels = λ k v h. h;
  annotations = λ k v h. h;
}

store : IsStore claims stored claim_name KeepsClaim
store =
    memory_api-IsStore (λ (w : World). w.1) (λ m w. (w.0, m)) (λ m w. refl) claim_name
      KeepsClaim-self

abbrev project_only : World
project_only = shop_with []

abbrev input : CreateVolumeInput
input = record { project_id = units "42"; name = units "data"; size = 10 }

abbrev claim : Workspace → VolumeResource
claim ws =
    build_volume_resource ws (to_kubernetes_project_name (units "42"))
      (to_kubernetes_volume_name (units "7")) input

abbrev holding : Workspace → World
holding ws = (
  (shop_with {X = Memory Text VolumeResource} []).0,
  (to_kubernetes_project_name (units "42"), to_kubernetes_volume_name (units "7"), claim ws) ∷ [],
)

abbrev data_volume : Volume
data_volume = record {
  id = units "7";
  project_id = units "42";
  name = units "data";
  size = 10;
  status = kudeploy.Volume.pending;
  created_at = some (pos 0);
  updated_at = some (pos 0);
}

runs : Unit {0}
unfolding town_runs belongs_to_workspace_and_project build_volume_resource to_volume
    to_volume_status
runs = tt

claim_owned :
    belongs_to_workspace_and_project (claim ann) ann (to_kubernetes_project_name (units "42"))
    ≡ true
unfolding runs
claim_owned = refl

claim_foreign :
    belongs_to_workspace_and_project (claim bob) ann (to_kubernetes_project_name (units "42"))
    ≡ false
unfolding runs
claim_foreign = refl

stored-claim :
    (ws : Workspace)
    → stored
        (holding ws)
        (to_kubernetes_project_name (units "42"))
        (to_kubernetes_volume_name (units "7"))
      ≡ some (claim ws)
unfolding runs
stored-claim ws = refl

to_volume-claim : to_volume outside namespaces claims (claim ann) ≡ ok data_volume
unfolding runs to_volume_size storage_of
to_volume-claim = refl

apart : IsApart outside namespaces claims
unfolding memory_api
apart = record {
  created = λ ws id pn body w. find_project_beside ws id w.0 w.1 _;
  deleted = λ ws id pn name w. find_project_beside ws id w.0 w.1 _;
}

create_volume-find_volume_example :
    (v : Volume) × (w : World) × (create_volume outside namespaces claims ann input project_only
      ≡ (ok v, w))
    × (v.id ≡ units "7")
    × (v.project_id ≡ units "42")
    × (v.name ≡ units "data")
    × (v.size ≡ 10)
    × ((ws : Workspace)
        → find_volume outside namespaces claims ws (units "42") (units "7") w ≡ (
          in_project
              (find_project outside namespaces ws (units "42") project_only).0
              (if ann.id == ws.id then some v else none),
          w,
        ))
unfolding runs
create_volume-find_volume_example =
    create_volume-find_volume outside namespaces claims stored store apart ann input shop
      (units "7") project_only project_only (find_project-shop []) refl refl

volume_refused_example :
    (find_volume outside namespaces claims ann (units "42") (units "7") (holding bob)
      ≡ (ok none, holding bob))
    × (delete_volume outside namespaces claims ann (units "42") (units "7") (holding bob)
        ≡ (err (not_found (units "Volume not found")), holding bob))
volume_refused_example =
    volume_refused outside namespaces claims stored store ann (units "42") (units "7") shop
      (holding bob) (claim bob) (find_project-shop _) (stored-claim bob) claim_foreign

to_volume_size-storage_of_example : to_volume_size (some (storage_of 10)) ≡ 10
to_volume_size-storage_of_example = to_volume_size-storage_of 10
