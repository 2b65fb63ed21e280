-- ===== src/Service/Updates.antt =====
-- What an update of a service changes and what it keeps.
use kudeploy.Prelude.{
  ◌≡◌, refl, arith, true, Option, none, some, Text, List, nat_eq, list_eq, [], map, or_else, Patch,
  absent, given, ==-self,
}
use kudeploy.Prelude.Exec.{ok}
use kudeploy.Prelude.Int.{ℤ}
use kudeploy.Kubernetes.Api.{ResourceApi, IsStore}
use kudeploy.Kubernetes.Names.{to_kubernetes_project_name, to_kubernetes_service_name}
use kudeploy.Kubernetes.Outside.{Outside}
use kudeploy.Project.{Workspace, ProjectResource, Project, find_project}
use kudeploy.RegistryCredential.Docker.{Encoding}
use kudeploy.RegistryCredential.{RegistryCredentialResource}
use kudeploy.Volume.{VolumeResource}
use kudeploy.Service.Entity.{
  ServiceResource, Service, ServiceResourceInput, UpdateServiceInput, ServiceVolumeInput,
  ServicePortInput,
}
use kudeploy.Service.Building.{default_replicas}
use kudeploy.Service.Reading.{to_service_port}
use kudeploy.Service.{
  belongs_to_workspace_and_project, update_service, or_not_found, ensure_registry_credential,
  ensure_volumes, merged_input, kept, kept_replicas, kept_volumes, to_service_input_port,
}
use kudeploy.Service.Kept.{KeepsService, built, shown_service, belongs_of_built, to_service-built}
use kudeploy.Service.Lifecycle.{service_key, find_service-stored}
use kudeploy.Service.Normal.{
  normal_credential, normal_resources, normal_check, normal_volume, normal_credential_idem,
  normal_resources_idem, normal_check_idem, map-normal_volume, map-to_service_port,
}

-- A field after an update: as before if the input leaves it out, and otherwise what the input gives.
abbrev pub after {ℓ κ} : {A : Type ℓ} {B : Type κ} → (Option A → B) → Patch A → B → B
after of absent before = before
after of (given value) before = of value

abbrev pub after_some {ℓ κ} : {A : Type ℓ} {B : Type κ} → (A → B) → Option A → B → B
after_some of none before = before
after_some of (some value) before = of value

-- What a service shows after an update, the status and the dates aside.
pub record Updated (input : UpdateServiceInput) (s s' : Service) : Type 0 where
  pub id : s'.id ≡ s.id
  pub project_id : s'.project_id ≡ s.project_id
  pub name : s'.name ≡ or_else input.name s.name
  pub image : s'.image ≡ or_else input.image s.image
  pub registry_credential_id :
      s'.registry_credential_id
      ≡ after normal_credential input.registry_credential_id s.registry_credential_id
  pub replicas : s'.replicas ≡ after (λ n. some (default_replicas n)) input.replicas s.replicas
  pub command : s'.command ≡ after (λ c. or_else c []) input.command s.command
  pub args : s'.args ≡ after (λ a. or_else a []) input.args s.args
  pub resources : s'.resources ≡ after normal_resources input.resources s.resources
  pub health_check : s'.health_check ≡ after normal_check input.health_check s.health_check
  pub ports : s'.ports ≡ after_some (map to_service_port) input.ports s.ports
  pub env : s'.env ≡ or_else input.env s.env
  pub volumes : s'.volumes ≡ after (λ v. map normal_volume (or_else v [])) input.volumes s.volumes

kept_normal :
    {A B : Type 0} (of : Option A → B) (back : B → Option A) (patch : Patch A) (before : B)
    → of (back before) ≡ before
    → of (kept patch (back before)) ≡ after of patch before
kept_normal of back absent before e = e
kept_normal of back (given value) before e = refl

replicas_after :
    (patch : Patch ℤ) (n : ℤ)
    → some (default_replicas (kept_replicas patch (some n)))
      ≡ after (λ (m : Option ℤ). some (default_replicas m)) patch (some n)
unfolding default_replicas
replicas_after absent n = refl
replicas_after (given value) n = refl

ports_after :
    (patch : Option (List ServicePortInput)) (ps : List ServicePortInput)
    → map to_service_port (or_else patch (map to_service_input_port (map to_service_port ps)))
      ≡ after_some (map to_service_port) patch (map to_service_port ps)
ports_after none ps = map-to_service_port ps
ports_after (some value) ps = refl

volumes_after :
    (patch : Patch (List ServiceVolumeInput)) (vs : List ServiceVolumeInput)
    → map normal_volume (kept_volumes patch (map normal_volume vs))
      ≡ after
          (λ (v : Option (List ServiceVolumeInput)). map normal_volume (or_else v []))
          patch
          (map normal_volume vs)
volumes_after absent vs = map-normal_volume vs
volumes_after (given value) vs = refl

shown-Updated :
    (parse_date : Text → _) (id : Text) (old : ServiceResourceInput) (input : UpdateServiceInput)
    (r r' : ServiceResource)
    → Updated input (shown_service parse_date id old r) (
        shown_service parse_date id
          (merged_input old.project_id input (shown_service parse_date id old r))
          r')
unfolding merged_input
shown-Updated parse_date id old input r r' = record {
  id = refl;
  project_id = refl;
  name = refl;
  image = refl;
  registry_credential_id =
      kept_normal normal_credential (λ x. x) input.registry_credential_id
        (normal_credential old.registry_credential_id)
        (normal_credential_idem old.registry_credential_id);
  replicas = replicas_after input.replicas _;
  command = kept_normal (λ c. or_else c []) some input.command (or_else old.command []) refl;
  args = kept_normal (λ c. or_else c []) some input.args (or_else old.args []) refl;
  resources =
      kept_normal normal_resources (λ x. x) input.resources (normal_resources old.resources)
        (normal_resources_idem old.resources);
  health_check =
      kept_normal normal_check (λ x. x) input.health_check (normal_check old.health_check)
        (normal_check_idem old.health_check);
  ports = ports_after input.ports old.ports;
  env = refl;
  volumes = volumes_after input.volumes _;
}

module _ {W : Type 0} (o : Outside W) (enc : Encoding)
    (projects : ResourceApi W (Unit {0}) ProjectResource)
    (secrets : ResourceApi W Text RegistryCredentialResource)
    (claims : ResourceApi W Text VolumeResource) (services : ResourceApi W Text ServiceResource)
    (stored : W → Text → Text → Option ServiceResource)
    (store : IsStore services stored service_key KeepsService) where
  -- An update of a service that was built from an input changes what the update gives, in normal
  -- form, and keeps every field that it leaves out; the new resource is stored under the same name
  -- and belongs to the same workspace.
  pub update_service-Updated :
      (ws : Workspace) (id : Text) (old : ServiceResourceInput) (p : Project)
      (input : UpdateServiceInput) (w : W) (r : ServiceResource)
      → find_project o projects ws old.project_id w ≡ (ok (some p), w)
      → stored w (to_kubernetes_project_name old.project_id) (to_kubernetes_service_name id)
        ≡ some r
      → KeepsService (built ws id old) r
      → ensure_registry_credential o enc projects secrets claims services ws old.project_id
          (kept input.registry_credential_id (normal_credential old.registry_credential_id))
          w
        ≡ (ok tt, w)
      → ensure_volumes o enc projects secrets claims services ws old.project_id input.volumes w
        ≡ (ok tt, w)
      → (s' : Service) × (r' : ServiceResource) × (w' : W) × (update_service o enc projects secrets
            claims services ws old.project_id id input w
          ≡ (ok s', w'))
        × Updated input (shown_service o.parse_date id old r) s'
        × (stored w' (to_kubernetes_project_name old.project_id) (to_kubernetes_service_name id)
            ≡ some r')
        × (belongs_to_workspace_and_project r' ws (to_kubernetes_project_name old.project_id)
            ≡ true)
  unfolding update_service or_not_found merged_input
  update_service-Updated ws id old p input w r f h k c v =
      let pn = to_kubernetes_project_name old.project_id in
      let s = shown_service o.parse_date id old r in
      let new = merged_input old.project_id input s in
      let owner : belongs_to_workspace_and_project r ws pn ≡ true = ground (
        arith,
        belongs_of_built ws id old k ws old.project_id,
        ==-self old.project_id,
        ==-self ws.id,
      ) in
      let found =
        find_service-stored o enc projects secrets claims services stored store ws old.project_id id
          w r s (ok (some p)) f h (to_service-built ws id old k o.parse_date o.number_of) in
      let (r', w', made, k', h') =
        store.applied pn (to_kubernetes_service_name id) (built ws id new) w in
      (
        shown_service o.parse_date id new r',
        r',
        w',
        rw (found, owner, c, v, made, to_service-built ws id new k' o.parse_date o.number_of) refl,
        shown-Updated o.parse_date id old input r r',
        h',
        ground (
          arith,
          belongs_of_built ws id new k' ws old.project_id,
          ==-self old.project_id,
          ==-self ws.id,
        ),
      )
