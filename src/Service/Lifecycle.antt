-- ===== src/Service/Lifecycle.antt =====
-- Creating, reading and refusing services in a cluster that keeps what it is given.
use kudeploy.Prelude.{
  ◌≡◌, refl, arith, true, false, ◌&&◌, Bool, Option, none, some, Text, List, units, ◌==◌, nat_eq,
  list_eq, Bool-cases, inl, inr, if◌then◌else◌, [], ◌∷◌, ==-self, all, is_some, non_empty,
}
use kudeploy.Prelude.Exec.{Result, ok, err, not_found}
use kudeploy.Kubernetes.Api.{ResourceApi, IsStore}
use kudeploy.Kubernetes.Names.{to_kubernetes_project_name, to_kubernetes_service_name}
use kudeploy.Kubernetes.Outside.{Outside}
use kudeploy.Project.{Workspace, ProjectResource, Project, find_project, ensure_project}
use kudeploy.Project.Ensuring.{in_project, ensured, KeepsProjects}
use kudeploy.RegistryCredential.Docker.{Encoding}
use kudeploy.RegistryCredential.{
  RegistryCredentialResource, RegistryCredential, find_registry_credential,
}
use kudeploy.Volume.{VolumeResource, Volume, find_volume}
use kudeploy.Service.Entity.{
  ServiceResource, Service, ServiceResourceInput, UpdateServiceInput, ServiceVolumeInput,
}
use kudeploy.Service.{
  belongs_to_workspace_and_project, find_service, found_service, create_service, update_service,
  or_not_found, delete_service, ensure_registry_credential, ensure_volumes, ensure_each_volume,
  volume_inputs, shown,
}
use kudeploy.Service.Kept.{KeepsService, built, shown_service, belongs_of_built, to_service-built}

-- the name under which a service is stored
abbrev pub service_key : ServiceResource → Text
service_key r = r.name

-- Whether the credential that an input names, if any, is found.
abbrev pub is_there : (Text → Option RegistryCredential) → Option Text → Bool
is_there seen none = true
is_there seen (some id) = if non_empty id then is_some (seen id) else true

module _ {W : Type 0} (o : Outside W) (enc : Encoding)
    (projects : ResourceApi W (Unit {0}) ProjectResource)
    (secrets : ResourceApi W Text RegistryCredentialResource)
    (claims : ResourceApi W Text VolumeResource)
    (services : ResourceApi W Text ServiceResource) where
  ensure_each_volume-all :
      (ws : Workspace) (project_id : Text) (w : W) (seen : Text → Option Volume)
      → ((id : Text) → find_volume o projects claims ws project_id id w ≡ (ok (seen id), w))
      → (vs : List ServiceVolumeInput)
      → ensure_each_volume o enc projects secrets claims services ws project_id vs w ≡ (
        if all (λ v. is_some (seen v.volume_id)) vs
            then ok tt
            else err (not_found (units "Volume not found")),
        w,
      )
  unfolding ensure_each_volume all units
  ensure_each_volume-all ws project_id w seen h [] = refl
  ensure_each_volume-all ws project_id w seen h (v ∷ vs) =
      elim (Bool-cases (is_some (seen v.volume_id))) [
        | inl e ↦ rw (h v.volume_id, e) (ensure_each_volume-all ws project_id w seen h vs)
        | inr e ↦ rw (h v.volume_id, e) refl
      ]

  ensure_registry_credential-is_there :
      (ws : Workspace) (project_id : Text) (w : W) (seen : Text → Option RegistryCredential)
      → ((id : Text)
          → find_registry_credential o enc projects secrets ws project_id id w ≡ (ok (seen id), w))
      → (id : Option Text)
      → ensure_registry_credential o enc projects secrets claims services ws project_id id w ≡ (
        if is_there seen id then ok tt else err (not_found (units "Registry credential not found")),
        w,
      )
  unfolding ensure_registry_credential units
  ensure_registry_credential-is_there ws project_id w seen h none = refl
  ensure_registry_credential-is_there ws project_id w seen h (some id) =
      elim (Bool-cases (non_empty id)) [
        | inr e ↦ rw e refl
        | inl e ↦ elim (Bool-cases (is_some (seen id))) [
          | inl f ↦ rw (e, h id, f) refl
          | inr f ↦ rw (e, h id, f) refl
        ]
      ]

  -- A service is not created, and nothing is written, if its workspace does not find the credential
  -- that the input names in the project, or one of the volumes.
  pub create_service-dangling :
      (ws : Workspace) (input : ServiceResourceInput) (p : Project) (w : W)
      (credentials : Text → Option RegistryCredential) (volumes : Text → Option Volume)
      → find_project o projects ws input.project_id w ≡ (ok (some p), w)
      → ((id : Text)
          → find_registry_credential o enc projects secrets ws input.project_id id w
            ≡ (ok (credentials id), w))
      → ((id : Text)
          → find_volume o projects claims ws input.project_id id w ≡ (ok (volumes id), w))
      → (is_there credentials input.registry_credential_id
          && all (λ v. is_some (volumes v.volume_id)) (volume_inputs input.volumes))
        ≡ false
      → create_service o enc projects secrets claims services ws input w ≡ (
        err (
            not_found (
              if is_there credentials input.registry_credential_id
              then units "Volume not found"
              else units "Registry credential not found")),
        w,
      )
  unfolding create_service ensure_volumes
  create_service-dangling ws input p w credentials volumes f c h dangling =
      let credential =
        ensure_registry_credential-is_there ws input.project_id w credentials c
          input.registry_credential_id in
      let each =
        ensure_each_volume-all ws input.project_id w volumes h (volume_inputs input.volumes) in
      elim (Bool-cases (is_there credentials input.registry_credential_id)) [
        | inr e ↦ rw (ensured o projects ws input.project_id p w f, credential, e) refl
        | inl e ↦
            let gone : all (λ v. is_some (volumes v.volume_id)) (volume_inputs input.volumes)
                ≡ false =
              rw e at dangling in
            rw (ensured o projects ws input.project_id p w f, credential, e, each, gone) refl
      ]

  module _ (stored : W → Text → Text → Option ServiceResource)
      (store : IsStore services stored service_key KeepsService) where
    pub find_service-stored :
        (ws : Workspace) (project_id id : Text) (w : W) (r : ServiceResource) (s : Service)
        (seen : Result (Option Project))
        → find_project o projects ws project_id w ≡ (seen, w)
        → stored w (to_kubernetes_project_name project_id) (to_kubernetes_service_name id) ≡ some r
        → shown o enc projects secrets claims services r ≡ ok s
        → find_service o enc projects secrets claims services ws project_id id w ≡ (
          in_project seen (
              if belongs_to_workspace_and_project r ws (to_kubernetes_project_name project_id)
              then some s
              else none),
          w,
        )
    unfolding find_service found_service ensure_project
    find_service-stored ws project_id id w r s (err e) f h t = rw f refl
    find_service-stored ws project_id id w r s (ok none) f h t = rw f refl
    find_service-stored ws project_id id w r s (ok (some p)) f h t =
        let pn = to_kubernetes_project_name project_id in
        let read = store.read_found pn (to_kubernetes_service_name id) w r h in
        elim (Bool-cases (belongs_to_workspace_and_project r ws pn)) [
          | inl b ↦ rw (f, read, b, t) refl
          | inr b ↦ rw (f, read, b) refl
        ]

    -- A resource that is not this workspace's service in this project is neither shown, changed
    -- nor deleted.
    pub service_refused :
        (ws : Workspace) (project_id id : Text) (p : Project) (w : W) (r : ServiceResource)
        → find_project o projects ws project_id w ≡ (ok (some p), w)
        → stored w (to_kubernetes_project_name project_id) (to_kubernetes_service_name id) ≡ some r
        → belongs_to_workspace_and_project r ws (to_kubernetes_project_name project_id) ≡ false
        → (find_service o enc projects secrets claims services ws project_id id w ≡ (ok none, w))
          × ((input : UpdateServiceInput)
              → update_service o enc projects secrets claims services ws project_id id input w
                ≡ (err (not_found (units "Service not found")), w))
          × (delete_service o enc projects secrets claims services ws project_id id w
              ≡ (err (not_found (units "Service not found")), w))
    unfolding find_service found_service update_service or_not_found delete_service units
    service_refused ws project_id id p w r f h b =
        let read =
          store.read_found (to_kubernetes_project_name project_id) (to_kubernetes_service_name id) w
            r h in
        let there = ensured o projects ws project_id p w f in
        (rw (there, read, b) refl, λ input. rw (there, read, b) refl, rw (there, read, b) refl)

    -- A service that is created is shown as the input asks, in normal form; under its id its
    -- workspace finds it, and no other does.
    pub create_service-find_service :
        (apart : KeepsProjects o projects services) (ws : Workspace) (input : ServiceResourceInput)
        (p : Project) (id : Text) (w w' : W)
        → find_project o projects ws input.project_id w ≡ (ok (some p), w)
        → ensure_registry_credential o enc projects secrets claims services ws input.project_id
            input.registry_credential_id w
          ≡ (ok tt, w)
        → ensure_volumes o enc projects secrets claims services ws input.project_id input.volumes w
          ≡ (ok tt, w)
        → o.next_id w ≡ (ok id, w')
        → (r : ServiceResource) × (w'' : W) × (create_service o enc projects secrets claims services
              ws input w
            ≡ (ok (shown_service o.parse_date id input r), w''))
          × ((ws' : Workspace)
              → find_service o enc projects secrets claims services ws' input.project_id id w'' ≡ (
                in_project (find_project o projects ws' input.project_id w').0 (
                    if ws.id == ws'.id then some (shown_service o.parse_date id input r) else none),
                w'',
              ))
    unfolding create_service
    create_service-find_service apart ws input p id w w' f c v next =
        let pn = to_kubernetes_project_name input.project_id in
        let (r, w'', made, kept, s) =
          store.applied pn (to_kubernetes_service_name id) (built ws id input) w' in
        let e = to_service-built ws id input kept o.parse_date o.number_of in
        (
          r,
          w'',
          rw (ensured o projects ws input.project_id p w f, c, v, next, made, e) refl,
          λ ws'.
              let owner : belongs_to_workspace_and_project r ws' pn ≡ (ws.id == ws'.id) = ground (
                arith,
                belongs_of_built ws id input kept ws' input.project_id,
                ==-self input.project_id,
              ) in
              rw owner at (
                find_service-stored ws' input.project_id id w'' r _
                  (find_project o projects ws' input.project_id w').0
                  (rw made at (
                    apart.applied ws' input.project_id pn (to_kubernetes_service_name id)
                      (built ws id input) w'))
                  s e),
        )
