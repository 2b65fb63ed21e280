-- ===== src/Volume/Lifecycle.antt =====
-- Creating, reading and deleting volumes in a cluster that keeps what it is given.
use kudeploy.Prelude.{
  ◌≡◌, refl, ap, sym, ◌∙◌, arith, true, false, Option, none, some, Text, units, ◌==◌, nat_eq,
  list_eq, Bool-cases, inl, inr, if◌then◌else◌, or_else, [], ==-self,
}
use kudeploy.Prelude.Exec.{Result, ok, err, not_found}
use kudeploy.Kubernetes.Api.{
  ResourceApi, IsStore, is_not_found_error, null_if_missing, not_found_if_missing,
}
use kudeploy.Kubernetes.Names.{to_kubernetes_project_name, to_kubernetes_volume_name}
use kudeploy.Kubernetes.Outside.{Outside}
use kudeploy.Connection.Manager.{ConnectionArgs}
use kudeploy.Project.{Workspace, ProjectResource, Project, find_project, ensure_project}
use kudeploy.Project.Ensuring.{in_project, ensured, missing}
use kudeploy.Volume.{
  VolumeResource, Volume, CreateVolumeInput, belongs_to_workspace_and_project,
  build_volume_resource, to_volume, find_volumes, find_volume, create_volume, delete_volume,
  get_owned_volume, owned_volume, found_volume,
}
use kudeploy.Volume.Laws.{KeepsClaim, belongs_of_claim, to_volume_of_claim}

-- the name under which a claim is stored
abbrev pub claim_name : VolumeResource → Text
claim_name r = or_else r.name []

claim_name_of_build :
    (ws : Workspace) (project_name name : Text) (input : CreateVolumeInput)
    → claim_name (build_volume_resource ws project_name name input) ≡ name
unfolding build_volume_resource
claim_name_of_build ws project_name name input = refl

module _ {W : Type 0} (o : Outside W) (projects : ResourceApi W (Unit {0}) ProjectResource)
    (volumes : ResourceApi W Text VolumeResource) where
  -- A write of a claim leaves the projects as they are.
  pub record IsApart : Type 0 where
    pub created :
        (ws : Workspace) (id project_name : Text) (body : VolumeResource) (w : W)
        → find_project o projects ws id (volumes.create project_name body w).1
          ≡ ((find_project o projects ws id w).0, (volumes.create project_name body w).1)
    pub deleted :
        (ws : Workspace) (id project_name name : Text) (w : W)
        → find_project o projects ws id (volumes.delete project_name name w).1
          ≡ ((find_project o projects ws id w).0, (volumes.delete project_name name w).1)

  -- Without the project, as its workspace sees it, no operation on volumes touches the cluster.
  pub volume_without_project :
      (ws : Workspace) (project_id : Text) (w : W)
      → find_project o projects ws project_id w ≡ (ok none, w)
      → ((args : ConnectionArgs)
          → find_volumes o projects volumes ws project_id args w
            ≡ (err (not_found (units "Project not found")), w))
        × ((id : Text)
            → (find_volume o projects volumes ws project_id id w
                ≡ (err (not_found (units "Project not found")), w))
              × (delete_volume o projects volumes ws project_id id w
                  ≡ (err (not_found (units "Project not found")), w)))
        × ((name : Text) (size : _)
            → create_volume o projects volumes ws
                (record { project_id = project_id; name = name; size = size })
                w
              ≡ (err (not_found (units "Project not found")), w))
  unfolding find_volumes find_volume delete_volume create_volume
  volume_without_project ws project_id w f = (
    λ args. rw (missing o projects ws project_id w f) refl,
    λ id. (
      rw (missing o projects ws project_id w f) refl,
      rw (missing o projects ws project_id w f) refl,
    ),
    λ name size. rw (missing o projects ws project_id w f) refl,
  )

  module _ (stored : W → Text → Text → Option VolumeResource)
      (store : IsStore volumes stored claim_name KeepsClaim) where
    find_volume-stored :
        (ws : Workspace) (project_id id : Text) (w : W) (r : VolumeResource) (v : Volume)
        (seen : Result (Option Project))
        → find_project o projects ws project_id w ≡ (seen, w)
        → stored w (to_kubernetes_project_name project_id) (to_kubernetes_volume_name id) ≡ some r
        → to_volume o projects volumes r ≡ ok v
        → find_volume o projects volumes ws project_id id w ≡ (
          in_project seen (
              if belongs_to_workspace_and_project r ws (to_kubernetes_project_name project_id)
              then some v
              else none),
          w,
        )
    unfolding find_volume found_volume ensure_project
    find_volume-stored ws project_id id w r v (err e) f s c = rw f refl
    find_volume-stored ws project_id id w r v (ok none) f s c = rw f refl
    find_volume-stored ws project_id id w r v (ok (some p)) f s c =
        let read =
          store.read_found (to_kubernetes_project_name project_id) (to_kubernetes_volume_name id) w
            r s in
        elim (Bool-cases
          (belongs_to_workspace_and_project r ws (to_kubernetes_project_name project_id))) [
            | inl b ↦ rw (f, read, b, c) refl
            | inr b ↦ rw (f, read, b) refl
          ]

    find_volume-gone :
        (ws : Workspace) (project_id id : Text) (w : W) (seen : Result (Option Project))
        → find_project o projects ws project_id w ≡ (seen, w)
        → stored w (to_kubernetes_project_name project_id) (to_kubernetes_volume_name id) ≡ none
        → find_volume o projects volumes ws project_id id w ≡ (in_project seen none, w)
    unfolding find_volume ensure_project null_if_missing is_not_found_error
    find_volume-gone ws project_id id w (err e) f s = rw f refl
    find_volume-gone ws project_id id w (ok none) f s = rw f refl
    find_volume-gone ws project_id id w (ok (some p)) f s =
        rw
          (
            f,
            store.read_missing (to_kubernetes_project_name project_id)
                (to_kubernetes_volume_name id) w s,
          )
          refl

    module _ (apart : IsApart) where
      -- A volume that is created in a project of the workspace has the asked project, name and
      -- size; under its id the workspace finds it, and no other workspace does.
      pub create_volume-find_volume :
          (ws : Workspace) (input : CreateVolumeInput) (p : Project) (id : Text) (w w' : W)
          → find_project o projects ws input.project_id w ≡ (ok (some p), w)
          → o.next_id w ≡ (ok id, w')
          → stored w' (to_kubernetes_project_name input.project_id) (to_kubernetes_volume_name id)
            ≡ none
          → (v : Volume) × (w'' : W) × (create_volume o projects volumes ws input w ≡ (ok v, w''))
            × (v.id ≡ id)
            × (v.project_id ≡ input.project_id)
            × (v.name ≡ input.name)
            × (v.size ≡ input.size)
            × ((ws' : Workspace)
                → find_volume o projects volumes ws' input.project_id id w'' ≡ (
                  in_project
                      (find_project o projects ws' input.project_id w').0
                      (if ws.id == ws'.id then some v else none),
                  w'',
                ))
      unfolding create_volume
      create_volume-find_volume ws input p id w w' f next fresh =
          let pn = to_kubernetes_project_name input.project_id in
          let body = build_volume_resource ws pn (to_kubernetes_volume_name id) input in
          let same = claim_name_of_build ws pn (to_kubernetes_volume_name id) input in
          let (r, w'', made, k, s) = store.created pn body w' (ap (stored w' pn) same ∙ fresh) in
          let e = to_volume_of_claim o projects volumes ws id input k in
          (
            _,
            w'',
            rw (ensured o projects ws input.project_id p w f, next, made, e) refl,
            refl,
            refl,
            refl,
            refl,
            λ ws'.
                let owner : belongs_to_workspace_and_project r ws' pn ≡ (ws.id == ws'.id) = ground (
                  arith,
                  belongs_of_claim ws id input k ws' input.project_id,
                  ==-self input.project_id,
                ) in
                rw owner at (
                  find_volume-stored ws' input.project_id id w'' r _
                    (find_project o projects ws' input.project_id w').0
                    (rw made at (apart.created ws' input.project_id pn body w'))
                    (ap (stored w'' pn) (sym same) ∙ s) e),
          )

      -- The workspace deletes its own volume: the answer is the volume that was there, and nobody
      -- finds it afterwards.
      pub delete_volume-find_volume :
          (ws : Workspace) (project_id id : Text) (p : Project) (w : W) (r : VolumeResource)
          (v : Volume)
          → find_project o projects ws project_id w ≡ (ok (some p), w)
          → stored w (to_kubernetes_project_name project_id) (to_kubernetes_volume_name id) ≡ some r
          → belongs_to_workspace_and_project r ws (to_kubernetes_project_name project_id) ≡ true
          → to_volume o projects volumes r ≡ ok v
          → (w' : W) × (delete_volume o projects volumes ws project_id id w ≡ (ok v, w'))
            × ((ws' : Workspace)
                → find_volume o projects volumes ws' project_id id w'
                  ≡ (in_project (find_project o projects ws' project_id w).0 none, w'))
      unfolding delete_volume get_owned_volume owned_volume
      delete_volume-find_volume ws project_id id p w r v f s b e =
          let pn = to_kubernetes_project_name project_id in
          let name = to_kubernetes_volume_name id in
          let read = store.read_found pn name w r s in
          let (w', gone, s') = store.deleted pn name w r s in
          (
            w',
            rw (ensured o projects ws project_id p w f, read, b, gone, e) refl,
            λ ws'.
                find_volume-gone ws' project_id id w' (find_project o projects ws' project_id w).0
                  (rw gone at (apart.deleted ws' project_id pn name w)) s',
          )

    -- A claim that is not this workspace's in this project is neither shown nor deleted.
    pub volume_refused :
        (ws : Workspace) (project_id id : Text) (p : Project) (w : W) (r : VolumeResource)
        → find_project o projects ws project_id w ≡ (ok (some p), w)
        → stored w (to_kubernetes_project_name project_id) (to_kubernetes_volume_name id) ≡ some r
        → belongs_to_workspace_and_project r ws (to_kubernetes_project_name project_id) ≡ false
        → (find_volume o projects volumes ws project_id id w ≡ (ok none, w))
          × (delete_volume o projects volumes ws project_id id w
              ≡ (err (not_found (units "Volume not found")), w))
    unfolding find_volume found_volume delete_volume get_owned_volume owned_volume
        not_found_if_missing is_not_found_error units
    volume_refused ws project_id id p w r f s b =
        let read =
          store.read_found (to_kubernetes_project_name project_id) (to_kubernetes_volume_name id) w
            r s in
        (
          rw (ensured o projects ws project_id p w f, read, b) refl,
          rw (ensured o projects ws project_id p w f, read, b) refl,
        )
