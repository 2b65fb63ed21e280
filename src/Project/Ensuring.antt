-- ===== src/Project/Ensuring.antt =====
-- `ensureProject`, as the services whose resources live in a project use it.
use kudeploy.Prelude.{◌≡◌, refl, Option, none, some, Text, units}
use kudeploy.Prelude.Exec.{Result, ok, err, not_found}
use kudeploy.Kubernetes.Api.{ResourceApi}
use kudeploy.Kubernetes.Outside.{Outside}
use kudeploy.Project.{Workspace, ProjectResource, Project, find_project, ensure_project}

-- What a workspace reads of something in a project, by what it reads of the project.
abbrev pub in_project : {A : Type 0} → Result (Option Project) → A → Result A
unfolding units
in_project (ok (some p)) v = ok v
in_project (ok none) v = err (not_found (units "Project not found"))
in_project (err e) v = err e

module _ {W : Type 0} (o : Outside W) (projects : ResourceApi W (Unit {0}) ProjectResource) where
  pub ensured :
      (ws : Workspace) (id : Text) (p : Project) (w : W)
      → find_project o projects ws id w ≡ (ok (some p), w)
      → ensure_project o projects ws id w ≡ (ok tt, w)
  unfolding ensure_project
  ensured ws id p w f = rw f refl

  pub missing :
      (ws : Workspace) (id : Text) (w : W)
      → find_project o projects ws id w ≡ (ok none, w)
      → ensure_project o projects ws id w ≡ (err (not_found (units "Project not found")), w)
  unfolding ensure_project units
  missing ws id w f = rw f refl

  -- Writes of resources of another kind leave the projects as they are.
  pub record KeepsProjects {R : Type 0} (api : ResourceApi W Text R) : Type 0 where
    pub created :
        (ws : Workspace) (id scope : Text) (body : R) (w : W)
        → find_project o projects ws id (api.create scope body w).1
          ≡ ((find_project o projects ws id w).0, (api.create scope body w).1)
    pub applied :
        (ws : Workspace) (id scope name : Text) (body : R) (w : W)
        → find_project o projects ws id (api.apply scope name body w).1
          ≡ ((find_project o projects ws id w).0, (api.apply scope name body w).1)
