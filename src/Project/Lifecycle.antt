-- ===== src/Project/Lifecycle.antt =====
-- Creating, reading, renaming and deleting projects in a cluster that keeps what it is given.
use kudeploy.Prelude.{
  ◌≡◌, refl, true, false, Option, none, some, List, [], ◌∷◌, filter, Text, units, or_else,
  list_beq_iff, ◌==◌, nat_eq, list_eq, arith, Bool-cases, inl, inr, if◌then◌else◌,
}
use kudeploy.Prelude.Exec.{ok, err, not_found, map_results, with_result-ok}
use kudeploy.Kubernetes.Api.{ResourceApi, IsStore}
use kudeploy.Kubernetes.Names.{project, to_kubernetes_project_name, has_name_prefix}
use kudeploy.Kubernetes.Names.Laws.{to_graphql_id_of_prefix}
use kudeploy.Kubernetes.Outside.{Outside}
use kudeploy.Kubernetes.Dates.{to_date}
use kudeploy.Project.{
  Workspace, ProjectResource, Project, belongs_to_workspace, build_project_resource, to_project,
  to_project_status, find_project, create_project, update_project, delete_project, find_projects,
  project_connection, project_entity, workspace_label_selector,
}
use kudeploy.Connection.Manager.{ConnectionArgs, find}
use kudeploy.Project.Laws.{
  KeepsMetadata, belongs_of_keeps, to_project_of_keeps, find_project-stored, find_project-missing,
}

module _ {W : Type 0} (o : Outside W) (projects : ResourceApi W (Unit {0}) ProjectResource)
    (ws : Workspace) where
  to_project_of_belongs :
      (r : ProjectResource)
      → belongs_to_workspace r ws ≡ true
      → (p : Project) × (to_project o projects r ≡ ok p)
  unfolding belongs_to_workspace to_project
  to_project_of_belongs r b =
      let prefixed : has_name_prefix project r.name ≡ true = ground arith in
      (_, with_result-ok _ (to_graphql_id_of_prefix project r.name prefixed))

  owned_convert :
      (items : List ProjectResource)
      → (ps : List Project) × (map_results
            (to_project o projects)
            (filter (λ r. belongs_to_workspace r ws) items)
          ≡ ok ps)
  unfolding filter map_results
  owned_convert [] = ([], refl)
  owned_convert (r ∷ rs) = elim (Bool-cases (belongs_to_workspace r ws)) [
    | inl b ↦
        let (p, e) = to_project_of_belongs r b in
        let (ps, later) = owned_convert rs in (p ∷ ps, rw (b, e, later))
    | inr b ↦ let (ps, later) = owned_convert rs in (ps, rw (b, later))
  ]

module _ {W : Type 0} (o : Outside W) (projects : ResourceApi W (Unit {0}) ProjectResource)
    (stored : W → Unit {0} → Text → Option ProjectResource)
    (store : IsStore projects stored (λ r. r.name) KeepsMetadata) where
  -- What a write of a built body leaves: its workspace finds the project, and no other does.
  pub record IsFoundBy (ws : Workspace) (id display_name : Text) (p : Project) (w : W)
      : Type 0 where
    pub same_id : p.id ≡ id
    pub same_name : p.name ≡ display_name
    pub found :
        (ws' : Workspace)
        → find_project o projects ws' id w ≡ (ok (if ws.id == ws'.id then some p else none), w)

  built_project : Text → Text → ProjectResource → Project
  built_project id display_name r = record {
    id = id;
    name = display_name;
    status = to_project_status r;
    created_at = to_date o.parse_date r.creation_timestamp;
    updated_at = to_date o.parse_date r.creation_timestamp;
  }

  owner_test :
      (ws : Workspace) (id display_name : Text) (r : ProjectResource)
      → KeepsMetadata (build_project_resource ws (to_kubernetes_project_name id) display_name) r
      → (ws' : Workspace) → belongs_to_workspace r ws' ≡ (ws.id == ws'.id)
  owner_test ws id display_name r k ws' =
      ground (arith, belongs_of_keeps ws id display_name k ws', list_beq_iff ws.id ws'.id)

  built_project-IsFoundBy :
      (ws : Workspace) (id display_name : Text) (r : ProjectResource) (w : W)
      → KeepsMetadata (build_project_resource ws (to_kubernetes_project_name id) display_name) r
      → stored w tt (to_kubernetes_project_name id) ≡ some r
      → IsFoundBy ws id display_name (built_project id display_name r) w
  unfolding built_project
  built_project-IsFoundBy ws id display_name r w k s =
      let found = λ (ws' : Workspace).
        find_project-stored o projects store ws' id w r _ s
          (to_project_of_keeps o projects ws id display_name k) in
      record {
        same_id = refl;
        same_name = refl;
        found = λ ws'. rw (owner_test ws id display_name r k ws') at (found ws');
      }

  -- A project that is created under a fresh id is found by its workspace, with its id and the name
  -- that was asked for, and by no other workspace.
  pub create_project-find_project :
      (ws : Workspace) (display_name id : Text) (w w' : W)
      → o.next_id w ≡ (ok id, w')
      → stored w' tt (to_kubernetes_project_name id) ≡ none
      → (p : Project) × (w'' : W) × (create_project o projects ws display_name w ≡ (ok p, w''))
        × IsFoundBy ws id display_name p w''
  unfolding create_project
  create_project-find_project ws display_name id w w' next fresh =
      let body = build_project_resource ws (to_kubernetes_project_name id) display_name in
      let (r, w'', made, k, s) =
        store.created tt body w' (unfold build_project_resource in fresh) in
      (
        built_project id display_name r,
        w'',
        rw (next, made, to_project_of_keeps o projects ws id display_name k)
            (unfold built_project in refl),
        built_project-IsFoundBy ws id display_name r w'' k (unfold build_project_resource in s),
      )

  module _ (ws : Workspace) (id : Text) (w : W) (r : ProjectResource)
      (s : stored w tt (to_kubernetes_project_name id) ≡ some r) where
    -- An update by the workspace that owns the project gives it the new name, or keeps the name if
    -- none is given, and it stays with the workspace.
    pub update_project-find_project :
        (input_name : Option Text) (p : Project)
        → belongs_to_workspace r ws ≡ true
        → to_project o projects r ≡ ok p
        → (p' : Project) × (w' : W) × (update_project o projects ws id input_name w ≡ (ok p', w'))
          × IsFoundBy ws id (or_else input_name p.name) p' w'
    unfolding update_project
    update_project-find_project input_name p b e =
        let name = or_else input_name p.name in
        let body = build_project_resource ws (to_kubernetes_project_name id) name in
        let (r', w', done, k, s') = store.applied tt (to_kubernetes_project_name id) body w in
        (
          built_project id name r',
          w',
          rw
              (
                find_project-stored o projects store ws id w r p s e,
                b,
                done,
                to_project_of_keeps o projects ws id name k,
              )
              (unfold built_project in refl),
          built_project-IsFoundBy ws id name r' w' k s',
        )

    -- A project of another workspace, or a namespace that is no project, is not found, and neither
    -- an update nor a deletion touches the cluster.
    pub project_refused :
        belongs_to_workspace r ws ≡ false
        → (find_project o projects ws id w ≡ (ok none, w))
          × ((input_name : Option Text)
              → update_project o projects ws id input_name w
                ≡ (err (not_found (units "Project not found")), w))
          × (delete_project o projects ws id w ≡ (err (not_found (units "Project not found")), w))
    unfolding find_project update_project delete_project units
    project_refused b =
        let read = store.read_found tt (to_kubernetes_project_name id) w r s in
        (rw (read, b), λ input_name. rw (read, b), rw (read, b))

    -- A deletion by the owner returns the project, and afterwards it is not found.
    pub delete_project-find_project :
        (p : Project)
        → belongs_to_workspace r ws ≡ true
        → to_project o projects r ≡ ok p
        → (w' : W) × (delete_project o projects ws id w ≡ (ok p, w'))
          × ((ws' : Workspace) → find_project o projects ws' id w' ≡ (ok none, w'))
    unfolding delete_project
    delete_project-find_project p b e =
        let read = store.read_found tt (to_kubernetes_project_name id) w r s in
        let (w', gone, s') = store.deleted tt (to_kubernetes_project_name id) w r s in
        (w', rw (read, b, gone, e), λ ws'. find_project-missing o projects store ws' id w' s')

-- Listing never fails on a name: each namespace that is kept has a project, in the same order, and
-- the page is taken from those.
pub find_projects-total :
    {W : Type 0} (o : Outside W) (projects : ResourceApi W (Unit {0}) ProjectResource)
    (ws : Workspace) (args : ConnectionArgs) (w w' : W) (items : List ProjectResource)
    → projects.list_items tt (workspace_label_selector o projects ws) w ≡ (ok (some items), w')
    → (ps : List Project) × (map_results
          (to_project o projects)
          (filter (λ r. belongs_to_workspace r ws) items)
        ≡ ok ps)
      × (find_projects o projects ws args w
          ≡ (find o.runtime (some project_connection) args ps, w'))
unfolding find_projects
find_projects-total o projects ws args w w' items listed =
    let (ps, e) = owned_convert o projects ws items in (ps, e, rw (listed, e))
