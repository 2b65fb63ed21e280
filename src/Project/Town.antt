-- ===== src/Project/Town.antt =====
-- A small cluster in memory with one project, beside which a component keeps `X`: what the tests of
-- the services whose resources live in a project stand on.
use kudeploy.Prelude.{
  ◌≡◌, refl, none, some, [], ◌∷◌, Text, units, nat_eq, list_eq, Option-cases, Bool-cases, inl, inr,
}
use kudeploy.Prelude.Exec.{ok, Result-cases}
use kudeploy.Prelude.Int.{pos}
use kudeploy.Connection.Examples.{plain_runtime}
use kudeploy.Kubernetes.Api.{ResourceApi, is_not_found_error, null_if_missing}
use kudeploy.Kubernetes.Memory.{Memory, unit_eq, find_entry, memory_api}
use kudeploy.Kubernetes.Names.{to_kubernetes_project_name}
use kudeploy.Kubernetes.Runs.{kubernetes_runs}
use kudeploy.Kubernetes.Outside.{Outside}
use kudeploy.Project.{
  Workspace, ProjectResource, Project, pending, find_project, build_project_resource,
  belongs_to_workspace, to_project,
}

abbrev pub Town : Type 0 → Type 0
Town X = Memory (Unit {0}) ProjectResource × X

abbrev pub ann : Workspace
ann = record { id = units "1" }

abbrev pub bob : Workspace
bob = record { id = units "2" }

abbrev pub shop : Project
shop = record {
  id = units "42";
  name = units "Shop";
  status = pending;
  created_at = some (pos 0);
  updated_at = some (pos 0);
}

abbrev pub shop_name : Text
shop_name = to_kubernetes_project_name (units "42")

unfoldable pub town_runs : Unit {0}
unfolding kubernetes_runs belongs_to_workspace build_project_resource to_project find_project
    find_entry null_if_missing
town_runs = tt

module _ {X : Type 0} where
  abbrev pub outside : Outside (Town X)
  outside = record {
    runtime = plain_runtime;
    parse_date = λ s. some (pos 5);
    next_id = λ w. (ok (units "7"), w);
    number_of = λ s. none;
  }

  abbrev pub namespaces : ResourceApi (Town X) (Unit {0}) ProjectResource
  namespaces = memory_api (λ (w : Town X). w.0) (λ m w. (m, w.1)) (λ m w. refl) (λ r. r.name)

  abbrev pub shop_with : X → Town X
  shop_with x = ((tt, shop_name, build_project_resource ann shop_name (units "Shop")) ∷ [], x)

  pub find_project-shop :
      (x : X)
      → find_project outside namespaces ann (units "42") (shop_with x)
        ≡ (ok (some shop), shop_with x)
  unfolding town_runs
  find_project-shop x = refl

  pub find_project-hidden :
      (x : X)
      → find_project outside namespaces bob (units "42") (shop_with x) ≡ (ok none, shop_with x)
  unfolding town_runs
  find_project-hidden x = refl

  -- `X` has no part in what is read of a project.
  pub find_project_beside :
      (ws : Workspace) (id : Text) (m : Memory (Unit {0}) ProjectResource) (x x' : X)
      → find_project outside namespaces ws id (m, x')
        ≡ ((find_project outside namespaces ws id (m, x)).0, (m, x'))
  unfolding memory_api find_project is_not_found_error null_if_missing
  find_project_beside ws id m x x' =
      elim (Option-cases (find_entry tt (to_kubernetes_project_name id) m)) [
        | inl e ↦ rw e refl
        | inr (r, e) ↦ elim (Bool-cases (belongs_to_workspace r ws)) [
          | inr b ↦ rw (e, b) refl
          | inl b ↦ elim (Result-cases (to_project outside namespaces r)) [
            | inl (p, t) ↦ rw (e, b, t) refl
            | inr (f, t) ↦ elim (Bool-cases (is_not_found_error f)) [
              | inl n ↦ rw (e, b, t, n) refl
              | inr n ↦ rw (e, b, t, n) refl
            ]
          ]
        ]
      ]
