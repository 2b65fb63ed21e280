-- ===== src/Deployment/Laws.antt =====
-- What a deployment is read as, and by whom.
use kudeploy.Prelude.{
  ◌≡◌, refl, ap, ◌∙◌, true, ◌↔◌, Option, some, Text, ◌==◌, nat_eq, list_eq, list_beq_iff,
  is_value_iff, or_else, arith,
}
use kudeploy.Prelude.Exec.{ok, Exec}
use kudeploy.Kubernetes.Api.{ResourceApi}
use kudeploy.Kubernetes.Labels.{value_at}
use kudeploy.Kubernetes.Names.{
  project, service, to_graphql_id, to_kubernetes_project_name, to_kubernetes_service_name,
}
use kudeploy.Kubernetes.Names.Laws.{to_graphql_id-name, non_empty-name}
use kudeploy.Kubernetes.Outside.{Outside}
use kudeploy.Project.{Workspace}
use kudeploy.Deployment.Entity.{DeploymentResource, Deployment}
use kudeploy.Deployment.{
  ServiceStatus, belongs_to_service, service_label, to_deployment, find_deployment,
  found_deployment, of_service, with_service, with_ids,
}

namespace_of_belongs :
    (r : DeploymentResource) (ws : Workspace) (project_name service_name : Text)
    → belongs_to_service r ws project_name service_name ≡ true
    → r.namespace ≡ project_name
unfolding belongs_to_service
namespace_of_belongs r ws project_name service_name b =
    let same : (r.namespace == project_name) ≡ true = ground arith in
    (list_beq_iff r.namespace project_name).0 same

to_deployment_of_names :
    {W : Type 0} (o : Outside W) (deployments : ResourceApi W Text DeploymentResource)
    (find_service : Workspace → Text → Text → Exec W (Option ServiceStatus))
    (r : DeploymentResource) (s : ServiceStatus) (id project_id service_id : Text)
    → to_graphql_id service r.name ≡ ok id
    → to_graphql_id project r.namespace ≡ ok project_id
    → to_graphql_id service (or_else (value_at r.labels service_label) r.service_name)
      ≡ ok service_id
    → to_deployment o deployments find_service r s
      ≡ ok (with_ids o deployments find_service r s id project_id service_id)
unfolding to_deployment
to_deployment_of_names o deployments find_service r s id project_id service_id a b c =
    rw (a, b, c) refl

module _ {W : Type 0} (o : Outside W) (deployments : ResourceApi W Text DeploymentResource)
    (find_service : Workspace → Text → Text → Exec W (Option ServiceStatus)) (ws : Workspace)
    (project_id id : Text) (w : W) (r : DeploymentResource)
    (read : deployments.read
        (to_kubernetes_project_name project_id)
        (to_kubernetes_service_name id)
        w
      ≡ (ok r, w)) where
  -- A deployment of the workspace's project whose service the workspace finds is found with its ids;
  -- it is active, or the latest, exactly when the service names it so.
  pub find_deployment-owned :
      (service_id : Text) (s : ServiceStatus)
      → r.name ≡ to_kubernetes_service_name id
      → value_at r.labels service_label ≡ some (to_kubernetes_service_name service_id)
      → belongs_to_service r ws
          (to_kubernetes_project_name project_id)
          (to_kubernetes_service_name service_id)
        ≡ true
      → find_service ws project_id service_id w ≡ (ok (some s), w)
      → (d : Deployment) × (find_deployment o deployments find_service ws project_id id w
          ≡ (ok (some d), w))
        × (d.id ≡ id)
        × (d.project_id ≡ project_id)
        × (d.service_id ≡ service_id)
        × ((d.active ≡ true) ↔ (s.active_deployment_name ≡ some r.name))
        × ((d.latest ≡ true) ↔ (s.latest_deployment_name ≡ some r.name))
  unfolding find_deployment found_deployment of_service with_service with_ids
  find_deployment-owned service_id s named labelled b served =
      let home = namespace_of_belongs r ws _ _ b in
      let converts =
        to_deployment_of_names o deployments find_service r s id project_id service_id
          (ap (to_graphql_id service) named ∙ to_graphql_id-name service id)
          (ap (to_graphql_id project) home ∙ to_graphql_id-name project project_id)
          (ap (λ l. to_graphql_id service (or_else l r.service_name)) labelled
            ∙ to_graphql_id-name service service_id) in
      (
        with_ids o deployments find_service r s id project_id service_id,
        rw
            (
              read,
              labelled,
              non_empty-name service service_id,
              b,
              to_graphql_id-name service service_id,
              served,
              converts,
            )
            refl,
        refl,
        refl,
        refl,
        is_value_iff s.active_deployment_name r.name,
        is_value_iff s.latest_deployment_name r.name,
      )
