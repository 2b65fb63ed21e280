-- ===== src/Kubernetes/Runs.antt =====
-- What a test of a Kubernetes-backed service computes with, in one name.
use kudeploy.Prelude.{units, starts_with, drop, dict_get, list_beq, filter, non_empty}
use kudeploy.Kubernetes.Api.{is_not_found_error}
use kudeploy.Kubernetes.Dates.{to_date}
use kudeploy.Kubernetes.Labels.{
  managed_by_label, managed_by_label_value, workspace_label, project_label, display_name_annotation,
  value_at, owner_labels,
}
use kudeploy.Kubernetes.Memory.{memory_api}
use kudeploy.Kubernetes.Names.{
  name_prefix, strip_kubernetes_prefix, to_kubernetes_name, to_graphql_id, has_name_prefix,
}

unfoldable pub kubernetes_runs : Unit {0}
unfolding units starts_with drop dict_get list_beq filter non_empty is_not_found_error to_date
    managed_by_label managed_by_label_value workspace_label project_label display_name_annotation
    value_at owner_labels memory_api name_prefix strip_kubernetes_prefix to_kubernetes_name
    to_graphql_id has_name_prefix
kubernetes_runs = tt
