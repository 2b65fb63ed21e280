-- ===== src/Promql.antt =====
-- app/kubernetes-metrics/promql.ts: selectors of pods and queries of their metrics.
pub mod Quoting
mod Examples
use kudeploy.Prelude.{
  ℕ, Bool, true, false, ◌||◌, Option, none, some, List, [], ◌∷◌, ◌++◌, map, Text, units, ◌==◌,
  nat_eq, any, join, non_empty, if◌then◌else◌,
}
use kudeploy.Kubernetes.Labels.{
  managed_by_label, managed_by_label_value, workspace_label, project_label,
}
use kudeploy.Kubernetes.Names.{to_kubernetes_workspace_name}

pub record ServicePodSelectorInput : Type 0 where
  pub deployment_name : Option Text
  pub workspace_id : Text
  pub project_id : Text
  pub service_id : Text

unfoldable pub service_label : Text
unfolding units
service_label = units "kudeploy.com/service"

unfoldable pub deployment_label : Text
unfolding units
deployment_label = units "kudeploy.com/deployment"

abbrev pub is_named : Option Text → List Text
unfolding units deployment_label non_empty
is_named none = []
is_named (some name) = if non_empty name then (deployment_label ++ (units "=" ++ name)) ∷ [] else []

unfoldable pub build_service_pod_label_selector : ServicePodSelectorInput → Text
unfolding join units service_label
build_service_pod_label_selector input = join (units ",") (
    (managed_by_label ++ (units "=" ++ managed_by_label_value))
    ∷ (workspace_label ++ (units "=" ++ to_kubernetes_workspace_name input.workspace_id))
    ∷ (project_label ++ (units "=" ++ input.project_id))
    ∷ (service_label ++ (units "=" ++ input.service_id))
    ∷ is_named input.deployment_name)

-- `s.replace(/c/g, replacement)` for one character
unfoldable pub replace_unit : ℕ → Text → Text → Text
replace_unit c replacement [] = []
replace_unit c replacement (x ∷ s) =
    (if x == c then replacement else x ∷ []) ++ replace_unit c replacement s

-- a backslash, a quote and a line end, in this order
unfoldable pub prometheus_string : Text → Text
unfolding replace_unit
prometheus_string value =
    34
    ∷ (replace_unit 10 (92 ∷ 110 ∷ [])
          (replace_unit 34 (92 ∷ 34 ∷ []) (replace_unit 92 (92 ∷ 92 ∷ []) value))
        ++ (34 ∷ []))

-- `[\\^$.*+?()[\]{}|]`
unfoldable pub is_special : ℕ → Bool
unfolding any units
is_special c = any (λ d. c == d) (units "\\^$.*+?()[]{}|")

unfoldable pub escape_regex : Text → Text
unfolding is_special
escape_regex [] = []
escape_regex (c ∷ s) = (if is_special c then 92 ∷ c ∷ [] else c ∷ []) ++ escape_regex s

unfoldable pub build_pod_name_regex_matcher : Text → List Text → Text
unfolding prometheus_string escape_regex join units
build_pod_name_regex_matcher namespace pod_names = join (units ",") (
    (units "namespace=" ++ prometheus_string namespace)
    ∷ (units "pod=~"
        ++ prometheus_string
            (units "^(" ++ (join (units "|") (map escape_regex pod_names) ++ units ")$")))
    ∷ [])

unfoldable pub service_cpu_usage_query : Text → Text
unfolding units
service_cpu_usage_query pod_matcher =
    units "sum(rate(container_cpu_usage_seconds_total{"
    ++ (pod_matcher ++ units ",container!=\"\",image!=\"\"}[5m]))")

unfoldable pub service_memory_usage_query : Text → Text
unfolding units
service_memory_usage_query pod_matcher =
    units "sum(container_memory_working_set_bytes{"
    ++ (pod_matcher ++ units ",container!=\"\",image!=\"\"})")

unfoldable pub service_network_receive_query : Text → Text
unfolding units
service_network_receive_query pod_matcher =
    units "sum(rate(container_network_receive_bytes_total{" ++ (pod_matcher ++ units "}[5m]))")

unfoldable pub service_network_transmit_query : Text → Text
unfolding units
service_network_transmit_query pod_matcher =
    units "sum(rate(container_network_transmit_bytes_total{" ++ (pod_matcher ++ units "}[5m]))")
