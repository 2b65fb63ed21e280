-- ===== src/Kubernetes/Names.antt =====
-- app/kubernetes/resource-names.ts: names of cluster resources and the ids that GraphQL shows.
pub mod Laws
use kudeploy.Prelude.{
  ℕ, Bool, true, false, Option, none, some, non_empty, List, [], ◌∷◌, ◌++◌, Text, units,
  starts_with, length, drop, if◌then◌else◌,
}
use kudeploy.Prelude.Exec.{Result, ok, err, plain_error}

-- The kinds of resources whose names carry a prefix of their own.
pub data ResourceKind : Type 0 where
  workspace project registry_credential service volume : ResourceKind

unfoldable pub name_prefix : ResourceKind → Text
unfolding units
name_prefix workspace = units "kd-workspace-"
name_prefix project = units "kd-project-"
name_prefix registry_credential = units "kd-regcred-"
name_prefix service = units "kd-service-"
name_prefix volume = units "kd-volume-"

unfoldable pub strip_kubernetes_prefix : Text → Text → Result Text
unfolding starts_with drop units
strip_kubernetes_prefix name prefix =
    if starts_with name prefix
    then ok (drop (length prefix) name)
    else err (plain_error (units "Expected Kubernetes resource name to start with " ++ prefix))

unfoldable pub to_kubernetes_name : ResourceKind → Text → Text
to_kubernetes_name kind id = name_prefix kind ++ id

abbrev pub to_kubernetes_workspace_name : Text → Text
to_kubernetes_workspace_name = to_kubernetes_name workspace

abbrev pub to_kubernetes_project_name : Text → Text
to_kubernetes_project_name = to_kubernetes_name project

abbrev pub to_kubernetes_service_name : Text → Text
to_kubernetes_service_name = to_kubernetes_name service

abbrev pub to_kubernetes_registry_credential_name : Text → Text
to_kubernetes_registry_credential_name = to_kubernetes_name registry_credential

abbrev pub to_kubernetes_volume_name : Text → Text
to_kubernetes_volume_name = to_kubernetes_name volume

unfoldable pub to_graphql_id : ResourceKind → Text → Result Text
to_graphql_id kind name = strip_kubernetes_prefix name (name_prefix kind)

abbrev pub to_graphql_project_id : Text → Result Text
to_graphql_project_id = to_graphql_id project

abbrev pub to_graphql_service_id : Text → Result Text
to_graphql_service_id = to_graphql_id service

abbrev pub to_graphql_registry_credential_id : Text → Result Text
to_graphql_registry_credential_id = to_graphql_id registry_credential

abbrev pub to_graphql_volume_id : Text → Result Text
to_graphql_volume_id = to_graphql_id volume

unfoldable pub has_name_prefix : ResourceKind → Text → Bool
has_name_prefix kind name = starts_with name (name_prefix kind)

abbrev pub has_kubernetes_project_name_prefix : Text → Bool
has_kubernetes_project_name_prefix = has_name_prefix project

abbrev pub has_kubernetes_service_name_prefix : Text → Bool
has_kubernetes_service_name_prefix = has_name_prefix service

abbrev pub has_kubernetes_registry_credential_name_prefix : Text → Bool
has_kubernetes_registry_credential_name_prefix = has_name_prefix registry_credential

abbrev pub has_kubernetes_volume_name_prefix : Text → Bool
has_kubernetes_volume_name_prefix = has_name_prefix volume

-- `value ? translate(value) : ''`
abbrev pub id_or_empty : (Text → Result Text) → Option Text → Result Text
id_or_empty translate none = ok []
id_or_empty translate (some value) = if non_empty value then translate value else ok []
