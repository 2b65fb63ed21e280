-- ===== src/Kubernetes/Labels.antt =====
-- The labels and annotations of project.service.ts that mark what the server manages.
use kudeploy.Prelude.{
  ◌≡◌, refl, Option, none, some, List, [], ◌∷◌, Text, units, dict_get, nat_eq, list_eq, list_beq,
}

unfoldable pub managed_by_label : Text
unfolding units
managed_by_label = units "app.kubernetes.io/managed-by"

unfoldable pub managed_by_label_value : Text
unfolding units
managed_by_label_value = units "kudeploy"

unfoldable pub workspace_label : Text
unfolding units
workspace_label = units "kudeploy.com/workspace"

unfoldable pub project_label : Text
unfolding units
project_label = units "kudeploy.com/project"

unfoldable pub display_name_annotation : Text
unfolding units
display_name_annotation = units "kudeploy.com/display-name"

-- `record?.[key]`
unfoldable pub value_at : Option (List (Text × Text)) → Text → Option Text
unfolding dict_get
value_at none key = none
value_at (some m) key = dict_get key m

-- The labels that every builder of resources writes.
unfoldable pub owner_labels : Text → Text → List (Text × Text)
owner_labels workspace_value project_name =
    (managed_by_label, managed_by_label_value)
    ∷ (workspace_label, workspace_value)
    ∷ (project_label, project_name)
    ∷ []

module _ (workspace_value project_name : Text) where
  pub owner_labels-managed_by :
      dict_get managed_by_label (owner_labels workspace_value project_name)
      ≡ some managed_by_label_value
  unfolding dict_get owner_labels managed_by_label list_beq
  owner_labels-managed_by = refl

  pub owner_labels-workspace :
      dict_get workspace_label (owner_labels workspace_value project_name) ≡ some workspace_value
  unfolding dict_get owner_labels managed_by_label workspace_label list_beq
  owner_labels-workspace = refl

  pub owner_labels-project :
      dict_get project_label (owner_labels workspace_value project_name) ≡ some project_name
  unfolding dict_get owner_labels managed_by_label workspace_label project_label list_beq
  owner_labels-project = refl
