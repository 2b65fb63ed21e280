-- ===== src/Ability.antt =====
-- common/modules/utils/build-workspace-member-permission-ability.util.ts: the rules that a member's
-- role and permissions give.
pub mod Deciding
mod Examples
use kudeploy.Prelude.{
  ℕ, Bool, true, false, not, ◌&&◌, ◌||◌, Option, none, some, List, [], ◌∷◌, ◌++◌, Text, ◌==◌,
  nat_eq, list_eq, any, if◌then◌else◌,
}
use kudeploy.WorkspaceMember.Entity.{
  WorkspaceMember, WorkspaceMemberRole, owner, admin, member, WorkspaceMemberPermission,
  manage_workspace, manage_domains, manage_members, same_status, disabled, same_permission,
}

pub data PermissionAction : Type 0 where
  read create update delete manage : PermissionAction

-- `'all'`, the entities that a rule or a request can name by their classes, and the string
-- `'Workspace'`, which the library keeps apart from the class: `subject('Workspace', { id })`.
pub data Subject : Type 0 where
  all_subjects user_subject workspace_subject workspace_name workspace_member_subject : Subject
  api_key_subject domain_subject group_subject group_member_subject service_subject : Subject

-- none, `{ id }`, or `{ id: { $ne: id } }`
pub data Condition : Type 0 where
  always : Condition
  id_is id_is_not : Text → Condition

pub record Rule : Type 0 where
  pub inverted : Bool
  pub action : PermissionAction
  pub subject : Subject
  pub condition : Condition

abbrev pub can : PermissionAction → Subject → Rule
can action subject = record {
  inverted = false;
  action = action;
  subject = subject;
  condition = always;
}

abbrev pub can_if : PermissionAction → Subject → Condition → Rule
can_if action subject condition = record {
  inverted = false;
  action = action;
  subject = subject;
  condition = condition;
}

abbrev pub cannot : PermissionAction → Subject → Condition → Rule
cannot action subject condition = record {
  inverted = true;
  action = action;
  subject = subject;
  condition = condition;
}

abbrev pub includes : List WorkspaceMemberPermission → WorkspaceMemberPermission → Bool
includes permissions p = any (λ q. same_permission q p) permissions

-- what everyone may do who is signed in
abbrev pub base_rules : List Rule
base_rules =
    can read user_subject
    ∷ can read workspace_subject
    ∷ can read workspace_member_subject
    ∷ can create workspace_subject
    ∷ can update workspace_member_subject
    ∷ []

abbrev pub role_rules : Option WorkspaceMemberRole → Text → List Rule
role_rules (some owner) workspace =
    can manage all_subjects
    ∷ cannot update workspace_name (id_is_not workspace)
    ∷ cannot delete workspace_name (id_is_not workspace)
    ∷ []
role_rules (some admin) workspace =
    can manage all_subjects
    ∷ cannot delete workspace_subject always
    ∷ cannot update workspace_name (id_is_not workspace)
    ∷ []
role_rules _ workspace = can read all_subjects ∷ []

unfoldable pub permission_rules : List WorkspaceMemberPermission → Text → List Rule
unfolding any
permission_rules permissions workspace =
    (if includes permissions manage_workspace
      then can manage workspace_subject ∷ can_if manage workspace_name (id_is workspace) ∷ []
      else [])
    ++ ((if includes permissions manage_domains then can manage domain_subject ∷ [] else [])
        ++ (if includes permissions manage_members
            then can manage workspace_member_subject
              ∷ can manage group_subject
              ∷ can manage group_member_subject
              ∷ []
            else []))

-- The rules in the order in which the builder is given them.
unfoldable pub build_workspace_member_permission_ability :
    Option WorkspaceMember → List WorkspaceMemberPermission → List Rule
unfolding permission_rules
build_workspace_member_permission_ability none permissions = base_rules
build_workspace_member_permission_ability (some m) permissions =
    if same_status m.status disabled
    then base_rules
    else base_rules
      ++ (can create api_key_subject
          ∷ (role_rules m.role m.workspace ++ permission_rules permissions m.workspace))
