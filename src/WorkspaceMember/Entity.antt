-- ===== src/WorkspaceMember/Entity.antt =====
-- workspace-member.entity.ts, its enums, and the inputs of the operations.
use kudeploy.Prelude.{Bool, true, false, Option, List, Text, StrictEq, Patch, ◌≡◌, ◌↔◌, arith}
use kudeploy.Prelude.Int.{ℤ}

pub data WorkspaceMemberStatus : Type 0 where
  active inviting invite_expired disabled : WorkspaceMemberStatus

pub data WorkspaceMemberRole : Type 0 where
  owner admin member : WorkspaceMemberRole

pub data WorkspaceMemberType : Type 0 where
  user service_account : WorkspaceMemberType

pub data WorkspaceMemberPermission : Type 0 where
  manage_workspace manage_domains manage_members : WorkspaceMemberPermission

pub record User : Type 0 where
  pub id : Text
  pub name : Text
  pub email : Text

-- `name`, `role` and `permissions` can be `null` in memory, since an update assigns what it is
-- given. `user` and `invited_by` are the ids of the referenced users.
pub record WorkspaceMember : Type 0 where
  pub id : Text
  pub name : Option Text
  pub email : Option Text
  pub type : WorkspaceMemberType
  pub role : Option WorkspaceMemberRole
  pub permissions : Option (List WorkspaceMemberPermission)
  pub invited_by : Option Text
  pub invited_by_user_name : Option Text
  pub invite_token : Option Text
  pub status : WorkspaceMemberStatus
  pub invite_expires_at : Option ℤ
  pub created_at : ℤ
  pub updated_at : ℤ
  pub user : Option Text
  pub workspace : Text

pub record CreateWorkspaceInviteInput : Type 0 where
  pub role : WorkspaceMemberRole
  pub email : Option Text

pub record CreateServiceAccountInput : Type 0 where
  pub name : Text
  pub role : Option WorkspaceMemberRole
  pub permissions : Option (List WorkspaceMemberPermission)

pub record UpdateWorkspaceMemberInput : Type 0 where
  pub name : Patch Text
  pub email : Patch Text
  pub role : Patch WorkspaceMemberRole
  pub permissions : Patch (List WorkspaceMemberPermission)
  pub status : Patch WorkspaceMemberStatus

abbrev pub same_status : WorkspaceMemberStatus → WorkspaceMemberStatus → Bool
same_status active active = true
same_status inviting inviting = true
same_status invite_expired invite_expired = true
same_status disabled disabled = true
same_status _ _ = false

abbrev pub same_permission : WorkspaceMemberPermission → WorkspaceMemberPermission → Bool
same_permission manage_workspace manage_workspace = true
same_permission manage_domains manage_domains = true
same_permission manage_members manage_members = true
same_permission _ _ = false

pub same_permission_iff : (x y : WorkspaceMemberPermission) → (same_permission x y ≡ true) ↔ (x ≡ y)
same_permission_iff manage_workspace y = ground arith
same_permission_iff manage_domains y = ground arith
same_permission_iff manage_members y = ground arith

instance abbrev pub permission_eq : StrictEq WorkspaceMemberPermission
permission_eq = record { identical = same_permission; identical_iff = same_permission_iff }
