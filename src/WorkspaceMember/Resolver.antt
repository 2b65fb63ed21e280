-- ===== src/WorkspaceMember/Resolver.antt =====
-- The mutations of workspace-member.resolver.ts that add or change members, and `createWorkspace`
-- of workspace.service.ts.
use kudeploy.Prelude.{
  Bool, true, false, not, ◌&&◌, ◌||◌, Option, none, some, Text, units, ◌==◌, nat_eq, list_eq, ltb,
}
use kudeploy.Prelude.Exec.{
  Failure, forbidden, not_found, plain_error, Exec, pure, throw, guard, ◌>>=◌, ◌>>◌,
}
use kudeploy.Prelude.Int.{ℤ}
use kudeploy.WorkspaceMember.Entity.{
  WorkspaceMemberRole, owner, admin, member, User, WorkspaceMember, CreateServiceAccountInput,
  UpdateWorkspaceMemberInput,
}
use kudeploy.WorkspaceMember.Service.{
  Members, new_member, create_service_account, update_workspace_member,
}

abbrev pub is_owner : Option WorkspaceMemberRole → Bool
is_owner (some owner) = true
is_owner _ = false

abbrev pub is_admin : Option WorkspaceMemberRole → Bool
is_admin (some admin) = true
is_admin _ = false

abbrev pub is_plain_member : Option WorkspaceMemberRole → Bool
is_plain_member (some member) = true
is_plain_member _ = false

-- `user.name` is not null, so the part before the `@` of the email is never taken.
unfoldable pub added_member : Text → ℤ → Text → User → WorkspaceMember
unfolding new_member
added_member id now workspace u = record (new_member id now u.name workspace) { user = some u.id }

unfoldable pub owner_member : Text → ℤ → Text → User → WorkspaceMember
unfolding new_member
owner_member id now workspace u = record (new_member id now u.name workspace) {
  user = some u.id;
  email = some u.email;
  role = some owner;
}

module _ {W : Type 0} (db : Members W) where
  unfoldable pub or_throw {ℓ} : {A : Type ℓ} → Failure → Option A → Exec W A
  or_throw e none = throw e
  or_throw e (some a) = pure a

  unfoldable pub add_user : Text → User → Exec W WorkspaceMember
  unfolding units
  add_user workspace u = do
    already ← db.count_by_user u.id workspace
    guard (not (ltb 0 already)) (forbidden (units "User already exists in the workspace"))
    id ← db.next_id
    now ← db.now
    db.create (added_member id now workspace u)

  unfoldable pub add_found : Text → Text → Exec W WorkspaceMember
  unfolding or_throw units
  add_found workspace email = do
    found ← db.find_user email
    u ← or_throw (not_found (units "User not found")) found
    add_user workspace u

  unfoldable pub add_workspace_member : Text → WorkspaceMember → Text → Exec W WorkspaceMember
  unfolding add_found units
  add_workspace_member workspace current email = do
    guard (is_owner current.role) (forbidden (units "You are not allowed to add members"))
    add_found workspace email

  unfoldable pub create_service_account_workspace_member :
      Text → WorkspaceMember → CreateServiceAccountInput → Exec W WorkspaceMember
  unfolding units
  create_service_account_workspace_member workspace current input = do
    guard (is_admin current.role || is_owner current.role)
        (forbidden (units "You are not allowed to create service accounts"))
    create_service_account db workspace input

  -- an owner is updated by nobody else
  unfoldable pub update_found :
      WorkspaceMember → UpdateWorkspaceMemberInput → WorkspaceMember → Exec W WorkspaceMember
  unfolding units
  update_found current input m = do
    guard (not (not (m.id == current.id) && is_owner m.role))
        (forbidden (units "You are not allowed to update other members"))
    update_workspace_member db m input

  unfoldable pub update_by_id :
      WorkspaceMember → Text → UpdateWorkspaceMemberInput → Exec W WorkspaceMember
  unfolding or_throw units
  update_by_id current id input = do
    found ← db.find_by_id id
    m ← or_throw (plain_error (units "WorkspaceMember not found")) found
    update_found current input m

  unfoldable pub update_member :
      WorkspaceMember → Text → UpdateWorkspaceMemberInput → Exec W WorkspaceMember
  unfolding units
  update_member current id input = do
    guard (not (is_plain_member current.role))
        (forbidden (units "You are not allowed to update members"))
    update_by_id current id input

  -- the workspace is its id here, and its creator becomes the owner
  unfoldable pub create_owner : User → Text → Exec W WorkspaceMember
  unfolding owner_member
  create_owner u workspace = do
    id ← db.next_id
    now ← db.now
    db.create (owner_member id now workspace u)

  unfoldable pub add_owner : User → Text → Exec W Text
  unfolding create_owner
  add_owner u workspace = do created ← create_owner u workspace; pure workspace

  unfoldable pub create_workspace : User → Exec W Text
  unfolding add_owner
  create_workspace u = do workspace ← db.next_id; add_owner u workspace
