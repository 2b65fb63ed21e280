-- ===== src/WorkspaceMember/Service.antt =====
-- workspace-member.service.ts. The entity manager, the random tokens, the clock and dayjs are
-- parameters.
use kudeploy.Prelude.{
  Patch, absent, given, ℕ, Bool, true, false, not, ◌&&◌, Option, none, some, List, [], ◌∷◌, ◌++◌,
  Text, units, ◌==◌, nat_eq, list_eq, find, is_some, non_empty, or_else, if◌then◌else◌,
}
use kudeploy.Prelude.Exec.{bad_request, forbidden, Exec, pure, throw, guard, ◌>>=◌, ◌>>◌}
use kudeploy.Prelude.Int.{ℤ, int_ltb}
use kudeploy.WorkspaceMember.Entity.{
  WorkspaceMemberStatus, active, inviting, invite_expired, disabled, member, user, service_account,
  WorkspaceMemberPermission, User, WorkspaceMember, CreateWorkspaceInviteInput,
  CreateServiceAccountInput, UpdateWorkspaceMemberInput, same_status, permission_eq,
}

pub record Members (W : Type 0) : Type 0 where
  -- `new Date()`, and `dayjs().add(days, 'day')` from a time
  pub now : Exec W ℤ
  pub add_days : ℕ → ℤ → ℤ
  -- `randomBytes(16).toString('hex')`, and the id of a new entity
  pub random_token : Exec W Text
  pub next_id : Exec W Text
  -- `user.loadOrFail()`
  pub load_user : Text → Exec W User
  -- `findOne({ inviteToken, user: null })`, without row level security
  pub find_invite : Text → Exec W (Option WorkspaceMember)
  -- `findOne({ user, workspace })`
  pub find_by_user : Text → Text → Exec W (Option WorkspaceMember)
  -- `em.find(WorkspaceMember, { email, workspace })`
  pub find_by_email : Text → Text → Exec W (List WorkspaceMember)
  -- `findOne({ id })`, `workspace.members.loadCount({ where: { user } })`, and `findOne({ email })`
  -- of the users
  pub find_by_id : Text → Exec W (Option WorkspaceMember)
  pub count_by_user : Text → Text → Exec W ℕ
  pub find_user : Text → Exec W (Option User)
  -- the `permissions` of the groups that a member is in
  pub group_permissions : WorkspaceMember → Exec W (List (Option (List WorkspaceMemberPermission)))
  -- `create` and `update` of the entity service, which store and return the entity
  pub create : WorkspaceMember → Exec W WorkspaceMember
  pub update : WorkspaceMember → Exec W WorkspaceMember
  -- an assignment to the managed entity that nothing flushes
  pub assign : WorkspaceMember → Exec W (Unit {0})

-- The entity with the initial values that its class gives.
unfoldable pub new_member : Text → ℤ → Text → Text → WorkspaceMember
new_member id now name workspace = record {
  id = id;
  name = some name;
  email = none;
  type = user;
  role = some member;
  permissions = some [];
  invited_by = none;
  invited_by_user_name = none;
  invite_token = none;
  status = active;
  invite_expires_at = none;
  created_at = now;
  updated_at = now;
  user = none;
  workspace = workspace;
}

unfoldable pub invited_member :
    Text → ℤ → Text → ℤ → Text → User → CreateWorkspaceInviteInput → WorkspaceMember
unfolding new_member units
invited_member id now token expires workspace inviter input =
    record (new_member id now (units "待接受邀请") workspace) {
      role = some input.role;
      email = input.email;
      invited_by = some inviter.id;
      invited_by_user_name = some inviter.name;
      invite_token = some token;
      invite_expires_at = some expires;
      status = inviting;
      user = none;
    }

unfoldable pub service_account_member :
    Text → ℤ → Text → CreateServiceAccountInput → WorkspaceMember
unfolding new_member
service_account_member id now workspace input = record (new_member id now input.name workspace) {
  role = some (or_else input.role member);
  permissions = some (or_else input.permissions []);
  type = service_account;
  user = none;
  email = none;
  status = active;
}

-- `member.inviteExpiresAt && member.inviteExpiresAt < now`
abbrev pub is_expired : WorkspaceMember → ℤ → Bool
is_expired m now = elim m.invite_expires_at [ none ↦ false | some t ↦ int_ltb t now ]

-- the test `member.email` and then `currentUser.email !== member.email`
abbrev pub is_for_other : WorkspaceMember → User → Bool
is_for_other m u = elim m.email [
  | none ↦ false
  | some email ↦ non_empty email && not (u.email == email)
]

unfoldable pub accepted_member : WorkspaceMember → User → Option Text → ℤ → WorkspaceMember
accepted_member m u name now = record m {
  user = some u.id;
  name = some (or_else name u.name);
  email = some (or_else m.email u.email);
  status = active;
  updated_at = now;
}

abbrev patched {ℓ} : {A : Type ℓ} → Patch A → Option A → Option A
patched absent old = old
patched (given new) old = new

-- only ACTIVE and DISABLED change into one another; any other status is ignored
abbrev pub next_status : WorkspaceMemberStatus → Patch WorkspaceMemberStatus → WorkspaceMemberStatus
next_status active (given (some disabled)) = disabled
next_status disabled (given (some active)) = active
next_status old _ = old

-- `updatedAt` is set by the entity manager when it writes.
unfoldable pub updated_member : WorkspaceMember → UpdateWorkspaceMemberInput → WorkspaceMember
updated_member m input = record m {
  name = patched input.name m.name;
  email = patched input.email m.email;
  role = patched input.role m.role;
  permissions = patched input.permissions m.permissions;
  status = next_status m.status input.status;
}

-- `[...new Set(values)]`: the first of equal values stays
unfoldable pub distinct_after :
    List WorkspaceMemberPermission → List WorkspaceMemberPermission → List WorkspaceMemberPermission
distinct_after seen [] = []
distinct_after seen (p ∷ ps) =
    let known = is_some (find (λ q. q == p) seen) in
    let rest = distinct_after (if known then seen else p ∷ seen) ps in
    if known then rest else p ∷ rest

unfoldable pub flat_permissions :
    List (Option (List WorkspaceMemberPermission)) → List WorkspaceMemberPermission
flat_permissions [] = []
flat_permissions (g ∷ gs) = or_else g [] ++ flat_permissions gs

module _ {W : Type 0} (db : Members W) where
  unfoldable pub load_inviter : Option Text → Exec W User
  unfolding units
  load_inviter none = throw (forbidden (units "Invited by user not found"))
  load_inviter (some id) = db.load_user id

  unfoldable pub create_workspace_invite :
      WorkspaceMember → Text → CreateWorkspaceInviteInput → Exec W WorkspaceMember
  unfolding load_inviter
  create_workspace_invite current workspace input = do
    token ← db.random_token
    now ← db.now
    inviter ← load_inviter current.user
    id ← db.next_id
    created ← db.now
    db.create (invited_member id created token (db.add_days 7 now) workspace inviter input)

  unfoldable pub create_service_account : Text → CreateServiceAccountInput → Exec W WorkspaceMember
  create_service_account workspace input = do
    id ← db.next_id
    now ← db.now
    db.create (service_account_member id now workspace input)

  unfoldable pub find_workspace_invite_by_token : Text → Exec W (Option WorkspaceMember)
  find_workspace_invite_by_token token = db.find_invite token

  -- An expired invitation is marked in memory before the throw.
  unfoldable pub refuse_expired : WorkspaceMember → Bool → Exec W (Unit {0})
  unfolding units
  refuse_expired m true = do
    db.assign (record m { status = invite_expired })
    throw (bad_request (units "邀请链接已过期"))
  refuse_expired m false = pure tt

  -- from the check for an existing membership on
  unfoldable pub join_workspace : User → WorkspaceMember → Option Text → Exec W WorkspaceMember
  unfolding units
  join_workspace u m name = do
    existing ← db.find_by_user u.id m.workspace
    guard (not (is_some existing)) (bad_request (units "您已经是该工作空间的成员"))
    guard (not (is_for_other m u)) (bad_request (units "邀请链接仅限指定的邮箱地址使用，请使用正确的邮箱账户接受邀请"))
    accepted ← db.now
    db.update (accepted_member m u name accepted)

  unfoldable pub accept_workspace_invite :
      User → WorkspaceMember → Option Text → Exec W WorkspaceMember
  unfolding refuse_expired join_workspace units
  accept_workspace_invite u m name = do
    now ← db.now
    refuse_expired m (is_expired m now)
    guard (not (same_status m.status active)) (bad_request (units "已接受过邀请，此链接已失效"))
    join_workspace u m name

  unfoldable pub accept_found :
      User → Option Text → Option WorkspaceMember → Exec W (Option WorkspaceMember)
  unfolding accept_workspace_invite
  accept_found u name none = pure none
  accept_found u name (some m) = do r ← accept_workspace_invite u m name; pure (some r)

  unfoldable pub accept_workspace_invite_by_token :
      User → Text → Option Text → Exec W (Option WorkspaceMember)
  unfolding accept_found find_workspace_invite_by_token
  accept_workspace_invite_by_token u token name = do
    found ← find_workspace_invite_by_token token
    accept_found u name found

  -- the check that no other member of the workspace has the new email
  unfoldable pub check_email : WorkspaceMember → Text → Exec W (Unit {0})
  unfolding units
  check_email m email = do
    existing ← db.find_by_email email m.workspace
    guard (not (is_some (find (λ (e : WorkspaceMember). not (e.id == m.id)) existing)))
        (bad_request (units "该工作空间下已存在使用此邮箱的成员"))

  unfoldable pub check_new_email : WorkspaceMember → Patch Text → Exec W (Unit {0})
  unfolding check_email
  check_new_email m (given (some email)) = if non_empty email then check_email m email else pure tt
  check_new_email m _ = pure tt

  unfoldable pub update_workspace_member :
      WorkspaceMember → UpdateWorkspaceMemberInput → Exec W WorkspaceMember
  unfolding check_new_email
  update_workspace_member m input = do
    check_new_email m input.email
    db.update (updated_member m input)

  unfoldable pub get_permissions : WorkspaceMember → Exec W (List WorkspaceMemberPermission)
  unfolding distinct_after flat_permissions
  get_permissions m = do
    groups ← db.group_permissions m
    pure (distinct_after [] (or_else m.permissions [] ++ flat_permissions groups))
