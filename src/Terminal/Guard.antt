-- ===== src/Terminal/Guard.antt =====
-- app/service-terminal/service-terminal.guard.ts: who may start a terminal.
pub mod Managers
use kudeploy.Prelude.{
  ℕ, ◌≡◌, refl, sym, ap, ◌∙◌, Bool, true, false, not, ◌&&◌, ◌||◌, Option, none, some, List, [], ◌∷◌,
  ◌++◌, Text, units, ◌==◌, nat_eq, list_eq, or_else, arith, Bool-cases, inl, inr, ◌⊎◌,
  if◌then◌else◌, non_empty, trim, find,
}
use kudeploy.Prelude.Exec.{
  Result, ok, err, Failure, plain_error, Exec, pure, lift, try_catch, recover, continue, ◌>>=◌,
}
use kudeploy.Project.{Workspace}
use kudeploy.WorkspaceMember.Entity.{
  WorkspaceMember, WorkspaceMemberRole, owner, admin, member, WorkspaceMemberPermission,
  same_status, disabled, manage_workspace, manage_domains, manage_members,
}
use kudeploy.Ability.{
  includes, Rule, can, can_if, id_is, create, update, manage, service_subject, api_key_subject,
  workspace_subject, domain_subject, workspace_member_subject, group_subject, group_member_subject,
  role_rules, permission_rules, base_rules, build_workspace_member_permission_ability,
}
use kudeploy.Ability.Deciding.{last_rule}
use kudeploy.Terminal.State.{Gateway, StartPayload}
use kudeploy.Terminal.Start.{handle_start}

-- the header `x-workspace-id`, which may be there several times
pub data HeaderValue : Type 0 where
  missing : HeaderValue
  one : Text → HeaderValue
  several : List Text → HeaderValue

-- What the guard reads of a socket's handshake.
pub record Handshake : Type 0 where
  pub auth_workspace_id : Option Text
  pub workspace_header : HeaderValue
  pub cookie : Option Text

-- The session of the headers with its user, the entities, and `decodeURIComponent`, which may throw.
pub record GuardOutside (W : Type 0) : Type 0 where
  pub session_user_id : Exec W (Option Text)
  pub find_user : Text → Exec W Text
  pub find_workspace : Text → Exec W (Option Workspace)
  pub find_member : Text → Workspace → Exec W (Option WorkspaceMember)
  pub permissions_of : WorkspaceMember → Exec W (List WorkspaceMemberPermission)
  pub decode_uri : Text → Result Text

abbrev prepend_unit : ℕ → List Text → List Text
prepend_unit c [] = (c ∷ []) ∷ []
prepend_unit c (part ∷ parts) = (c ∷ part) ∷ parts

-- `s.split(c)`
unfoldable pub split_at_unit : ℕ → Text → List Text
split_at_unit c [] = [] ∷ []
split_at_unit c (x ∷ s) =
    let rest = split_at_unit c s in if x == c then [] ∷ rest else prepend_unit x rest

-- what is before the first `=`, and what is after it
unfoldable pub key_and_value : Text → Text × Text
key_and_value [] = ([], [])
key_and_value (x ∷ s) =
    let rest = key_and_value s in if x == 61 then ([], s) else (x ∷ rest.0, rest.1)

abbrev non_blank : Text → Option Text
non_blank s = if non_empty (trim s) then some (trim s) else none

abbrev decoded : Result Text → Result (Option Text)
decoded (ok s) = ok (non_blank s)
decoded (err e) = err e

unfoldable pub cookie_among : (Text → Result Text) → Text → List Text → Result (Option Text)
unfolding key_and_value trim non_empty
cookie_among decode_uri name [] = ok none
cookie_among decode_uri name (cookie ∷ cookies) =
    let rest = cookie_among decode_uri name cookies in
    let entry = key_and_value (trim cookie) in
    if entry.0 == name then decoded (decode_uri entry.1) else rest

unfoldable pub get_cookie_value : (Text → Result Text) → Option Text → Text → Result (Option Text)
unfolding cookie_among split_at_unit
get_cookie_value decode_uri none name = ok none
get_cookie_value decode_uri (some header) name =
    if non_empty header then cookie_among decode_uri name (split_at_unit 59 header) else ok none

abbrev trimmed_some : Option Text → Option Text
trimmed_some none = none
trimmed_some (some s) = some (trim s)

abbrev of_header : HeaderValue → Option Text
of_header missing = none
of_header (one s) = non_blank s
of_header (several values) = trimmed_some (find (λ s. non_empty (trim s)) values)

abbrev of_auth : Option Text → Option Text
of_auth none = none
of_auth (some s) = non_blank s

abbrev first_given : Option Text → Option Text → Result (Option Text) → Result (Option Text)
first_given (some s) _ cookie = ok (some s)
first_given none (some s) cookie = ok (some s)
first_given none none cookie = cookie

unfoldable pub get_workspace_id : (Text → Result Text) → Handshake → Result (Option Text)
unfolding get_cookie_value trim non_empty find units
get_workspace_id decode_uri socket =
    first_given (of_auth socket.auth_workspace_id) (of_header socket.workspace_header)
      (get_cookie_value decode_uri socket.cookie (units "workspace_id"))

-- `ability.can(PermissionAction.UPDATE, Service)`, for a class, which has no id
unfoldable pub can_update_service : List Rule → Bool
unfolding last_rule
can_update_service rules = last_rule false rules update service_subject []

abbrev pub both_ids : Option Text → Option Text → Option (Text × Text)
both_ids (some user_id) (some workspace_id) =
    if non_empty user_id then some (user_id, workspace_id) else none
both_ids _ _ = none

module _ {W : Type 0} (o : GuardOutside W) where
  abbrev pub if_member : Workspace → Option WorkspaceMember → Exec W (Option Workspace)
  if_member workspace none = pure none
  if_member workspace (some m) = do
    permissions ← o.permissions_of m
    pure (
        if can_update_service (build_workspace_member_permission_ability (some m) permissions)
        then some workspace
        else none)

  abbrev pub if_workspace : Text → Option Workspace → Exec W (Option Workspace)
  if_workspace user none = pure none
  if_workspace user (some workspace) = do m ← o.find_member user workspace; if_member workspace m

  abbrev pub if_required : Option (Text × Text) → Exec W (Option Workspace)
  if_required none = pure none
  if_required (some (user_id, workspace_id)) = do
    user ← o.find_user user_id
    workspace ← o.find_workspace workspace_id
    if_workspace user workspace

  -- The workspace of the context that is left on the socket, or none if the guard refuses.
  unfoldable pub can_activate : Handshake → Exec W (Option Workspace)
  unfolding get_workspace_id can_update_service build_workspace_member_permission_ability non_empty
  can_activate socket =
      try_catch
        (do
          user_id ← o.session_user_id
          workspace_id ← lift (get_workspace_id o.decode_uri socket)
          if_required (both_ids user_id workspace_id))
        (λ e. pure none)

-- A start message reaches its handler only if the guard lets it.
unfoldable pub guarded_start : ℕ → Text → Option Workspace → StartPayload → Gateway → Gateway
unfolding handle_start
guarded_start p client none payload g = g
guarded_start p client (some workspace) payload g =
    handle_start p client (some (some workspace)) payload g
