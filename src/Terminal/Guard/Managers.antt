-- ===== src/Terminal/Guard/Managers.antt =====
-- Who the guard of terminals lets through.
use kudeploy.Prelude.{
  non_empty, ◌≡◌, refl, sym, ap, ◌∙◌, Bool, true, false, Option, none, some, List, [], ◌∷◌, ◌++◌,
  Text, nat_eq, list_eq, arith, Bool-cases, inl, inr, ◌⊎◌, if◌then◌else◌,
}
use kudeploy.Prelude.Exec.{Result, ok, err, Exec, pure, recover, continue}
use kudeploy.Project.{Workspace}
use kudeploy.WorkspaceMember.Entity.{
  WorkspaceMember, WorkspaceMemberRole, owner, admin, member, WorkspaceMemberPermission,
  same_status, disabled, manage_workspace, manage_domains, manage_members,
}
use kudeploy.Ability.{
  includes, Rule, can, can_if, id_is, create, update, manage, service_subject, api_key_subject,
  workspace_subject, workspace_name, domain_subject, workspace_member_subject, group_subject,
  group_member_subject, role_rules, permission_rules, base_rules,
  build_workspace_member_permission_ability,
}
use kudeploy.Ability.Deciding.{last_rule}
use kudeploy.Terminal.Guard.{
  Handshake, GuardOutside, get_workspace_id, can_update_service, both_ids, if_member, if_workspace,
  if_required, can_activate,
}

abbrev permitted : Bool → Bool → Bool → Text → List Rule
permitted a b c workspace =
    (if a
      then can manage workspace_subject ∷ can_if manage workspace_name (id_is workspace) ∷ []
      else [])
    ++ ((if b then can manage domain_subject ∷ [] else [])
        ++ (if c
            then can manage workspace_member_subject
              ∷ can manage group_subject
              ∷ can manage group_member_subject
              ∷ []
            else []))

-- No permission is about services.
permitted_inert :
    (v a b c : Bool) (workspace : Text)
    → last_rule v (permitted a b c workspace) update service_subject [] ≡ v
unfolding last_rule
permitted_inert v true true true workspace = refl
permitted_inert v true true false workspace = refl
permitted_inert v true false true workspace = refl
permitted_inert v true false false workspace = refl
permitted_inert v false true true workspace = refl
permitted_inert v false true false workspace = refl
permitted_inert v false false true workspace = refl
permitted_inert v false false false workspace = refl

false_true : {A : Type 0} → false ≡ true → A
false_true h = absurd (ground (arith, h))

by_role :
    (role : Option WorkspaceMemberRole) (a b c : Bool) (workspace : Text)
    → last_rule false
        (base_rules
          ++ (can create api_key_subject
              ∷ (role_rules role workspace ++ permitted a b c workspace)))
        update
        service_subject
        []
      ≡ true
    → (role ≡ some owner) ⊎ (role ≡ some admin)
unfolding last_rule
by_role (some owner) a b c workspace h = inl refl
by_role (some admin) a b c workspace h = inr refl
by_role (some member) a b c workspace h =
    false_true (sym (permitted_inert false a b c workspace) ∙ h)
by_role none a b c workspace h = false_true (sym (permitted_inert false a b c workspace) ∙ h)

can_update_service-role :
    (m : WorkspaceMember) (permissions : List WorkspaceMemberPermission)
    → can_update_service (build_workspace_member_permission_ability (some m) permissions) ≡ true
    → (same_status m.status disabled ≡ false) × ((m.role ≡ some owner) ⊎ (m.role ≡ some admin))
unfolding can_update_service build_workspace_member_permission_ability permission_rules last_rule
can_update_service-role m permissions = elim (Bool-cases (same_status m.status disabled)) [
  | inl e ↦ rw e (λ h. false_true h)
  | inr e ↦ rw e (λ h. (
    refl,
    by_role m.role (includes permissions manage_workspace) (includes permissions manage_domains)
        (includes permissions manage_members) m.workspace h,
  ))
]

-- A call that has a value got there.
continue-ok :
    {W A B : Type 0} (r : Result A × W) (f : A → Exec W B) (b : B) (w : W)
    → continue r f ≡ (ok b, w)
    → (a : A) × (v : W) × (r ≡ (ok a, v)) × (f a v ≡ (ok b, w))
continue-ok (ok a, v) f b w h = (a, v, refl, h)
continue-ok (err e, v) f b w h = ground (arith, h)

recover-some :
    {W A : Type 0} (r : Result (Option A) × W) (b : A) (w : W)
    → recover r (λ e. pure none) ≡ (ok (some b), w)
    → r ≡ (ok (some b), w)
recover-some (ok a, v) b w h = h
recover-some (err e, v) b w h = ground (arith, h)

module _ {W : Type 0} (o : GuardOutside W) (ws : Workspace) (w' : W) where
  -- not disabled, and an owner or an admin
  abbrev pub ManagesServices : WorkspaceMember → Type 0
  ManagesServices m =
      (same_status m.status disabled ≡ false) × ((m.role ≡ some owner) ⊎ (m.role ≡ some admin))

  -- The member of that user, as it is found in the state, has such a role.
  abbrev pub FindsManager : Text → W → Type 0
  FindsManager user v =
      (m : WorkspaceMember) × (v' : W) × (o.find_member user ws v ≡ (ok (some m), v'))
      × ManagesServices m

  -- The lookups of the guard, each in the state that the one before has left: the user of the
  -- session, that user's record, the workspace of the handshake, and the user's member there.
  abbrev pub AdmitsManager : Handshake → W → Type 0
  AdmitsManager socket w =
      (user_id workspace_id user : Text) × (w1 w2 w3 : W) × (o.session_user_id w
        ≡ (ok (some user_id), w1))
      × (get_workspace_id o.decode_uri socket ≡ ok (some workspace_id))
      × (o.find_user user_id w1 ≡ (ok user, w2))
      × (o.find_workspace workspace_id w2 ≡ (ok (some ws), w3))
      × FindsManager user w3

  given : Result (Option Workspace) → Workspace
  given (ok (some x)) = x
  given _ = ws

  refused :
      (r : Result (Option Workspace)) (u : W)
      → r ≡ ok none
      → ◌≡◌ {A = Result (Option Workspace) × W} (r, u) (ok (some ws), w')
      → ⊥
  refused r u e k = ground (arith, sym e ∙ ap (λ t. t.0) k)

  from_member :
      (user : Text) (found : Workspace) (m : Option WorkspaceMember) (v v' : W)
      → o.find_member user found v ≡ (ok m, v')
      → if_member o found m v' ≡ (ok (some ws), w')
      → (found ≡ ws) × FindsManager user v
  unfolding given
  from_member user found none v v' e h = ground (arith, h)
  from_member user found (some m) v v' e h =
      let (permissions, u, _, k) = continue-ok (o.permissions_of m v') _ (some ws) w' h in
      elim (Bool-cases
        (can_update_service (build_workspace_member_permission_ability (some m) permissions))) [
          | inl t ↦
              let manages = can_update_service-role m permissions t in
              let same : found ≡ ws = ap (λ r. given r.0) (rw t at k) in
              (same, (m, v', rw same at e, manages))
          | inr f ↦ absurd (refused (ok none) u refl (rw f at k))
        ]

  from_workspace :
      (user : Text) (found : Option Workspace) (v : W)
      → if_workspace o user found v ≡ (ok (some ws), w')
      → (found ≡ some ws) × FindsManager user v
  from_workspace user none v h = ground (arith, h)
  from_workspace user (some found) v h =
      let (m, v', e, k) = continue-ok (o.find_member user found v) _ (some ws) w' h in
      let (same, manager) = from_member user found m v v' e k in (ap some same, manager)

  from_both :
      (user_id workspace_id : Option Text) (v : W)
      → if_required o (both_ids user_id workspace_id) v ≡ (ok (some ws), w')
      → (u i user : Text) × (w2 w3 : W) × (user_id ≡ some u)
        × (workspace_id ≡ some i)
        × (o.find_user u v ≡ (ok user, w2))
        × (o.find_workspace i w2 ≡ (ok (some ws), w3))
        × FindsManager user w3
  unfolding non_empty
  from_both none i v h = ground (arith, h)
  from_both (some u) none v h = ground (arith, h)
  from_both (some []) (some i) v h = ground (arith, h)
  from_both (some (c ∷ u)) (some i) v h =
      let (user, w2, found_user, h1) = continue-ok (o.find_user (c ∷ u) v) _ (some ws) w' h in
      let (found, w3, e, h2) = continue-ok (o.find_workspace i w2) _ (some ws) w' h1 in
      let (same, manager) = from_workspace user found w3 h2 in
      ((c ∷ u), i, user, w2, w3, refl, refl, found_user, rw same at e, manager)

  -- If the guard lets a start message through, with a workspace in the context that it leaves, then
  -- the session has a user, the handshake names that workspace, and the user's member there, looked
  -- up right after, is not disabled and is an owner or an admin: no permission of a member with
  -- another role is enough.
  pub can_activate-AdmitsManager :
      (socket : Handshake) (w : W)
      → can_activate o socket w ≡ (ok (some ws), w')
      → AdmitsManager socket w
  unfolding can_activate
  can_activate-AdmitsManager socket w h =
      let body = recover-some _ ws w' h in
      let (user_id, w1, signed_in, h1) = continue-ok (o.session_user_id w) _ (some ws) w' body in
      let (workspace_id, v, named, h2) =
        continue-ok (get_workspace_id o.decode_uri socket, w1) _ (some ws) w' h1 in
      let (u, i, user, w2, w3, same_user, same_workspace, found_user, found_workspace, manager) =
        from_both user_id workspace_id v h2 in
      let same_state : w1 ≡ v = ap (λ r. r.1) named in
      let at_user =
        signed_in ∙ ap (λ t. (ok t, w1)) same_user ∙ ap (λ t. (ok (some u), t)) same_state in
      let at_workspace = ap (λ r. r.0) named ∙ ap ok same_workspace in
      (u, i, user, v, w2, w3, at_user, at_workspace, found_user, found_workspace, manager)
