-- ===== src/Ability/Deciding.antt =====
-- Who may delete or update a workspace. The library that reads the
-- rules is a parameter: it is documented to let the last rule that fits a request decide, and to
-- refuse a request that none fits.
use kudeploy.Prelude.{
  arith, ◌≡◌, refl, ap, ◌∙◌, Bool, true, false, not, ◌&&◌, ◌||◌, Option, none, some, List, [], ◌∷◌,
  ◌++◌, Text, ◌==◌, nat_eq, list_eq, if◌then◌else◌, Bool-cases, inl, inr,
}
use kudeploy.WorkspaceMember.Entity.{
  WorkspaceMember, WorkspaceMemberRole, owner, admin, member, WorkspaceMemberPermission,
  manage_workspace, manage_domains, manage_members, same_status, disabled,
}
use kudeploy.Ability.{
  PermissionAction, can, can_if, read, create, update, delete, manage, Subject, all_subjects,
  user_subject, workspace_subject, workspace_name, workspace_member_subject, api_key_subject,
  domain_subject, group_subject, group_member_subject, service_subject, Condition, always, id_is,
  id_is_not, Rule, includes, role_rules, permission_rules,
  build_workspace_member_permission_ability,
}

abbrev pub fits_action : PermissionAction → PermissionAction → Bool
fits_action manage _ = true
fits_action read read = true
fits_action create create = true
fits_action update update = true
fits_action delete delete = true
fits_action _ _ = false

abbrev pub fits_subject : Subject → Subject → Bool
fits_subject all_subjects _ = true
fits_subject user_subject user_subject = true
fits_subject workspace_subject workspace_subject = true
fits_subject workspace_name workspace_name = true
fits_subject workspace_member_subject workspace_member_subject = true
fits_subject api_key_subject api_key_subject = true
fits_subject domain_subject domain_subject = true
fits_subject group_subject group_subject = true
fits_subject group_member_subject group_member_subject = true
fits_subject service_subject service_subject = true
fits_subject _ _ = false

abbrev pub fits_condition : Condition → Text → Bool
fits_condition always id = true
fits_condition (id_is x) id = id == x
fits_condition (id_is_not x) id = not (id == x)

abbrev pub fits : Rule → PermissionAction → Subject → Text → Bool
fits r action subject id =
    fits_action r.action action && (fits_subject r.subject subject && fits_condition r.condition id)

-- what the last rule that fits says, or else `verdict`
unfoldable pub last_rule : Bool → List Rule → PermissionAction → Subject → Text → Bool
last_rule verdict [] action subject id = verdict
last_rule verdict (r ∷ rules) action subject id =
    last_rule (if fits r action subject id then not r.inverted else verdict) rules action subject id

last_rule-append :
    (verdict : Bool) (rules more : List Rule) (action : PermissionAction) (subject : Subject)
    (id : Text)
    → last_rule verdict (rules ++ more) action subject id
      ≡ last_rule (last_rule verdict rules action subject id) more action subject id
unfolding last_rule
last_rule-append verdict [] more action subject id = refl
last_rule-append verdict (r ∷ rules) more action subject id =
    last_rule-append (if fits r action subject id then not r.inverted else verdict) rules more
      action subject id

abbrev workspace_part : Bool → Text → List Rule
workspace_part b workspace =
    if b
    then can manage workspace_subject ∷ can_if manage workspace_name (id_is workspace) ∷ []
    else []

abbrev other_part : Bool → Bool → List Rule
other_part b c =
    (if b then can manage domain_subject ∷ [] else [])
    ++ (if c
        then can manage workspace_member_subject
          ∷ can manage group_subject
          ∷ can manage group_member_subject
          ∷ []
        else [])

-- What the rules of each permission do to a request to delete a workspace, or to update one.
workspace_part_delete :
    (b verdict : Bool) (workspace id : Text)
    → last_rule verdict (workspace_part b workspace) delete workspace_subject id ≡ (b || verdict)
unfolding last_rule
workspace_part_delete true verdict workspace id = refl
workspace_part_delete false verdict workspace id = refl

workspace_part_update :
    (b verdict : Bool) (workspace id : Text)
    → last_rule verdict (workspace_part b workspace) update workspace_name id
      ≡ (if b then if id == workspace then true else verdict else verdict)
unfolding last_rule
workspace_part_update true verdict workspace id = refl
workspace_part_update false verdict workspace id = refl

other_part_delete :
    (b c verdict : Bool) (id : Text)
    → last_rule verdict (other_part b c) delete workspace_subject id ≡ verdict
unfolding last_rule
other_part_delete true true verdict id = refl
other_part_delete true false verdict id = refl
other_part_delete false true verdict id = refl
other_part_delete false false verdict id = refl

other_part_update :
    (b c verdict : Bool) (id : Text)
    → last_rule verdict (other_part b c) update workspace_name id ≡ verdict
unfolding last_rule
other_part_update true true verdict id = refl
other_part_update true false verdict id = refl
other_part_update false true verdict id = refl
other_part_update false false verdict id = refl

abbrev pub is_owner : Option WorkspaceMemberRole → Bool
is_owner (some owner) = true
is_owner _ = false

abbrev pub is_owner_or_admin : Option WorkspaceMemberRole → Bool
is_owner_or_admin (some owner) = true
is_owner_or_admin (some admin) = true
is_owner_or_admin _ = false

branches-not : (b : Bool) → (if not b then false else true) ≡ b
branches-not true = refl
branches-not false = refl

role_rules_delete :
    (role : Option WorkspaceMemberRole) (workspace id : Text)
    → last_rule false (role_rules role workspace) delete workspace_subject id ≡ is_owner role
unfolding last_rule
role_rules_delete (some owner) workspace id = refl
role_rules_delete (some admin) workspace id = refl
role_rules_delete (some member) workspace id = refl
role_rules_delete none workspace id = refl

role_rules_update :
    (role : Option WorkspaceMemberRole) (workspace id : Text)
    → last_rule false (role_rules role workspace) update workspace_name id
      ≡ (is_owner_or_admin role && id == workspace)
unfolding last_rule
role_rules_update (some owner) workspace id = branches-not (id == workspace)
role_rules_update (some admin) workspace id = branches-not (id == workspace)
role_rules_update (some member) workspace id = refl
role_rules_update none workspace id = refl

both_conditions :
    (a m same : Bool)
    → (if a then if same then true else (m && same) else (m && same)) ≡ (same && (a || m))
both_conditions true m true = refl
both_conditions true m false = ground arith
both_conditions false m true = ground arith
both_conditions false m false = ground arith

-- For an enabled member, up to the rules of its role.
module _ (m : WorkspaceMember) (permissions : List WorkspaceMemberPermission) (id : Text) where
  enabled_delete :
      last_rule false
        (role_rules m.role m.workspace ++ permission_rules permissions m.workspace)
        delete
        workspace_subject
        id
      ≡ (includes permissions manage_workspace || is_owner m.role)
  unfolding permission_rules
  enabled_delete =
      let others =
        other_part_delete (includes permissions manage_domains)
          (includes permissions manage_members) in
      last_rule-append false (role_rules m.role m.workspace) _ delete workspace_subject id
      ∙ last_rule-append _ (workspace_part (includes permissions manage_workspace) m.workspace) _
          delete workspace_subject id
      ∙ others _ id
      ∙ workspace_part_delete (includes permissions manage_workspace) _ m.workspace id
      ∙ ap (◌||◌ (includes permissions manage_workspace)) (role_rules_delete m.role m.workspace id)

  enabled_update :
      last_rule false
        (role_rules m.role m.workspace ++ permission_rules permissions m.workspace)
        update
        workspace_name
        id
      ≡ (id == m.workspace && (includes permissions manage_workspace || is_owner_or_admin m.role))
  unfolding permission_rules
  enabled_update =
      let p = includes permissions manage_workspace in
      let others =
        other_part_update (includes permissions manage_domains)
          (includes permissions manage_members) in
      last_rule-append false (role_rules m.role m.workspace) _ update workspace_name id
      ∙ last_rule-append _ (workspace_part p m.workspace) _ update workspace_name id
      ∙ others _ id
      ∙ workspace_part_update p _ m.workspace id
      ∙ ap (λ v. if p then if id == m.workspace then true else v else v)
          (role_rules_update m.role m.workspace id)
      ∙ both_conditions p (is_owner_or_admin m.role) (id == m.workspace)

-- By the documented reading of the rules, for a member who is not disabled: it may delete
-- workspaces, asked for by their class, exactly when it has MANAGE_WORKSPACE or is an owner; and it
-- may update the workspace with an id, asked for by the name 'Workspace', exactly when that is its
-- own workspace and it has MANAGE_WORKSPACE or is an owner or an admin. A disabled member may do
-- neither.
pub may_change_workspace :
    (allows : List Rule → PermissionAction → Subject → Text → Bool)
    (documented : (rules : List Rule) (action : PermissionAction) (subject : Subject) (id : Text)
      → allows rules action subject id ≡ last_rule false rules action subject id)
    (m : WorkspaceMember) (permissions : List WorkspaceMemberPermission) (id : Text)
    → (allows
          (build_workspace_member_permission_ability (some m) permissions)
          delete
          workspace_subject
          id
        ≡ (not (same_status m.status disabled)
            && (includes permissions manage_workspace || is_owner m.role)))
      × (allows
            (build_workspace_member_permission_ability (some m) permissions)
            update
            workspace_name
            id
          ≡ (not (same_status m.status disabled)
              && (id == m.workspace
                  && (includes permissions manage_workspace || is_owner_or_admin m.role))))
unfolding build_workspace_member_permission_ability
may_change_workspace allows documented m permissions id =
    elim (Bool-cases (same_status m.status disabled)) [
      | inl e ↦ (
        documented _ delete workspace_subject id ∙ rw e (unfold last_rule in refl),
        documented _ update workspace_name id ∙ rw e (unfold last_rule in refl),
      )
      | inr e ↦ (
        documented _ delete workspace_subject id
            ∙ rw e (unfold last_rule in enabled_delete m permissions id),
        documented _ update workspace_name id
            ∙ rw e (unfold last_rule in enabled_update m permissions id),
      )
    ]
