-- ===== src/Ability/Examples.antt =====
-- The theorem on the rules for an admin with MANAGE_WORKSPACE and a workspace of somebody else.
use kudeploy.Prelude.{refl, ◌≡◌, true, false, any, some, [], ◌∷◌, units}
use kudeploy.WorkspaceMember.Entity.{WorkspaceMember, admin, manage_workspace}
use kudeploy.WorkspaceMember.Service.{new_member}
use kudeploy.Ability.{
  delete, update, workspace_subject, workspace_name, build_workspace_member_permission_ability,
}
use kudeploy.Ability.Deciding.{last_rule, may_change_workspace}
use kudeploy.Prelude.Int.{pos}

abbrev carol : WorkspaceMember
unfolding new_member units
carol = record (new_member (units "3") (pos 1) (units "carol") (units "5")) { role = some admin }

may_change_workspace_example :
    (last_rule false
        (build_workspace_member_permission_ability (some carol) (manage_workspace ∷ []))
        delete
        workspace_subject
        (units "6")
      ≡ true)
    × (last_rule false
          (build_workspace_member_permission_ability (some carol) (manage_workspace ∷ []))
          update
          workspace_name
          (units "6")
        ≡ false)
unfolding any carol kudeploy.Prelude.list_beq
may_change_workspace_example =
    may_change_workspace (last_rule false) (λ rules action subject id. refl) carol
      (manage_workspace ∷ []) (units "6")
