-- ===== src/WorkspaceMember/Examples.antt =====
-- The theorems on members in a small table in memory.
use kudeploy.Prelude.{
  absent, given, if◌then◌else◌, ◌⊎◌, arith, non_empty, ◌≡◌, refl, true, none, some, List, [], ◌∷◌,
  units, list_beq, find, any, or_else, ◌||◌,
}
use kudeploy.Prelude.Exec.{ok, err, bad_request}
use kudeploy.Prelude.Int.{pos}
use kudeploy.WorkspaceMember.Entity.{
  WorkspaceMember, WorkspaceMemberPermission, manage_members, manage_domains, active, admin,
  disabled, UpdateWorkspaceMemberInput,
}
use kudeploy.WorkspaceMember.Service.{
  new_member, invited_member, get_permissions, accept_workspace_invite_by_token,
  create_workspace_invite, update_workspace_member, updated_member,
}
use kudeploy.WorkspaceMember.Resolver.{owner_member, create_workspace}
use kudeploy.WorkspaceMember.Database.{count, replace}
use kudeploy.WorkspaceMember.Updates.{is_taken, moves_to, update_workspace_member-outcome}
use kudeploy.WorkspaceMember.Valid.{IsValid}
use kudeploy.WorkspaceMember.Table.{memory, memory-IsDatabase, alice, bob}
use kudeploy.WorkspaceMember.Permissions.{
  Permissions, IsDistinct, includes, get_permissions-IsDistinct,
}
use kudeploy.WorkspaceMember.Invitations.{accept_invite-joined}
use kudeploy.WorkspaceMember.Lifecycle.{
  start, next, invited, accepted, workspace_created, Reachable-IsValid,
}

abbrev invite : WorkspaceMember
unfolding invited_member new_member units
invite =
    invited_member (units "9") (pos 1) (units "token") (pos 200) (units "5") alice
      (record { role = admin; email = some (units "bob@a.io") })

abbrev rows : List WorkspaceMember
rows = invite ∷ []

abbrev keep : List WorkspaceMember → List WorkspaceMember
keep w = w

-- Alice makes a workspace, invites somebody, and Bob accepts.
abbrev founded : List WorkspaceMember
founded = (create_workspace memory alice []).1

abbrev after_invite : List WorkspaceMember
after_invite =
    (create_workspace_invite memory (owner_member (units "1") (pos 1) (units "5") alice) (units "0")
      (record { role = admin; email = none }) founded).1

abbrev after_accept : List WorkspaceMember
after_accept = (accept_workspace_invite_by_token memory bob (units "token") none after_invite).1

empty-IsValid : IsValid []
unfolding count
empty-IsValid = record { sound = tt; unique = λ u ws. omega arith }

Reachable-IsValid_example : IsValid after_accept
Reachable-IsValid_example =
    Reachable-IsValid memory keep memory-IsDatabase
      (next (next (next start (workspace_created alice)) (invited _ (units "0") _))
        (accepted bob (units "token") none))
      empty-IsValid

rows-IsValid : IsValid rows
unfolding count invite
rows-IsValid = record { sound = (refl, tt); unique = λ u ws. omega arith }

accept_invite-joined_example :
    (m' : WorkspaceMember) × (w' : List WorkspaceMember) × (accept_workspace_invite_by_token memory
        bob
        (units "token")
        none
        rows
      ≡ (ok (some m'), w'))
    × (w' ≡ replace m' rows)
    × (m'.id ≡ invite.id)
    × (m'.user ≡ some bob.id)
    × (m'.name ≡ some bob.name)
    × (m'.status ≡ active)
    × (m'.role ≡ some admin)
    × (count bob.id (units "5") w' ≡ 1)
unfolding units list_beq find invite non_empty
accept_invite-joined_example =
    accept_invite-joined memory keep memory-IsDatabase bob (units "token") none invite (pos 100)
      rows rows rows-IsValid refl refl (λ t' w2 same. (_, refl)) refl

get_permissions-IsDistinct_example :
    (ps : Permissions) × (get_permissions memory
        (record invite { permissions = some (manage_domains ∷ []) })
        rows
      ≡ (ok ps, rows))
    × IsDistinct ps
    × ((p : WorkspaceMemberPermission)
        → includes ps p ≡ (
            includes (manage_domains ∷ []) p
            || any
                (λ g. includes (or_else g []) p)
                (some (manage_members ∷ manage_domains ∷ []) ∷ none ∷ [])))
get_permissions-IsDistinct_example =
    get_permissions-IsDistinct memory (record invite { permissions = some (manage_domains ∷ []) })
      (some (manage_members ∷ manage_domains ∷ []) ∷ none ∷ []) rows rows refl

abbrev taking : UpdateWorkspaceMemberInput
taking = record {
  name = absent;
  email = given (some (units "bob@a.io"));
  role = absent;
  permissions = absent;
  status = given (some disabled);
}

abbrev carol : WorkspaceMember
carol = owner_member (units "3") (pos 1) (units "5") alice

-- Carol asks for the email of Bob's invitation.
update_workspace_member-outcome_example :
    (update_workspace_member memory carol taking rows ≡ (
      if is_taken taking.email carol rows
      then (err (bad_request (units "该工作空间下已存在使用此邮箱的成员")), rows)
      else memory.update (updated_member carol taking) rows))
    × (((updated_member carol taking).status ≡ carol.status)
        ⊎ ((taking.status ≡ given (some (updated_member carol taking).status))
            × (moves_to carol.status (updated_member carol taking).status ≡ true)))
update_workspace_member-outcome_example =
    update_workspace_member-outcome memory (λ w. w) memory-IsDatabase carol taking rows
