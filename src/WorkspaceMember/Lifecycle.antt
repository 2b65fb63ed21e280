-- ===== src/WorkspaceMember/Lifecycle.antt =====
-- Sequences of the operations that add or change members keep the table valid.
use kudeploy.Prelude.{
  Patch, absent, given, Bool-cases, inl, inr, ◌≡◌, refl, ◌∙◌, ap, true, not, ◌&&◌, ◌||◌, Option,
  none, some, List, Text, ◌==◌, nat_eq, list_eq, list_beq_iff, find, non_empty, Option-cases,
}
use kudeploy.Prelude.Exec.{Exec, ◌>>◌}
use kudeploy.WorkspaceMember.Entity.{
  User, WorkspaceMember, CreateServiceAccountInput, CreateWorkspaceInviteInput,
  UpdateWorkspaceMemberInput,
}
use kudeploy.WorkspaceMember.Service.{
  Members, new_member, updated_member, create_workspace_invite, accept_workspace_invite_by_token,
  update_workspace_member, check_new_email, check_email,
}
use kudeploy.WorkspaceMember.Resolver.{
  add_workspace_member, create_service_account_workspace_member, update_member, update_found,
  create_workspace, add_found, add_owner, create_owner, update_by_id, or_throw, owner_member,
  is_owner, is_admin, is_plain_member,
}
use kudeploy.WorkspaceMember.Database.{IsDatabase, All-find}
use kudeploy.WorkspaceMember.Valid.{
  IsValid, is_sound, added-IsValid, changed-IsValid, count_of_belongs, updated_member_sound,
}
use kudeploy.WorkspaceMember.Accepting.{kept-result, accept_workspace_invite_by_token-leaves}
use kudeploy.WorkspaceMember.Leaves.{
  continue-leaves, Leaves, IsFree, guard-leaves, kept-leaves, made-leaves,
  create_workspace_invite-leaves, create_service_account-leaves, add_user-leaves,
}

module _ {W : Type 0} (db : Members W) (rows : W → List WorkspaceMember)
    (d : IsDatabase db rows) where
  -- valid rows in which a member is the first with its id
  abbrev Holds : WorkspaceMember → List WorkspaceMember → Type 0
  Holds m ms = IsValid ms × (find (λ (x : WorkspaceMember). x.id == m.id) ms ≡ some m)

  checked-leaves :
      (m : WorkspaceMember) (p : Patch Text) {B : Type 0} (k : Exec W B)
      → Leaves rows (Holds m) k IsValid
      → Leaves rows (Holds m) (check_new_email db m p >> k) IsValid
  unfolding check_new_email check_email
  checked-leaves m absent k rest w h = rest w h
  checked-leaves m (given none) k rest w h = rest w h
  checked-leaves m (given (some email)) k rest w h = elim (Bool-cases (non_empty email)) [
    | inl e ↦
        rw (e, d.email_found email m.workspace w)
          (guard-leaves rows (Holds m) IsValid _ _ k (λ ms h. h.0) rest w h)
    | inr e ↦ rw e (rest w h)
  ]

  update_workspace_member-leaves :
      (m : WorkspaceMember) (input : UpdateWorkspaceMemberInput)
      → is_sound m ≡ true
      → Leaves rows (Holds m) (update_workspace_member db m input) IsValid
  unfolding update_workspace_member updated_member
  update_workspace_member-leaves m input s = checked-leaves m input.email _ (λ w (v, found).
      elim (d.updated (updated_member m input) w) [
        | inl (w', done, e) ↦
            rw (done, e)
              (changed-IsValid m (updated_member m input) (rows w) v
                (updated_member_sound m input s) found (λ u ws. refl))
        | inr (f, w', failed, e) ↦ rw (failed, e) v
      ])

  update_by_id-leaves :
      (current : WorkspaceMember) (id : Text) (input : UpdateWorkspaceMemberInput)
      → Leaves rows IsValid (update_by_id db current id input) IsValid
  unfolding update_by_id update_found or_throw
  update_by_id-leaves current id input w v =
      elim (Option-cases (find (λ (m : WorkspaceMember). m.id == id) (rows w))) [
        | inl e ↦ rw (d.id_found id w, e) v
        | inr (m, e) ↦
            let (s, h) = All-find _ (λ m. m.id == id) (rows w) m v.sound e in
            let same : m.id ≡ id = (list_beq_iff m.id id).0 h in
            rw (d.id_found id w, e)
              (guard-leaves rows (Holds m) IsValid
                (not (not (m.id == current.id) && is_owner m.role)) _ _ (λ ms h. h.0)
                (update_workspace_member-leaves m input s) w
                (v, ap (λ i. find (λ (x : WorkspaceMember). x.id == i) (rows w)) same ∙ e))
      ]

  update_member-leaves :
      (current : WorkspaceMember) (id : Text) (input : UpdateWorkspaceMemberInput)
      → Leaves rows IsValid (update_member db current id input) IsValid
  unfolding update_member
  update_member-leaves current id input =
      guard-leaves rows IsValid IsValid (not (is_plain_member current.role)) _ _ (λ ms v. v)
        (update_by_id-leaves current id input)

  service_account-leaves :
      (workspace : Text) (current : WorkspaceMember) (input : CreateServiceAccountInput)
      → Leaves rows IsValid
          (create_service_account_workspace_member db workspace current input)
          IsValid
  unfolding create_service_account_workspace_member
  service_account-leaves workspace current input =
      guard-leaves rows IsValid IsValid (is_admin current.role || is_owner current.role) _ _
        (λ ms v. v) (create_service_account-leaves db rows d workspace input)

  found_user-leaves :
      (workspace email : Text) → Leaves rows IsValid (add_found db workspace email) IsValid
  unfolding add_found or_throw
  found_user-leaves workspace email =
      kept-leaves db rows d (db.find_user email) (d.find_user_keeps email) _ (λ found w v.
        elim (Option-cases found) [
          | inl e ↦ rw e v
          | inr (u, e) ↦ rw e (add_user-leaves db rows d workspace u w v)
        ])

  add_workspace_member-leaves :
      (workspace : Text) (current : WorkspaceMember) (email : Text)
      → Leaves rows IsValid (add_workspace_member db workspace current email) IsValid
  unfolding add_workspace_member
  add_workspace_member-leaves workspace current email =
      guard-leaves rows IsValid IsValid (is_owner current.role) _ _ (λ ms v. v)
        (found_user-leaves workspace email)

  create_owner-leaves :
      (u : User) (workspace : Text)
      → Leaves rows (IsFree u.id workspace) (create_owner db u workspace) IsValid
  unfolding create_owner owner_member new_member
  create_owner-leaves u workspace =
      made-leaves db rows d (IsFree u.id workspace) (λ id t. owner_member id t workspace u)
        (λ ms (v, c). v)
        (λ id t ms (v, c).
          added-IsValid (owner_member id t workspace u) ms v refl
            (λ u' ws' b. count_of_belongs u.id workspace u' ws' ms b c))

  owned-leaves :
      (u : User) (workspace : Text)
      → Leaves rows (IsFree u.id workspace) (add_owner db u workspace) IsValid
  unfolding add_owner
  owned-leaves u workspace w h =
      kept-result db rows d (λ _. workspace) (create_owner db u workspace w)
        (create_owner-leaves u workspace w h)

  create_workspace-leaves : (u : User) → Leaves rows IsValid (create_workspace db u) IsValid
  unfolding create_workspace
  create_workspace-leaves u w v =
      continue-leaves rows IsValid (db.next_id w) (add_owner db u) (rw (d.next_id_keeps w) v)
        (λ id e. owned-leaves u id (db.next_id w).1 (
          rw (d.next_id_keeps w) v,
          d.next_id_fresh id w _ (ap (λ r. (r, (db.next_id w).1)) e) u.id,
        ))

  -- One request, which ends with a value or a throw.
  pub data Step (w : W) : W → Type 0 where
    invited :
        (current : WorkspaceMember) (workspace : Text) (input : CreateWorkspaceInviteInput)
        → Step w (create_workspace_invite db current workspace input w).1
    accepted :
        (u : User) (token : Text) (name : Option Text)
        → Step w (accept_workspace_invite_by_token db u token name w).1
    added :
        (workspace : Text) (current : WorkspaceMember) (email : Text)
        → Step w (add_workspace_member db workspace current email w).1
    service_account_created :
        (workspace : Text) (current : WorkspaceMember) (input : CreateServiceAccountInput)
        → Step w (create_service_account_workspace_member db workspace current input w).1
    changed :
        (current : WorkspaceMember) (id : Text) (input : UpdateWorkspaceMemberInput)
        → Step w (update_member db current id input w).1
    workspace_created : (u : User) → Step w (create_workspace db u w).1

  pub data Reachable (w : W) : W → Type 0 where
    start : Reachable w w
    next : {v v' : W} → Reachable w v → Step v v' → Reachable w v'

  Step-IsValid : {w w' : W} → Step w w' → IsValid (rows w) → IsValid (rows w')
  Step-IsValid (invited current workspace input) v =
      create_workspace_invite-leaves db rows d current workspace input _ v
  Step-IsValid (accepted u token name) v =
      accept_workspace_invite_by_token-leaves db rows d u token name _ v
  Step-IsValid (added workspace current email) v =
      add_workspace_member-leaves workspace current email _ v
  Step-IsValid (service_account_created workspace current input) v =
      service_account-leaves workspace current input _ v
  Step-IsValid (changed current id input) v = update_member-leaves current id input _ v
  Step-IsValid (workspace_created u) v = create_workspace-leaves u _ v

  -- Whatever requests are made, in whatever order and however they end, a table that starts valid
  -- stays so: who has joined has a user, an invitation has none, a service account has neither user
  -- nor token, and no user is in a workspace twice.
  pub Reachable-IsValid : {w w' : W} → Reachable w w' → IsValid (rows w) → IsValid (rows w')
  Reachable-IsValid start v = v
  Reachable-IsValid (next r s) v = Step-IsValid s (Reachable-IsValid r v)
