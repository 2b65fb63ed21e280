-- ===== src/WorkspaceMember/Accepting.antt =====
-- Accepting an invitation leaves the table valid: the user who joins was not a member before.
use kudeploy.Prelude.{
  Bool-cases, inl, inr, ◌≡◌, refl, Bool, true, false, not, Option, some, List, Text, nat_eq,
  list_eq, find, is_some, Option-cases,
}
use kudeploy.Prelude.Exec.{Result, ok, err, Failure, pure, throw, continue, ◌>>=◌}
use kudeploy.Prelude.Int.{ℤ}
use kudeploy.WorkspaceMember.Entity.{User, WorkspaceMember, active, same_status, invite_expired}
use kudeploy.WorkspaceMember.Service.{
  Members, accepted_member, accept_workspace_invite, accept_found, join_workspace,
  accept_workspace_invite_by_token, refuse_expired, is_expired, is_for_other,
  find_workspace_invite_by_token,
}
use kudeploy.WorkspaceMember.Database.{belongs, is_invite, IsDatabase, All-find, count_of_find}
use kudeploy.WorkspaceMember.Valid.{
  IsValid, is_sound, joined-IsValid, count_of_belongs, accepted_member_sound,
}
use kudeploy.WorkspaceMember.Leaves.{
  Leaves, IsFree, then-leaves, guard-leaves, keeps-leaves, kept-leaves,
}

module _ {W : Type 0} (db : Members W) (rows : W → List WorkspaceMember)
    (d : IsDatabase db rows) where
  thrown_keeps :
      {A : Type 0} (B : Type 0) (e : Failure) {w : W} (r : Result A × W)
      → rows r.1 ≡ rows w
      → rows (continue r (λ _. throw {A = B} e)).1 ≡ rows w
  thrown_keeps B e (ok a, w') k = k
  thrown_keeps B e (err _, w') k = k

  pub refuse_expired-keeps :
      (m : WorkspaceMember) (b : Bool) (w : W) → rows (refuse_expired db m b w).1 ≡ rows w
  unfolding refuse_expired
  refuse_expired-keeps m true w =
      thrown_keeps Unit _ (db.assign (record m { status = invite_expired }) w) (d.assign_keeps _ w)
  refuse_expired-keeps m false w = refl

  pub kept-result :
      {A B : Type 0} (f : A → B) (r : Result A × W)
      → IsValid (rows r.1)
      → IsValid (rows (continue r (λ a. pure (f a))).1)
  kept-result f (ok a, w) v = v
  kept-result f (err e, w) v = v

  -- the last steps of accepting, once the user is known not to be a member
  join-leaves :
      (u : User) (m : WorkspaceMember) (name : Option Text)
      → ((t : ℤ) → is_sound (accepted_member m u name t) ≡ true)
      → Leaves rows
          (IsFree u.id m.workspace)
          (do accepted ← db.now; db.update (accepted_member m u name accepted))
          IsValid
  unfolding accepted_member
  join-leaves u m name s =
      then-leaves rows (IsFree u.id m.workspace) IsValid db.now _ (λ ms (v, c). v)
        (keeps-leaves rows (IsFree u.id m.workspace) db.now d.now_keeps)
        (λ t w (v, c). elim (d.updated (accepted_member m u name t) w) [
          | inl (w', done, e) ↦
              rw (done, e)
                (joined-IsValid (accepted_member m u name t) (rows w) v (s t)
                  (λ u' ws' b. count_of_belongs u.id m.workspace u' ws' (rows w) b c))
          | inr (f, w', failed, e) ↦ rw (failed, e) v
        ])

  join_workspace-leaves :
      (u : User) (m : WorkspaceMember) (name : Option Text)
      → ((t : ℤ) → is_sound (accepted_member m u name t) ≡ true)
      → Leaves rows IsValid (join_workspace db u m name) IsValid
  unfolding join_workspace
  join_workspace-leaves u m name s w v =
      elim (Bool-cases (is_some (find (belongs u.id m.workspace) (rows w)))) [
        | inl already ↦ rw (d.user_found u.id m.workspace w, already) v
        | inr free ↦
            rw (d.user_found u.id m.workspace w, free)
              (guard-leaves rows (IsFree u.id m.workspace) IsValid (not (is_for_other m u)) _ _
                (λ ms (v, c). v) (join-leaves u m name s) w
                (v, count_of_find u.id m.workspace (rows w) free))
      ]

  accept_workspace_invite-leaves :
      (u : User) (m : WorkspaceMember) (name : Option Text)
      → ((t : ℤ) → is_sound (accepted_member m u name t) ≡ true)
      → Leaves rows IsValid (accept_workspace_invite db u m name) IsValid
  unfolding accept_workspace_invite
  accept_workspace_invite-leaves u m name s = kept-leaves db rows d db.now d.now_keeps _ (λ now.
      kept-leaves db rows d (refuse_expired db m (is_expired m now)) (refuse_expired-keeps m _) _
        (λ _.
          guard-leaves rows IsValid IsValid (not (same_status m.status active)) _ _ (λ ms v. v)
            (join_workspace-leaves u m name s)))

  pub accept_workspace_invite_by_token-leaves :
      (u : User) (token : Text) (name : Option Text)
      → Leaves rows IsValid (accept_workspace_invite_by_token db u token name) IsValid
  unfolding accept_workspace_invite_by_token find_workspace_invite_by_token accept_found
  accept_workspace_invite_by_token-leaves u token name w v =
      elim (Option-cases (find (is_invite token) (rows w))) [
        | inl e ↦ rw (d.invite_found token w, e) v
        | inr (m, e) ↦
            let (s, h) = All-find _ (is_invite token) (rows w) m v.sound e in
            rw (d.invite_found token w, e)
              (kept-result some _ (
                accept_workspace_invite-leaves u m name
                  (λ t. accepted_member_sound m u name t token s h) w v))
      ]
