-- ===== src/WorkspaceMember/Invitations.antt =====
-- Accepting an invitation by its token: when it succeeds, and what is left when it does not.
use kudeploy.Prelude.{
  inl, inr, arith, ◌≡◌, refl, sym, ap, Bool, true, false, ◌||◌, Option, some, List, Text, ◌==◌,
  nat_eq, list_eq, ==-self, find, is_some, or_else, ◌∙◌,
}
use kudeploy.Prelude.Exec.{Result, ok, err}
use kudeploy.Prelude.Int.{ℤ}
use kudeploy.WorkspaceMember.Entity.{
  User, WorkspaceMember, WorkspaceMemberStatus, active, same_status, WorkspaceMemberType, user,
  service_account,
}
use kudeploy.WorkspaceMember.Service.{
  Members, accepted_member, accept_workspace_invite, accept_found, accept_workspace_invite_by_token,
  join_workspace, refuse_expired, is_expired, is_for_other, find_workspace_invite_by_token,
}
use kudeploy.WorkspaceMember.Database.{
  count, belongs, bit, is_invite, replace, IsDatabase, IsWrite, All-find, count_of_find,
  count-replace, count_of_replaced, find_by_own_id,
}
use kudeploy.WorkspaceMember.Valid.{IsValid, is_sound, fits, has_joined, has_token}

not_active :
    (s : WorkspaceMemberStatus) (t : WorkspaceMemberType) (has_user has_token : Bool)
    → fits t (has_joined s) has_user has_token ≡ true
    → has_user ≡ false
    → has_token ≡ true
    → same_status s active ≡ false
not_active active user has_user has_token f n h = ground arith
not_active active service_account has_user has_token f n h = ground arith
not_active _ _ has_user has_token f n h = ground arith

-- The one that an invitation is for, so that it is never refused as accepted already.
not_active_of_invite :
    (token : Text) (m : WorkspaceMember)
    → is_sound m ≡ true
    → is_invite token m ≡ true
    → same_status m.status active ≡ false
not_active_of_invite token m s h =
    not_active m.status m.type (is_some m.user) (is_some m.invite_token) s (ground arith)
      (has_token token m h)

result_of : {A : Type 0} → Result A → Bool
result_of (ok a) = true
result_of (err e) = false

-- A write that did not fail was done.
written_rows :
    {W : Type 0} (rows : W → List WorkspaceMember) (m : WorkspaceMember)
    {r : Result WorkspaceMember × W} {before after : List WorkspaceMember} (w : W)
    → IsWrite rows m r before after
    → r ≡ (ok m, w)
    → rows w ≡ after
unfolding result_of
written_rows {W} rows m w (inl (w', done, e)) made =
    ap (λ (p : Result WorkspaceMember × W). rows p.1) (sym made ∙ done) ∙ e
written_rows {W} rows m w (inr (f, w', failed, e)) made =
    let absurd : true ≡ false =
      ap (λ (p : Result WorkspaceMember × W). result_of p.0) (sym made ∙ failed) in
    ground arith

module _ {W : Type 0} (db : Members W) (rows : W → List WorkspaceMember) (d : IsDatabase db rows)
    (u : User) (token : Text) (name : Option Text) (m : WorkspaceMember) (t : ℤ) (w w1 : W)
    (v : IsValid (rows w)) (found : find (is_invite token) (rows w) ≡ some m)
    (clock : db.now w ≡ (ok t, w1)) where
  abbrev is_member : Bool
  is_member = is_some (find (belongs u.id m.workspace) (rows w))

  same_rows : rows w1 ≡ rows w
  same_rows = rw clock at (d.now_keeps w)

  joined_once :
      (new : WorkspaceMember)
      → new.id ≡ m.id
      → new.user ≡ some u.id
      → new.workspace ≡ m.workspace
      → is_member ≡ false
      → count u.id m.workspace (replace new (rows w)) ≡ 1
  joined_once new same_id same_user same_workspace free =
      let it : belongs u.id m.workspace new ≡ true =
        rw (same_user, same_workspace, ==-self u.id, ==-self m.workspace) refl in
      let here : is_some (find (λ (x : WorkspaceMember). x.id == new.id) (rows w)) ≡ true =
        ap (λ i. is_some (find (λ (x : WorkspaceMember). x.id == i) (rows w))) same_id
        ∙ find_by_own_id (is_invite token) m (rows w) found in
      omega (
        arith,
        count-replace u.id m.workspace new (rows w),
        count_of_replaced u.id m.workspace new (rows w) here,
        count_of_find u.id m.workspace (rows w) free,
        ap bit it,
      )

  -- An invitation that has not expired, that is for the email of the user or for any email, and
  -- that is to a workspace in which the user is not yet, is accepted: its row is now the membership
  -- of the user, active, with the role that the inviter chose, and the user is in the workspace
  -- exactly once. The table has to take the row.
  pub accept_invite-joined :
      ((t' : ℤ) (w2 : W)
        → rows w2 ≡ rows w
        → (w3 : W) × (db.update (accepted_member m u name t') w2
            ≡ (ok (accepted_member m u name t'), w3)))
      → (is_expired m t || (is_member || is_for_other m u)) ≡ false
      → (m' : WorkspaceMember) × (w' : W) × (accept_workspace_invite_by_token db u token name w
          ≡ (ok (some m'), w'))
        × (rows w' ≡ replace m' (rows w))
        × (m'.id ≡ m.id)
        × (m'.user ≡ some u.id)
        × (m'.name ≡ some (or_else name u.name))
        × (m'.status ≡ active)
        × (m'.role ≡ m.role)
        × (count u.id m.workspace (rows w') ≡ 1)
  unfolding accept_workspace_invite_by_token find_workspace_invite_by_token accept_found
      accept_workspace_invite join_workspace refuse_expired accepted_member
  accept_invite-joined takes h =
      let unexpired : is_expired m t ≡ false = ground arith in
      let new_here : is_member ≡ false = ground arith in
      let addressed : is_for_other m u ≡ false = ground arith in
      let (s, i) = All-find _ (is_invite token) (rows w) m v.sound found in
      let (t', w2, tick) = d.now_works w1 in
      let new = accepted_member m u name t' in
      let unchanged : rows w2 ≡ rows w = rw (tick, same_rows) at (d.now_keeps w1) in
      let (w3, done) = takes t' w2 unchanged in
      let written : rows w3 ≡ replace new (rows w) =
        written_rows rows new w3 (d.updated new w2) done ∙ ap (replace new) unchanged in
      (
        new,
        w3,
        rw
            (
              d.invite_found token w,
              found,
              clock,
              unexpired,
              not_active_of_invite token m s i,
              d.user_found u.id m.workspace w1,
              same_rows,
              new_here,
              addressed,
              tick,
              done,
            )
            refl,
        written,
        refl,
        refl,
        refl,
        refl,
        refl,
        ap (count u.id m.workspace) written ∙ joined_once new refl refl refl new_here,
      )
