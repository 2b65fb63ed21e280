-- ===== src/WorkspaceMember/Updates.antt =====
-- Changing a member: the email stays unique in the workspace, and the status moves only between
-- active and disabled.
use kudeploy.Prelude.{
  Patch, absent, given, Bool-cases, inl, inr, ◌≡◌, refl, Bool, true, false, not, ◌&&◌, none, some,
  List, [], ◌∷◌, Text, ◌==◌, nat_eq, list_eq, find, filter, any, is_some, is_value, non_empty,
  if◌then◌else◌, units, ◌⊎◌,
}
use kudeploy.Prelude.Exec.{ok, err, bad_request}
use kudeploy.WorkspaceMember.Entity.{
  WorkspaceMember, WorkspaceMemberStatus, active, disabled, UpdateWorkspaceMemberInput,
}
use kudeploy.WorkspaceMember.Service.{
  Members, updated_member, next_status, update_workspace_member, check_new_email, check_email,
}
use kudeploy.WorkspaceMember.Database.{IsDatabase}

is_some-find_filter :
    (p q : WorkspaceMember → Bool) (ms : List WorkspaceMember)
    → is_some (find q (filter p ms)) ≡ any (λ m. p m && q m) ms
unfolding find filter any
is_some-find_filter p q [] = refl
is_some-find_filter p q (m ∷ ms) = elim (Bool-cases (p m)) [
  | inr e ↦ rw e (is_some-find_filter p q ms)
  | inl e ↦ elim (Bool-cases (q m)) [
    | inl f ↦ rw (e, f) refl
    | inr f ↦ rw (e, f) (is_some-find_filter p q ms)
  ]
]

-- Another member of the workspace has the email that the input gives.
abbrev pub is_taken : Patch Text → WorkspaceMember → List WorkspaceMember → Bool
is_taken (given (some email)) m ms =
    non_empty email
    && any (λ e. (is_value e.email email && e.workspace == m.workspace) && not (e.id == m.id)) ms
is_taken _ m ms = false

-- The status after an update that asks for one.
abbrev pub moves_to : WorkspaceMemberStatus → WorkspaceMemberStatus → Bool
moves_to active disabled = true
moves_to disabled active = true
moves_to _ _ = false

status_moves :
    (s : WorkspaceMemberStatus) (p : Patch WorkspaceMemberStatus)
    → (next_status s p ≡ s)
      ⊎ ((p ≡ given (some (next_status s p))) × (moves_to s (next_status s p) ≡ true))
status_moves active (given (some disabled)) = inr (refl, refl)
status_moves disabled (given (some active)) = inr (refl, refl)
status_moves _ _ = inl refl

module _ {W : Type 0} (db : Members W) (rows : W → List WorkspaceMember) (d : IsDatabase db rows)
    (m : WorkspaceMember) where
  check_new_email-taken :
      (p : Patch Text) (w : W)
      → check_new_email db m p w ≡ (
        if is_taken p m (rows w) then err (bad_request (units "该工作空间下已存在使用此邮箱的成员")) else ok tt,
        w,
      )
  unfolding check_new_email check_email
  check_new_email-taken absent w = refl
  check_new_email-taken (given none) w = refl
  check_new_email-taken (given (some email)) w = elim (Bool-cases (non_empty email)) [
    | inr e ↦ rw e refl
    | inl e ↦
        let found = λ (x : WorkspaceMember). is_value x.email email && x.workspace == m.workspace in
        let other = λ (x : WorkspaceMember). not (x.id == m.id) in
        elim (Bool-cases (any (λ x. found x && other x) (rows w))) [
          | inl t ↦
              rw (e, d.email_found email m.workspace w, is_some-find_filter found other (rows w), t)
                refl
          | inr t ↦
              rw (e, d.email_found email m.workspace w, is_some-find_filter found other (rows w), t)
                refl
        ]
  ]

  -- An update is refused, with no effect, exactly when it gives an email that is not empty and that
  -- another member of the workspace has; otherwise it is written, and the status of the written row
  -- is the old one unless it was asked to move between active and disabled.
  pub update_workspace_member-outcome :
      (input : UpdateWorkspaceMemberInput) (w : W)
      → (update_workspace_member db m input w ≡ (
          if is_taken input.email m (rows w)
          then (err (bad_request (units "该工作空间下已存在使用此邮箱的成员")), w)
          else db.update (updated_member m input) w))
        × (((updated_member m input).status ≡ m.status)
            ⊎ ((input.status ≡ given (some (updated_member m input).status))
                × (moves_to m.status (updated_member m input).status ≡ true)))
  unfolding update_workspace_member updated_member
  update_workspace_member-outcome input w = (
    elim (Bool-cases (is_taken input.email m (rows w))) [
      | inl t ↦ rw (check_new_email-taken input.email w, t) refl
      | inr t ↦ rw (check_new_email-taken input.email w, t) refl
    ],
    status_moves m.status input.status,
  )
