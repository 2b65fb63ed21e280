-- ===== src/WorkspaceMember/Leaves.antt =====
-- Runs of the operations that add members leave the table valid, whatever they end with.
use kudeploy.Prelude.{
  Bool-cases, inl, inr, ltb, arith, ◌≡◌, refl, Bool, true, false, Option, none, some, List, [], ◌∷◌,
  ◌++◌, Text,
}
use kudeploy.Prelude.Exec.{Result, ok, err, Failure, Exec, guard, continue, ◌>>=◌, ◌>>◌}
use kudeploy.Prelude.Int.{ℤ}
use kudeploy.WorkspaceMember.Entity.{
  User, WorkspaceMember, CreateServiceAccountInput, CreateWorkspaceInviteInput,
}
use kudeploy.WorkspaceMember.Service.{
  Members, new_member, create_service_account, service_account_member, load_inviter,
  create_workspace_invite, invited_member,
}
use kudeploy.WorkspaceMember.Resolver.{added_member, add_user}
use kudeploy.WorkspaceMember.Database.{count, IsDatabase}
use kudeploy.WorkspaceMember.Valid.{IsValid, added-IsValid, count_of_belongs}

-- valid rows in which a user is not in a workspace
abbrev pub IsFree : Text → Text → List WorkspaceMember → Type 0
IsFree u ws ms = IsValid ms × (count u ws ms ≡ 0)

module _ {W : Type 0} (rows : W → List WorkspaceMember) where
  -- Whatever a run ends with, a value or a throw, the rows then fulfil `Q`.
  abbrev pub Leaves :
      {A : Type 0}
      → (List WorkspaceMember → Type 0)
      → Exec W A
      → (List WorkspaceMember → Type 0)
      → Type 0
  Leaves P m Q = (w : W) → P (rows w) → Q (rows (m w).1)

  module _ {A B : Type 0} where
    pub continue-leaves :
        (Q : List WorkspaceMember → Type 0) (r : Result A × W) (f : A → Exec W B)
        → Q (rows r.1)
        → ((a : A) → r.0 ≡ ok a → Q (rows (f a r.1).1))
        → Q (rows (continue r f).1)
    continue-leaves Q (ok a, w) f q h = h a refl
    continue-leaves Q (err e, w) f q h = q

    pub then-leaves :
        (P Q : List WorkspaceMember → Type 0) (m : Exec W A) (f : A → Exec W B)
        → ((ms : List WorkspaceMember) → P ms → Q ms)
        → Leaves P m P
        → ((a : A) → Leaves P (f a) Q)
        → Leaves P (m >>= f) Q
    then-leaves P Q m f sub keeps rest w p =
        continue-leaves Q (m w) f (sub _ (keeps w p)) (λ a e. rest a (m w).1 (keeps w p))

  pub guard-leaves :
      {B : Type 0} (P Q : List WorkspaceMember → Type 0) (b : Bool) (e : Failure) (k : Exec W B)
      → ((ms : List WorkspaceMember) → P ms → Q ms)
      → Leaves P k Q
      → Leaves P (guard b e >> k) Q
  guard-leaves P Q true e k sub rest w p = rest w p
  guard-leaves P Q false e k sub rest w p = sub _ p

  pub keeps-leaves :
      {A : Type 0} (P : List WorkspaceMember → Type 0) (m : Exec W A)
      → ((w : W) → rows (m w).1 ≡ rows w)
      → Leaves P m P
  keeps-leaves P m k w p = rw (k w) p

module _ {W : Type 0} (db : Members W) (rows : W → List WorkspaceMember)
    (d : IsDatabase db rows) where
  -- a new row, whose id and time are asked for first
  pub made-leaves :
      (P : List WorkspaceMember → Type 0) (build : Text → ℤ → WorkspaceMember)
      → ((ms : List WorkspaceMember) → P ms → IsValid ms)
      → ((id : Text) (t : ℤ) (ms : List WorkspaceMember) → P ms → IsValid (ms ++ build id t ∷ []))
      → Leaves rows P (do id ← db.next_id; now ← db.now; db.create (build id now)) IsValid
  made-leaves P build sub valid =
      then-leaves rows P IsValid db.next_id _ sub (keeps-leaves rows P db.next_id d.next_id_keeps)
        (λ id.
          then-leaves rows P IsValid db.now _ sub (keeps-leaves rows P db.now d.now_keeps) (λ t w p.
            elim (d.created (build id t) w) [
              | inl (w', made, e) ↦ rw (made, e) (valid id t (rows w) p)
              | inr (f, w', failed, e) ↦ rw (failed, e) (sub (rows w) p)
            ]))

  pub create_service_account-leaves :
      (workspace : Text) (input : CreateServiceAccountInput)
      → Leaves rows IsValid (create_service_account db workspace input) IsValid
  unfolding create_service_account service_account_member new_member
  create_service_account-leaves workspace input =
      made-leaves IsValid (λ id t. service_account_member id t workspace input) (λ ms v. v)
        (λ id t ms v.
          added-IsValid (service_account_member id t workspace input) ms v refl
            (λ u ws b. ground arith))

  load_inviter-keeps : (u : Option Text) (w : W) → rows (load_inviter db u w).1 ≡ rows w
  unfolding load_inviter
  load_inviter-keeps none w = refl
  load_inviter-keeps (some id) w = d.load_user_keeps id w

  pub kept-leaves :
      {A : Type 0} (m : Exec W A) (k : (w : W) → rows (m w).1 ≡ rows w) {B : Type 0}
      (f : A → Exec W B)
      → ((a : A) → Leaves rows IsValid (f a) IsValid)
      → Leaves rows IsValid (m >>= f) IsValid
  kept-leaves m k f h =
      then-leaves rows IsValid IsValid m f (λ ms v. v) (keeps-leaves rows IsValid m k) h

  pub create_workspace_invite-leaves :
      (current : WorkspaceMember) (workspace : Text) (input : CreateWorkspaceInviteInput)
      → Leaves rows IsValid (create_workspace_invite db current workspace input) IsValid
  unfolding create_workspace_invite invited_member new_member
  create_workspace_invite-leaves current workspace input =
      kept-leaves db.random_token d.random_token_keeps _ (λ token.
        kept-leaves db.now d.now_keeps _ (λ now.
          kept-leaves (load_inviter db current.user) (load_inviter-keeps current.user) _ (λ inviter.
            made-leaves IsValid
              (λ id t. invited_member id t token (db.add_days 7 now) workspace inviter input)
              (λ ms v. v)
              (λ id t ms v.
                added-IsValid
                  (invited_member id t token (db.add_days 7 now) workspace inviter input) ms v refl
                  (λ u ws b. ground arith)))))

  add_new-leaves :
      (workspace : Text) (u : User)
      → Leaves rows
          (IsFree u.id workspace)
          (do id ← db.next_id; now ← db.now; db.create (added_member id now workspace u))
          IsValid
  unfolding added_member new_member
  add_new-leaves workspace u =
      made-leaves (IsFree u.id workspace) (λ id t. added_member id t workspace u) (λ ms (v, c). v)
        (λ id t ms (v, c).
          added-IsValid (added_member id t workspace u) ms v refl
            (λ u' ws' b. count_of_belongs u.id workspace u' ws' ms b c))

  pub add_user-leaves :
      (workspace : Text) (u : User) → Leaves rows IsValid (add_user db workspace u) IsValid
  unfolding add_user
  add_user-leaves workspace u w v = elim (Bool-cases (ltb 0 (count u.id workspace (rows w)))) [
    | inl already ↦ rw (d.user_counted u.id workspace w, already) v
    | inr free ↦
        rw (d.user_counted u.id workspace w, free) (add_new-leaves workspace u w (v, ground arith))
  ]
