-- ===== src/WorkspaceMember/Valid.antt =====
-- Valid tables of members: who has joined has a user, who is invited has none, and nobody is in a
-- workspace twice.
use Prim.Native.Nat.{◌≤◌}
use kudeploy.Prelude.{
  Patch, given, ◌≡◌, refl, ap, Bool, true, false, not, ◌&&◌, Option, some, List, [], ◌∷◌, ◌++◌,
  Text, ◌==◌, nat_eq, list_eq, list_beq_iff, is_value_iff, find, All, All-append, is_some,
  Bool-cases, inl, inr, arith, and-eq-true,
}
use kudeploy.Prelude.Int.{ℤ}
use kudeploy.WorkspaceMember.Entity.{
  WorkspaceMemberStatus, active, disabled, WorkspaceMemberType, user, service_account, User,
  WorkspaceMember, UpdateWorkspaceMemberInput,
}
use kudeploy.WorkspaceMember.Service.{accepted_member, next_status, updated_member}
use kudeploy.WorkspaceMember.Database.{
  belongs, is_invite, bit, count, replace, All-replace, count-append, count-replace,
  count-replace_same,
}

abbrev pub has_joined : WorkspaceMemberStatus → Bool
has_joined active = true
has_joined disabled = true
has_joined _ = false

-- from the type, whether the member has joined, has a user, and has an invitation's token
abbrev pub fits : WorkspaceMemberType → Bool → Bool → Bool → Bool
fits user true has_user has_token = has_user
fits user false has_user has_token = not has_user
fits service_account joined has_user has_token = joined && (not has_user && not has_token)

abbrev pub is_sound : WorkspaceMember → Bool
is_sound m = fits m.type (has_joined m.status) (is_some m.user) (is_some m.invite_token)

pub record IsValid (ms : List WorkspaceMember) : Type 0 where
  pub sound : All (λ m. is_sound m ≡ true) ms
  pub unique : (u ws : Text) → count u ws ms ≤ 1

-- A row that is appended, or that takes another's place, for a user who is not in the workspace.
pub added-IsValid :
    (new : WorkspaceMember) (ms : List WorkspaceMember)
    → IsValid ms
    → is_sound new ≡ true
    → ((u ws : Text) → belongs u ws new ≡ true → count u ws ms ≡ 0)
    → IsValid (ms ++ new ∷ [])
unfolding count
added-IsValid new ms v s fresh = record {
  sound = All-append _ ms (new ∷ []) v.sound (s, tt);
  unique = λ u ws. elim (Bool-cases (belongs u ws new)) [
    | inl b ↦ omega (arith, count-append u ws ms (new ∷ []), fresh u ws b, ap bit b)
    | inr b ↦ omega (arith, count-append u ws ms (new ∷ []), v.unique u ws, ap bit b)
  ];
}

pub joined-IsValid :
    (new : WorkspaceMember) (ms : List WorkspaceMember)
    → IsValid ms
    → is_sound new ≡ true
    → ((u ws : Text) → belongs u ws new ≡ true → count u ws ms ≡ 0)
    → IsValid (replace new ms)
joined-IsValid new ms v s fresh = record {
  sound = All-replace _ new ms v.sound s;
  unique = λ u ws. elim (Bool-cases (belongs u ws new)) [
    | inl b ↦ omega (arith, count-replace u ws new ms, fresh u ws b, ap bit b)
    | inr b ↦ omega (arith, count-replace u ws new ms, v.unique u ws, ap bit b)
  ];
}

pub changed-IsValid :
    (old new : WorkspaceMember) (ms : List WorkspaceMember)
    → IsValid ms
    → is_sound new ≡ true
    → find (λ (m : WorkspaceMember). m.id == new.id) ms ≡ some old
    → ((u ws : Text) → belongs u ws new ≡ belongs u ws old)
    → IsValid (replace new ms)
changed-IsValid old new ms v s e same = record {
  sound = All-replace _ new ms v.sound s;
  unique = λ u ws. omega (arith, count-replace_same u ws old new ms e (same u ws), v.unique u ws);
}

pub has_joined-next_status :
    (s : WorkspaceMemberStatus) (p : Patch WorkspaceMemberStatus)
    → has_joined (next_status s p) ≡ has_joined s
has_joined-next_status active (given (some disabled)) = refl
has_joined-next_status disabled (given (some active)) = refl
has_joined-next_status _ _ = ground arith

pub updated_member_sound :
    (m : WorkspaceMember) (input : UpdateWorkspaceMemberInput)
    → is_sound m ≡ true
    → is_sound (updated_member m input) ≡ true
unfolding updated_member
updated_member_sound m input s = rw (has_joined-next_status m.status input.status) s

fits-joined :
    (t : WorkspaceMemberType) (joined has_user has_token : Bool)
    → fits t joined has_user has_token ≡ true
    → has_token ≡ true
    → fits t true true has_token ≡ true
fits-joined user joined has_user has_token f h = refl
fits-joined service_account joined has_user has_token f h = ground arith

pub has_token :
    (token : Text) (m : WorkspaceMember) → is_invite token m ≡ true → is_some m.invite_token ≡ true
has_token token m h = rw ((is_value_iff m.invite_token token).0 (and-eq-true _ _ h).0) refl

pub accepted_member_sound :
    (m : WorkspaceMember) (u : User) (name : Option Text) (t : ℤ) (token : Text)
    → is_sound m ≡ true
    → is_invite token m ≡ true
    → is_sound (accepted_member m u name t) ≡ true
unfolding accepted_member
accepted_member_sound m u name t token s h = fits-joined m.type _ _ _ s (has_token token m h)

-- A row that gives one user one workspace is a membership of no one else.
pub count_of_belongs :
    (u ws u' ws' : Text) (ms : List WorkspaceMember)
    → (u == u' && ws == ws') ≡ true
    → count u ws ms ≡ 0
    → count u' ws' ms ≡ 0
count_of_belongs u ws u' ws' ms b c =
    let (same_user, same_workspace) = and-eq-true _ _ b in
    rw ((list_beq_iff u u').0 same_user, (list_beq_iff ws ws').0 same_workspace) at c
