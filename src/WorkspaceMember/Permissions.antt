-- ===== src/WorkspaceMember/Permissions.antt =====
-- Effective permissions: those of the member and of its groups, each once.
use kudeploy.Prelude.{
  ◌≡◌, refl, ap, Bool, true, false, not, ◌&&◌, ◌||◌, Option, List, [], ◌∷◌, ◌++◌, ◌==◌, any, find,
  is_some, or_else, arith, Bool-cases, inl, inr, ==-self,
}
use kudeploy.Prelude.Exec.{ok}
use kudeploy.WorkspaceMember.Entity.{
  WorkspaceMemberPermission, WorkspaceMember, permission_eq, same_permission_iff,
}
use kudeploy.WorkspaceMember.Service.{Members, get_permissions, distinct_after, flat_permissions}

abbrev pub Permissions : Type 0
Permissions = List WorkspaceMemberPermission

abbrev pub includes : Permissions → WorkspaceMemberPermission → Bool
includes ps p = any (λ q. q == p) ps

abbrev pub IsDistinct : Permissions → Type 0
IsDistinct [] = Unit
IsDistinct (p ∷ ps) = (includes ps p ≡ false) × IsDistinct ps

is_some-find :
    (p : WorkspaceMemberPermission) (ps : Permissions)
    → is_some (find (λ q. q == p) ps) ≡ includes ps p
unfolding find any
is_some-find p [] = refl
is_some-find p (q ∷ ps) = elim (Bool-cases (q == p)) [
  | inl e ↦ rw e refl
  | inr e ↦ rw e (is_some-find p ps)
]

includes_same :
    (p q : WorkspaceMemberPermission) (seen : Permissions)
    → (q == p) ≡ true
    → includes seen q ≡ includes seen p
includes_same p q seen e = ap (includes seen) ((same_permission_iff q p).0 e)

-- One step, when the next permission has been seen, and when it has not.
module _ (p q : WorkspaceMemberPermission) (seen ps : Permissions) where
  includes_seen :
      includes seen q ≡ true
      → (not (includes seen p) && includes ps p)
        ≡ (not (includes seen p) && ((q == p) || includes ps p))
  includes_seen h = elim (Bool-cases (q == p)) [
    | inl e ↦ ground (arith, includes_same p q seen e)
    | inr e ↦ rw e refl
  ]

  includes_new :
      includes seen q ≡ false
      → ((q == p) || (not ((q == p) || includes seen p) && includes ps p))
        ≡ (not (includes seen p) && ((q == p) || includes ps p))
  includes_new h = elim (Bool-cases (q == p)) [
    | inl e ↦ ground (arith, includes_same p q seen e)
    | inr e ↦ rw e refl
  ]

includes-distinct_after :
    (p : WorkspaceMemberPermission) (seen ps : Permissions)
    → includes (distinct_after seen ps) p ≡ (not (includes seen p) && includes ps p)
unfolding distinct_after any
includes-distinct_after p seen [] = ground arith
includes-distinct_after p seen (q ∷ ps) = elim (Bool-cases (includes seen q)) [
  | inl e ↦
      rw (is_some-find q seen, e, includes-distinct_after p seen ps) (includes_seen p q seen ps e)
  | inr e ↦
      rw (is_some-find q seen, e, includes-distinct_after p (q ∷ seen) ps)
        (includes_new p q seen ps e)
]

distinct_after-IsDistinct : (seen ps : Permissions) → IsDistinct (distinct_after seen ps)
unfolding distinct_after any
distinct_after-IsDistinct seen [] = tt
distinct_after-IsDistinct seen (q ∷ ps) = elim (Bool-cases (includes seen q)) [
  | inl e ↦ rw (is_some-find q seen, e) (distinct_after-IsDistinct seen ps)
  | inr e ↦
      rw (is_some-find q seen, e)
        (
          rw (includes-distinct_after q (q ∷ seen) ps, ==-self q) refl,
          distinct_after-IsDistinct (q ∷ seen) ps,
        )
]

includes-append :
    (p : WorkspaceMemberPermission) (ps qs : Permissions)
    → includes (ps ++ qs) p ≡ (includes ps p || includes qs p)
unfolding any
includes-append p [] qs = refl
includes-append p (q ∷ ps) qs = ground (arith, includes-append p ps qs)

includes-flat_permissions :
    (p : WorkspaceMemberPermission) (groups : List (Option Permissions))
    → includes (flat_permissions groups) p ≡ any (λ g. includes (or_else g []) p) groups
unfolding flat_permissions any
includes-flat_permissions p [] = refl
includes-flat_permissions p (g ∷ gs) =
    rw (includes-append p (or_else g []) (flat_permissions gs), includes-flat_permissions p gs)

-- The effective permissions of a member list no permission twice, and have exactly the permissions
-- of the member itself and of the groups that it is in.
pub get_permissions-IsDistinct :
    {W : Type 0} (db : Members W) (m : WorkspaceMember) (groups : List (Option Permissions))
    (w w' : W)
    → db.group_permissions m w ≡ (ok groups, w')
    → (ps : Permissions) × (get_permissions db m w ≡ (ok ps, w'))
      × IsDistinct ps
      × ((p : WorkspaceMemberPermission)
          → includes ps p ≡ (
              includes (or_else m.permissions []) p || any (λ g. includes (or_else g []) p) groups))
unfolding get_permissions
get_permissions-IsDistinct db m groups w w' e =
    let own = or_else m.permissions [] in
    (
      distinct_after [] (own ++ flat_permissions groups),
      rw e refl,
      distinct_after-IsDistinct [] _,
      λ p.
          rw
            (
              includes-distinct_after p [] (own ++ flat_permissions groups),
              includes-append p own (flat_permissions groups),
              includes-flat_permissions p groups,
            )
            (unfold any in refl),
    )
