-- ===== src/WorkspaceMember/Database.antt =====
-- What the services rely on of the tables: rows in order, of which reads see the first match.
use Prim.Native.Nat.{◌≤◌}
use kudeploy.Prelude.{
  ℕ, ◌+◌, ◌≡◌, ◌⊎◌, refl, sym, ap, ==-self, Bool, true, false, not, ◌&&◌, some, List, [], ◌∷◌, ◌++◌,
  Text, ◌==◌, nat_eq, list_eq, find, filter, All, is_some, is_value, Bool-cases, inl, inr, arith,
  if◌then◌else◌,
}
use kudeploy.Prelude.Exec.{ok, err, Result, Failure}
use kudeploy.Prelude.Int.{ℤ}
use kudeploy.WorkspaceMember.Entity.{WorkspaceMember}
use kudeploy.WorkspaceMember.Service.{Members}

-- `user` and `workspace` of a membership
abbrev pub belongs : Text → Text → WorkspaceMember → Bool
belongs u ws m = is_value m.user u && m.workspace == ws

abbrev pub is_invite : Text → WorkspaceMember → Bool
is_invite token m = is_value m.invite_token token && not (is_some m.user)

abbrev pub bit : Bool → ℕ
bit true = 1
bit false = 0

-- how many memberships a user has in a workspace
unfoldable pub count : Text → Text → List WorkspaceMember → ℕ
count u ws [] = 0
count u ws (m ∷ ms) = bit (belongs u ws m) + count u ws ms

-- the row with the same primary key is overwritten
unfoldable pub replace : WorkspaceMember → List WorkspaceMember → List WorkspaceMember
replace new [] = []
replace new (m ∷ ms) = let rest = replace new ms in if m.id == new.id then new ∷ ms else m ∷ rest

abbrev pub IsWrite :
    {W : Type 0}
    → (W → List WorkspaceMember)
    → WorkspaceMember
    → Result WorkspaceMember × W
    → List WorkspaceMember
    → List WorkspaceMember
    → Type 0
IsWrite {W} rows m r before after =
    ((w' : W) × (r ≡ (ok m, w')) × (rows w' ≡ after))
    ⊎ ((e : Failure) × (w' : W) × (r ≡ (err e, w')) × (rows w' ≡ before))

pub record IsDatabase {W : Type 0} (db : Members W) (rows : W → List WorkspaceMember) : Type 0 where
  pub now_works : (w : W) → (t : ℤ) × (w' : W) × (db.now w ≡ (ok t, w'))
  pub now_keeps : (w : W) → rows (db.now w).1 ≡ rows w
  pub random_token_keeps : (w : W) → rows (db.random_token w).1 ≡ rows w
  pub next_id_keeps : (w : W) → rows (db.next_id w).1 ≡ rows w
  pub load_user_keeps : (id : Text) (w : W) → rows (db.load_user id w).1 ≡ rows w
  pub find_user_keeps : (email : Text) (w : W) → rows (db.find_user email w).1 ≡ rows w
  -- nothing flushes an assignment
  pub assign_keeps : (m : WorkspaceMember) (w : W) → rows (db.assign m w).1 ≡ rows w
  pub invite_found :
      (token : Text) (w : W) → db.find_invite token w ≡ (ok (find (is_invite token) (rows w)), w)
  pub user_found :
      (u ws : Text) (w : W) → db.find_by_user u ws w ≡ (ok (find (belongs u ws) (rows w)), w)
  pub user_counted : (u ws : Text) (w : W) → db.count_by_user u ws w ≡ (ok (count u ws (rows w)), w)
  pub id_found :
      (id : Text) (w : W)
      → db.find_by_id id w ≡ (ok (find (λ (m : WorkspaceMember). m.id == id) (rows w)), w)
  pub email_found :
      (email ws : Text) (w : W)
      → db.find_by_email email ws w
        ≡ (ok (filter (λ m. is_value m.email email && m.workspace == ws) (rows w)), w)
  -- a write is done, or refused, as by a unique index
  pub created :
      (m : WorkspaceMember) (w : W) → IsWrite rows m (db.create m w) (rows w) (rows w ++ m ∷ [])
  pub updated :
      (m : WorkspaceMember) (w : W) → IsWrite rows m (db.update m w) (rows w) (replace m (rows w))
  -- a new id is in no row
  pub next_id_fresh :
      (id : Text) (w w' : W) → db.next_id w ≡ (ok id, w') → (u : Text) → count u id (rows w') ≡ 0

pub All-find {ℓ} :
    (P : WorkspaceMember → Type ℓ) (f : WorkspaceMember → Bool) (ms : List WorkspaceMember)
    (m : WorkspaceMember)
    → All P ms
    → find f ms ≡ some m
    → P m × (f m ≡ true)
unfolding find
All-find P f [] m h e = ground arith
All-find P f (x ∷ xs) m (p, h) e = elim (Bool-cases (f x)) [
  | inl here ↦ let same : x ≡ m = ground arith in (rw same at p, rw same at here)
  | inr there ↦ All-find P f xs m h (rw there at e)
]

pub All-replace {ℓ} :
    (P : WorkspaceMember → Type ℓ) (new : WorkspaceMember) (ms : List WorkspaceMember)
    → All P ms
    → P new
    → All P (replace new ms)
unfolding replace
All-replace P new [] h p = tt
All-replace P new (x ∷ xs) (q, h) p = elim (Bool-cases (x.id == new.id)) [
  | inl here ↦ rw here (p, h)
  | inr there ↦ rw there (q, All-replace P new xs h p)
]

module _ (u ws : Text) where
  pub count-append :
      (ms ns : List WorkspaceMember) → count u ws (ms ++ ns) ≡ count u ws ms + count u ws ns
  unfolding count
  count-append [] ns = omega arith
  count-append (m ∷ ms) ns = omega (arith, count-append ms ns)

  -- An update adds at most what the new row has.
  pub count-replace :
      (new : WorkspaceMember) (ms : List WorkspaceMember)
      → count u ws (replace new ms) ≤ count u ws ms + bit (belongs u ws new)
  unfolding count replace
  count-replace new [] = omega arith
  count-replace new (m ∷ ms) = elim (Bool-cases (m.id == new.id)) [
    | inl here ↦ rw here (omega arith)
    | inr there ↦ rw there (omega (arith, count-replace new ms))
  ]

  pub count-replace_same :
      (old new : WorkspaceMember) (ms : List WorkspaceMember)
      → find (λ (m : WorkspaceMember). m.id == new.id) ms ≡ some old
      → belongs u ws new ≡ belongs u ws old
      → count u ws (replace new ms) ≡ count u ws ms
  unfolding count replace find
  count-replace_same old new [] e same = refl
  count-replace_same old new (m ∷ ms) e same = elim (Bool-cases (m.id == new.id)) [
    | inl here ↦ let it : m ≡ old = ground arith in rw (here, same, it) refl
    | inr there ↦ rw there (omega (arith, count-replace_same old new ms (rw there at e) same))
  ]

  pub count_of_find :
      (ms : List WorkspaceMember) → is_some (find (belongs u ws) ms) ≡ false → count u ws ms ≡ 0
  unfolding count find
  count_of_find [] e = refl
  count_of_find (m ∷ ms) e = elim (Bool-cases (belongs u ws m)) [
    | inl here ↦ ground arith
    | inr there ↦ rw there (omega (arith, count_of_find ms (rw there at e)))
  ]

  -- What is overwritten is there afterwards.
  pub count_of_replaced :
      (new : WorkspaceMember) (ms : List WorkspaceMember)
      → is_some (find (λ (m : WorkspaceMember). m.id == new.id) ms) ≡ true
      → bit (belongs u ws new) ≤ count u ws (replace new ms)
  unfolding count replace find
  count_of_replaced new [] e = ground arith
  count_of_replaced new (m ∷ ms) e = elim (Bool-cases (m.id == new.id)) [
    | inl here ↦ rw here (omega arith)
    | inr there ↦ rw there (omega (arith, count_of_replaced new ms (rw there at e)))
  ]

-- A row that a read finds is found by its id too.
pub find_by_own_id :
    (f : WorkspaceMember → Bool) (m : WorkspaceMember) (ms : List WorkspaceMember)
    → find f ms ≡ some m
    → is_some (find (λ (x : WorkspaceMember). x.id == m.id) ms) ≡ true
unfolding find
find_by_own_id f m [] e = ground arith
find_by_own_id f m (x ∷ ms) e = elim (Bool-cases (x.id == m.id)) [
  | inl here ↦ rw here refl
  | inr there ↦ elim (Bool-cases (f x)) [
    | inl fx ↦
        let same : x ≡ m = ground arith in
        let self : (x.id == x.id) ≡ false =
          rw (sym (ap (λ (y : WorkspaceMember). y.id) same)) at there in
        ground (arith, ==-self x.id)
    | inr fx ↦ rw there (find_by_own_id f m ms (rw fx at e))
  ]
]
