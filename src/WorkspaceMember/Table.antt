-- ===== src/WorkspaceMember/Table.antt =====
-- A table of members in memory: it shows that what is assumed of the tables can hold.
use kudeploy.Prelude.{
  ◌<◌, ◌≡◌, refl, sym, ap, ◌∙◌, and-eq-true, Bool-cases, inl, inr, arith, ◌&&◌, none, some, List,
  [], ◌∷◌, ◌++◌, Text, units, ◌==◌, nat_eq, list_eq, list_beq_iff, find, filter, is_value, length,
  length-append,
}
use kudeploy.Prelude.Exec.{ok, err, Result}
use kudeploy.Prelude.Int.{pos}
use kudeploy.WorkspaceMember.Entity.{User, WorkspaceMember, manage_members, manage_domains}
use kudeploy.WorkspaceMember.Service.{Members}
use kudeploy.WorkspaceMember.Database.{belongs, is_invite, count, bit, replace, IsDatabase}

unfoldable pub workspaces : List WorkspaceMember → Text
workspaces [] = []
workspaces (m ∷ ms) = m.workspace ++ workspaces ms

-- longer than the id of every workspace
abbrev pub fresh_id : List WorkspaceMember → Text
fresh_id ms = 48 ∷ workspaces ms

count_of_long :
    (u long : Text) (ms : List WorkspaceMember)
    → length (workspaces ms) < length long
    → count u long ms ≡ 0
unfolding count workspaces
count_of_long u long [] h = refl
count_of_long u long (m ∷ ms) h = elim (Bool-cases (belongs u long m)) [
  | inl b ↦
      let (_, same) = and-eq-true (is_value m.user u) (m.workspace == long) b in
      let equal : length m.workspace ≡ length long =
        ap length ((list_beq_iff m.workspace long).0 same) in
      omega (arith, length-append m.workspace (workspaces ms))
  | inr b ↦ omega (
    arith,
    ap bit b,
    count_of_long u long ms (omega (arith, length-append m.workspace (workspaces ms))),
  )
]

abbrev text_of : Result Text → Text
text_of (ok t) = t
text_of (err e) = []

abbrev pub alice : User
alice = record { id = units "1"; name = units "Alice"; email = units "alice@a.io" }

abbrev pub bob : User
bob = record { id = units "2"; name = units "Bob"; email = units "bob@a.io" }

abbrev pub memory : Members (List WorkspaceMember)
memory = record {
  now = λ w. (ok (pos 100), w);
  add_days = λ n t. t;
  random_token = λ w. (ok (units "token"), w);
  next_id = λ w. (ok (fresh_id w), w);
  load_user = λ id w. (ok alice, w);
  find_invite = λ token w. (ok (find (is_invite token) w), w);
  find_by_user = λ u ws w. (ok (find (belongs u ws) w), w);
  find_by_email =
      λ email ws w. (ok (filter (λ m. is_value m.email email && m.workspace == ws) w), w);
  find_by_id = λ id w. (ok (find (λ (m : WorkspaceMember). m.id == id) w), w);
  count_by_user = λ u ws w. (ok (count u ws w), w);
  find_user = λ email w. (ok (some bob), w);
  group_permissions = λ m w. (ok (some (manage_members ∷ manage_domains ∷ []) ∷ none ∷ []), w);
  create = λ m w. (ok m, w ++ m ∷ []);
  update = λ m w. (ok m, replace m w);
  assign = λ m w. (ok tt, w);
}

pub memory-IsDatabase : IsDatabase memory (λ w. w)
memory-IsDatabase = record {
  now_works = λ w. (_, _, refl);
  now_keeps = λ w. refl;
  random_token_keeps = λ w. refl;
  next_id_keeps = λ w. refl;
  load_user_keeps = λ id w. refl;
  find_user_keeps = λ email w. refl;
  assign_keeps = λ m w. refl;
  invite_found = λ token w. refl;
  user_found = λ u ws w. refl;
  user_counted = λ u ws w. refl;
  id_found = λ id w. refl;
  email_found = λ email ws w. refl;
  created = λ m w. inl (_, refl, refl);
  updated = λ m w. inl (_, refl, refl);
  next_id_fresh = λ id w w' e u.
      ap (λ i. count u i w') (sym (ap (λ (r : Result Text × List WorkspaceMember). text_of r.0) e))
      ∙ ap (count u (fresh_id w)) (sym (ap (λ (r : Result Text × List WorkspaceMember). r.1) e))
      ∙ count_of_long u (fresh_id w) w (omega arith);
}
