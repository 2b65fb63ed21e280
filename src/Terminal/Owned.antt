-- ===== src/Terminal/Owned.antt =====
-- Who owns the open web sockets of the gateway (service-terminal.gateway.ts).
use kudeploy.Prelude.{
  ℕ, ◌≡◌, refl, sym, ap, ◌∙◌, Bool, true, false, Option, none, some, Text, or_else, Bool-cases, inl,
  inr, ◌⊎◌, ◌==◌, nat_eq, list_eq, nat_beq_iff, list_beq_iff, ==-self,
}
use kudeploy.Terminal.State.{
  Call, Gateway, Stage, close_found, close_session, delete_session, first_some, over, put_call,
  running, set_session, settling, shut,
}
use kudeploy.Terminal.Valid.{is_pending, absent_differs, truth_differs, shut-stage}

abbrev pub is_unopened : Stage → Bool
is_unopened settling = false
is_unopened running = false
is_unopened over = false
is_unopened _ = true

-- A call that has ended or succeeded, with a web socket, and not marked as closed.
abbrev pub IsLive : Call → Type 0
IsLive x = (x.web_socket ≡ true) × (x.closed ≡ false) × (is_pending x.stage ≡ false)

-- Every such call, but one, is of the session that its client has stored, and a
-- client with a call that goes on has one such call, and no session.
pub record IsOwnedBut (exempt : Option ℕ) (g : Gateway) : Type 0 where
  pub alone :
      (p q : ℕ)
      → is_pending (g.calls p).stage ≡ true
      → is_pending (g.calls q).stage ≡ true
      → (g.calls p).client ≡ (g.calls q).client
      → p ≡ q
  pub waiting : (p : ℕ) → is_pending (g.calls p).stage ≡ true → g.sessions (g.calls p).client ≡ none
  pub owned :
      (p : ℕ) → (exempt ≡ some p → ⊥) → IsLive (g.calls p) → g.sessions (g.calls p).client ≡ some p
  pub unopened : (p : ℕ) → is_unopened (g.calls p).stage ≡ true → (g.calls p).web_socket ≡ false

abbrev pub IsOwned : Gateway → Type 0
IsOwned g = IsOwnedBut none g

abbrev pub IsFree : Gateway → ℕ → Text → Type 0
IsFree g p client =
    ((q : ℕ) → is_pending (g.calls q).stage ≡ true → (g.calls q).client ≡ client → q ≡ p)
    × (g.sessions client ≡ none)

module _ (p : ℕ) (x : Call) (g : Gateway) where
  pub put-cases :
      (P : ℕ → Call → Type 0)
      → P p x
      → ((q : ℕ) → (q == p) ≡ false → P q (g.calls q))
      → (q : ℕ) → P q ((put_call p x g).calls q)
  put-cases P here there q = elim (Bool-cases (q == p)) [
    | inl e ↦ rw (e, (nat_beq_iff q p).0 e) here
    | inr e ↦ rw e (there q e)
  ]

  pub put-IsOwnedBut :
      IsOwned g
      → (is_pending x.stage ≡ true → IsFree g p x.client)
      → (is_unopened x.stage ≡ true → x.web_socket ≡ false)
      → IsOwnedBut (some p) (put_call p x g)
  put-IsOwnedBut v free closed = record {
    alone = λ q r.
        put-cases
          (λ q' y.
            is_pending y.stage ≡ true
            → is_pending ((put_call p x g).calls r).stage ≡ true
            → y.client ≡ ((put_call p x g).calls r).client
            → q' ≡ r)
          (put-cases
            (λ r' z.
              is_pending x.stage ≡ true → is_pending z.stage ≡ true → x.client ≡ z.client → p ≡ r')
            (λ a b c. refl) (λ r' e a b c. sym ((free a).0 r' b (sym c))) r)
          (λ q' e.
            put-cases
              (λ r' z.
                is_pending (g.calls q').stage ≡ true
                → is_pending z.stage ≡ true
                → (g.calls q').client ≡ z.client
                → q' ≡ r')
              (λ a b c. (free b).0 q' a c) (λ r' f. v.alone q' r') r)
          q;
    waiting =
        put-cases (λ q y. is_pending y.stage ≡ true → g.sessions y.client ≡ none) (λ a. (free a).1)
          (λ q e. v.waiting q);
    owned =
        put-cases (λ q y. (some p ≡ some q → ⊥) → IsLive y → g.sessions y.client ≡ some q)
          (λ a l. absurd (a refl)) (λ q e a l. v.owned q absent_differs l);
    unopened =
        put-cases (λ q y. is_unopened y.stage ≡ true → y.web_socket ≡ false) closed
          (λ q e. v.unopened q);
  }

-- The exempt call is no exception.
pub kept-IsOwned :
    (p : ℕ) (g : Gateway)
    → IsOwnedBut (some p) g
    → (IsLive (g.calls p) → g.sessions (g.calls p).client ≡ some p)
    → IsOwned g
kept-IsOwned p g v here = record {
  alone = v.alone;
  waiting = v.waiting;
  unopened = v.unopened;
  owned = λ q e l. elim (Bool-cases (q == p)) [
    | inl f ↦ let same = (nat_beq_iff q p).0 f in rw same (here (rw same at l))
    | inr f ↦
        v.owned q
          (λ k.
            absurd (truth_differs (sym ((nat_beq_iff q p).1 (sym (ap (λ o. or_else o p) k))) ∙ f)))
          l
  ];
}

pub weakened : (p : ℕ) (g : Gateway) → IsOwned g → IsOwnedBut (some p) g
weakened p g v = record {
  alone = v.alone;
  waiting = v.waiting;
  unopened = v.unopened;
  owned = λ q e l. v.owned q absent_differs l;
}

shut-client : (x : Call) → (shut x).client ≡ x.client
unfolding shut
shut-client x = elim (Bool-cases x.closed) [ inl e ↦ rw e refl | inr e ↦ rw e refl ]

shut-web_socket : (x : Call) → (shut x).web_socket ≡ x.web_socket
unfolding shut
shut-web_socket x = elim (Bool-cases x.closed) [ inl e ↦ rw e refl | inr e ↦ rw e refl ]

shut-closed : (x : Call) → (shut x).closed ≡ true
unfolding shut
shut-closed x = elim (Bool-cases x.closed) [ inl e ↦ rw e refl | inr e ↦ rw e refl ]

-- What only one call of the client may have is not left to another one.
not_stored :
    (stored : Option ℕ) (p q : ℕ)
    → (stored ≡ none) ⊎ (stored ≡ some p)
    → (q == p) ≡ false
    → stored ≡ some q
    → ⊥
not_stored stored p q (inl h) e k = absent_differs (sym h ∙ k)
not_stored stored p q (inr h) e k =
    truth_differs (sym ((nat_beq_iff q p).1 (ap (λ o. or_else o p) (sym k ∙ h))) ∙ e)

module _ (client : Text) (p : ℕ) (g : Gateway) (own : (g.calls p).client ≡ client)
    (v : IsOwnedBut (some p) g) where
  other_than : (q : ℕ) → (q == p) ≡ false → some p ≡ some q → ⊥
  other_than q e k = truth_differs (sym ((nat_beq_iff q p).1 (sym (ap (λ o. or_else o p) k))) ∙ e)

  pub closed-IsOwned :
      (g.sessions client ≡ none) ⊎ (g.sessions client ≡ some p)
      → IsOwned (delete_session client (put_call p (shut (g.calls p)) g))
  closed-IsOwned stored =
      let x = shut (g.calls p) in
      let after = put_call p x g in
      record {
        alone = λ q r a b c.
            v.alone q r (rw (like q).0 at a) (rw (like r).0 at b) (sym (like q).1 ∙ c ∙ (like r).1);
        waiting = λ q a. deleted q (v.waiting q (rw (like q).0 at a));
        owned =
            put-cases p x g
              (λ q y.
                (none ≡ some q → ⊥)
                → IsLive y
                → (delete_session client g).sessions y.client ≡ some q)
              (λ a l. absurd (truth_differs (sym (shut-closed (g.calls p)) ∙ l.1)))
              (λ q e a l. stays q e (v.owned q (other_than q e) l));
        unopened = λ q a. (like q).2 ∙ v.unopened q (rw (like q).0 at a);
      }
    where
      like :
          (q : ℕ)
          → (((put_call p (shut (g.calls p)) g).calls q).stage ≡ (g.calls q).stage)
            × (((put_call p (shut (g.calls p)) g).calls q).client ≡ (g.calls q).client)
            × (((put_call p (shut (g.calls p)) g).calls q).web_socket ≡ (g.calls q).web_socket)
      like q = elim (Bool-cases (q == p)) [
        | inl e ↦
            rw (e, (nat_beq_iff q p).0 e)
              (shut-stage (g.calls p), shut-client (g.calls p), shut-web_socket (g.calls p))
        | inr e ↦ rw e (refl, refl, refl)
      ]

      deleted :
          (q : ℕ)
          → g.sessions (g.calls q).client ≡ none
          → (delete_session client g).sessions ((put_call p (shut (g.calls p)) g).calls q).client
            ≡ none
      deleted q h = elim (Bool-cases ((g.calls q).client == client)) [
        | inl e ↦ rw ((like q).1, e) refl
        | inr e ↦ rw ((like q).1, e) h
      ]

      stays :
          (q : ℕ)
          → (q == p) ≡ false
          → g.sessions (g.calls q).client ≡ some q
          → (delete_session client g).sessions (g.calls q).client ≡ some q
      stays q e k = elim (Bool-cases ((g.calls q).client == client)) [
        | inl f ↦ absurd (
            not_stored (g.sessions client) p q stored e
              (ap g.sessions (sym ((list_beq_iff _ client).0 f)) ∙ k))
        | inr f ↦ rw f k
      ]

  pub stored-IsOwned :
      g.sessions client ≡ none
      → ((q : ℕ) → is_pending (g.calls q).stage ≡ true → (g.calls q).client ≡ client → ⊥)
      → IsOwned (set_session client p g)
  stored-IsOwned free settled = record {
    alone = v.alone;
    unopened = v.unopened;
    waiting = λ q a. elim (Bool-cases ((g.calls q).client == client)) [
      | inl e ↦ absurd (settled q a ((list_beq_iff _ client).0 e))
      | inr e ↦ rw e (v.waiting q a)
    ];
    owned = λ q a l. elim (Bool-cases (q == p)) [
      | inl e ↦ rw ((nat_beq_iff q p).0 e, own, ==-self client) refl
      | inr e ↦ stays q e (v.owned q (other_than q e) l)
    ];
  }
    where
      stays :
          (q : ℕ)
          → (q == p) ≡ false
          → g.sessions (g.calls q).client ≡ some q
          → (set_session client p g).sessions (g.calls q).client ≡ some q
      stays q e k = elim (Bool-cases ((g.calls q).client == client)) [
        | inl f ↦
            absurd
              (absent_differs (sym free ∙ ap g.sessions (sym ((list_beq_iff _ client).0 f)) ∙ k))
        | inr f ↦ rw f k
      ]

  -- The call that is exempt is closed, if its client has stored no other session.
  pub closing-fallback : g.sessions client ≡ none → IsOwned (close_session client (some p) g)
  unfolding close_session
  closing-fallback e = rw e (closed-IsOwned (inl e))

-- Closing changes no client of a call.
pub close_session-client :
    (client : Text) (fallback : Option ℕ) (g : Gateway) (q : ℕ)
    → ((close_session client fallback g).calls q).client ≡ (g.calls q).client
unfolding close_session
close_session-client client fallback g q = closing (first_some (g.sessions client) fallback)
  where
    closing :
        (found : Option ℕ) → ((close_found client found g).calls q).client ≡ (g.calls q).client
    closing none = refl
    closing (some p) = elim (Bool-cases (q == p)) [
      | inl e ↦ rw (e, (nat_beq_iff q p).0 e) (shut-client (g.calls p))
      | inr e ↦ rw e refl
    ]
