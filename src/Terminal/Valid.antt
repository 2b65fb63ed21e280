-- ===== src/Terminal/Valid.antt =====
-- The sessions that the gateway stores, and the parts of its steps (service-terminal.gateway.ts).
use kudeploy.Prelude.{
  ℕ, ◌≡◌, refl, sym, ap, ◌∙◌, Bool, true, false, Option, none, some, Text, ◌==◌, nat_eq, list_eq,
  nat_beq_iff, list_beq_iff, ==-self, or_else, arith, Bool-cases, Option-cases, inl, inr,
}
use kudeploy.Terminal.State.{
  Call, Gateway, Stage, close_found, close_session, delete_session, finding, first_some, listing,
  opening, over, put_call, running, set_connected, set_session, settling, shut, unused,
}
use kudeploy.Terminal.Events.{is_running}

-- The call is going on and its session is not active yet.
abbrev pub is_pending : Stage → Bool
is_pending unused = false
is_pending running = false
is_pending over = false
is_pending _ = true

-- an active session of the client that is not marked as closed
abbrev pub IsHeldBy : Call → Text → Type 0
IsHeldBy x client = (x.closed ≡ false) × (x.client ≡ client) × (is_running x.stage ≡ true)

-- A session that is stored is active, not marked as closed, and of its client, who is connected;
-- the session of a call that goes on is not marked as closed.
pub record IsValid (g : Gateway) : Type 0 where
  pub held :
      (client : Text) (p : ℕ)
      → g.sessions client ≡ some p
      → IsHeldBy (g.calls p) client × (g.connected client ≡ true)
  pub pending : (p : ℕ) → is_pending (g.calls p).stage ≡ true → (g.calls p).closed ≡ false

pub put-IsValid :
    (p : ℕ) (x : Call) (g : Gateway)
    → ((client : Text) → IsHeldBy (g.calls p) client → IsHeldBy x client)
    → (is_pending x.stage ≡ true → x.closed ≡ false)
    → IsValid g
    → IsValid (put_call p x g)
put-IsValid p x g keeps unclosed v = record {
  held = λ client q h. (held_at client q (v.held client q h).0, (v.held client q h).1);
  pending = pending_at;
}
  where
    held_at :
        (client : Text) (q : ℕ)
        → IsHeldBy (g.calls q) client
        → IsHeldBy ((put_call p x g).calls q) client
    held_at client q h = elim (Bool-cases (q == p)) [
      | inl e ↦ rw e (keeps client (rw ((nat_beq_iff q p).0 e) at h))
      | inr e ↦ rw e h
    ]

    pending_at :
        (q : ℕ)
        → is_pending ((put_call p x g).calls q).stage ≡ true
        → ((put_call p x g).calls q).closed ≡ false
    pending_at q = elim (Bool-cases (q == p)) [ inl e ↦ rw e unclosed | inr e ↦ rw e (v.pending q) ]

pub set-IsValid :
    (client : Text) (p : ℕ) (g : Gateway)
    → IsHeldBy (g.calls p) client
    → g.connected client ≡ true
    → IsValid g
    → IsValid (set_session client p g)
set-IsValid client p g h there v = record { held = held_at; pending = v.pending }
  where
    held_at :
        (c : Text) (q : ℕ)
        → (set_session client p g).sessions c ≡ some q
        → IsHeldBy (g.calls q) c × (g.connected c ≡ true)
    held_at c q = elim (Bool-cases (c == client)) [
      | inl e ↦
          rw (e, (list_beq_iff c client).0 e) (λ k. rw (sym (ap (λ o. or_else o p) k)) (h, there))
      | inr e ↦ rw e (v.held c q)
    ]

pub connected-IsValid :
    (client : Text) (g : Gateway) → IsValid g → IsValid (set_connected client true g)
connected-IsValid client g v = record { held = held_at; pending = v.pending }
  where
    held_at :
        (c : Text) (q : ℕ)
        → g.sessions c ≡ some q
        → IsHeldBy (g.calls q) c × ((set_connected client true g).connected c ≡ true)
    held_at c q h = elim (Bool-cases (c == client)) [
      | inl e ↦ rw e ((v.held c q h).0, refl)
      | inr e ↦ rw e (v.held c q h)
    ]

pub absent_differs : {q : ℕ} → none ≡ some q → ⊥
absent_differs h = ground arith

pub truth_differs : true ≡ false → ⊥
truth_differs h = ground arith

-- A client without a session may go.
pub gone-IsValid :
    (client : Text) (g : Gateway)
    → g.sessions client ≡ none
    → IsValid g
    → IsValid (set_connected client false g)
gone-IsValid client g none_left v = record { held = held_at; pending = v.pending }
  where
    held_at :
        (c : Text) (q : ℕ)
        → g.sessions c ≡ some q
        → IsHeldBy (g.calls q) c × ((set_connected client false g).connected c ≡ true)
    held_at c q h = elim (Bool-cases (c == client)) [
      | inl e ↦
          absurd
            (absent_differs (sym none_left ∙ ap g.sessions (sym ((list_beq_iff c client).0 e)) ∙ h))
      | inr e ↦ rw e (v.held c q h)
    ]

pub shut-stage : (x : Call) → (shut x).stage ≡ x.stage
unfolding shut
shut-stage x = elim (Bool-cases x.closed) [ inl e ↦ rw e refl | inr e ↦ rw e refl ]

pub running_not_pending : (s : Stage) → is_running s ≡ true → is_pending s ≡ false
running_not_pending running h = refl
running_not_pending unused h = ground arith
running_not_pending settling h = ground arith
running_not_pending over h = ground arith
running_not_pending (finding w a b) h = ground arith
running_not_pending (listing a b c) h = ground arith
running_not_pending (opening a b c) h = ground arith

closed-IsValid :
    (client : Text) (p : ℕ) (g : Gateway)
    → (g.calls p).client ≡ client
    → is_pending (g.calls p).stage ≡ false
    → IsValid g
    → IsValid (delete_session client (put_call p (shut (g.calls p)) g))
closed-IsValid client p g own idle v = record { held = held_at; pending = pending_at }
  where
    after : Gateway
    after = delete_session client (put_call p (shut (g.calls p)) g)

    held_at :
        (c : Text) (q : ℕ)
        → after.sessions c ≡ some q
        → IsHeldBy (after.calls q) c × (g.connected c ≡ true)
    held_at c q = elim (Bool-cases (c == client)) [
      | inl e ↦ rw e (λ k. absurd (absent_differs k))
      | inr e ↦ rw e (λ k. elim (Bool-cases (q == p)) [
        | inl f ↦
            let of_c = (v.held c q k).0.1 in
            let same : c ≡ client =
              sym of_c ∙ ap (λ n. (g.calls n).client) ((nat_beq_iff q p).0 f) ∙ own in
            absurd (truth_differs (sym ((list_beq_iff c client).1 same) ∙ e))
        | inr f ↦ rw f (v.held c q k)
      ])
    ]

    pending_at : (q : ℕ) → is_pending (after.calls q).stage ≡ true → (after.calls q).closed ≡ false
    pending_at q = elim (Bool-cases (q == p)) [
      | inl f ↦
          rw f (λ k. absurd (truth_differs (sym k ∙ ap is_pending (shut-stage (g.calls p)) ∙ idle)))
      | inr f ↦ rw f (v.pending q)
    ]

-- what `closeSession` may be given to close where its client has no session
abbrev pub MayClose : Gateway → Text → Option ℕ → Type 0
MayClose g client none = Unit
MayClose g client (some p) = ((g.calls p).client ≡ client) × (is_pending (g.calls p).stage ≡ false)

pub close_session-found :
    (client : Text) (fallback : Option ℕ) (p : ℕ) (g : Gateway)
    → g.sessions client ≡ some p
    → close_session client fallback g ≡ delete_session client (put_call p (shut (g.calls p)) g)
unfolding close_session
close_session-found client fallback p g e = rw e refl

close_session-fallback :
    (client : Text) (fallback : Option ℕ) (g : Gateway)
    → g.sessions client ≡ none
    → MayClose g client fallback
    → IsValid g
    → IsValid (close_session client fallback g)
unfolding close_session
close_session-fallback client none g e m v = rw e v
close_session-fallback client (some p) g e (own, idle) v =
    rw e (closed-IsValid client p g own idle v)

pub close_session-IsValid :
    (client : Text) (fallback : Option ℕ) (g : Gateway)
    → MayClose g client fallback
    → IsValid g
    → IsValid (close_session client fallback g)
close_session-IsValid client fallback g m v = elim (Option-cases (g.sessions client)) [
  | inl e ↦ close_session-fallback client fallback g e m v
  | inr (p, e) ↦
      let (closed, own, active) = (v.held client p e).0 in
      rw (close_session-found client fallback p g e)
        (closed-IsValid client p g own (running_not_pending (g.calls p).stage active) v)
]

fallback-sessions :
    (client : Text) (fallback : Option ℕ) (g : Gateway)
    → g.sessions client ≡ none
    → (close_session client fallback g).sessions client ≡ none
unfolding close_session
fallback-sessions client none g e = rw (e, e) refl
fallback-sessions client (some p) g e = rw (e, ==-self client) refl

-- A client whose session is closed has none.
pub close_session-sessions :
    (client : Text) (fallback : Option ℕ) (g : Gateway)
    → (close_session client fallback g).sessions client ≡ none
close_session-sessions client fallback g = elim (Option-cases (g.sessions client)) [
  | inl e ↦ fallback-sessions client fallback g e
  | inr (p, e) ↦ rw (close_session-found client fallback p g e, ==-self client) refl
]

-- Closing changes no stage.
pub close_session-stage :
    (client : Text) (fallback : Option ℕ) (g : Gateway) (q : ℕ)
    → ((close_session client fallback g).calls q).stage ≡ (g.calls q).stage
unfolding close_session
close_session-stage client fallback g q = closing (first_some (g.sessions client) fallback)
  where
    shut_at : (p : ℕ) → ((put_call p (shut (g.calls p)) g).calls q).stage ≡ (g.calls q).stage
    shut_at p = elim (Bool-cases (q == p)) [
      | inl e ↦ rw (e, (nat_beq_iff q p).0 e) (shut-stage (g.calls p))
      | inr e ↦ rw e refl
    ]

    closing : (found : Option ℕ) → ((close_found client found g).calls q).stage ≡ (g.calls q).stage
    closing none = refl
    closing (some p) = shut_at p

-- That the client has gone does not matter to closing.
pub close_session-later :
    (client : Text) (g : Gateway)
    → close_session client none (set_connected client false g)
      ≡ set_connected client false (close_session client none g)
unfolding close_session
close_session-later client g = closing (g.sessions client)
  where
    closing :
        (found : Option ℕ)
        → close_found client (first_some found none) (set_connected client false g)
          ≡ set_connected client false (close_found client (first_some found none) g)
    closing none = refl
    closing (some p) = refl
