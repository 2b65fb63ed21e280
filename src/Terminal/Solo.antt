-- ===== src/Terminal/Solo.antt =====
-- The steps of the gateway and the owners of its web sockets (service-terminal.gateway.ts).
use kudeploy.Prelude.{
  ℕ, ◌≡◌, refl, sym, ap, ◌∙◌, Bool, true, false, not, ◌&&◌, ◌||◌, Option, none, some, List, Text,
  arith, Bool-cases, Option-cases, inl, inr, nat_eq, ==-self, nat_beq_iff, non_empty,
}
use kudeploy.Project.{Workspace}
use kudeploy.Service.Entity.{Service}
use kudeploy.Terminal.State.{
  Answer, Call, Gateway, Message, Stage, StartPayload, TerminalPod, TerminalStatus, answered,
  at_stage, close_session, emit, failed, finding, is_failure_status, listing, opening, over,
  put_call, running, set_connected, settling, unused,
}
use kudeploy.Terminal.Start.{
  activates, choose_pod, ends_closing, ends_with_error, found_at, handle_start, listed_at, new_call,
  open_on, opened_at, settled_at, trimmed,
}
use kudeploy.Terminal.Events.{is_running, on_status, resolved}
use kudeploy.Terminal.Valid.{
  is_pending, IsValid, MayClose, close_session-found, close_session-sessions, close_session-stage,
  running_not_pending, truth_differs, absent_differs,
}
use kudeploy.Terminal.Steps.{emit-IsValid}
use kudeploy.Terminal.Owned.{
  is_unopened, IsLive, IsOwnedBut, IsOwned, put-cases, put-IsOwnedBut, kept-IsOwned, weakened,
  closed-IsOwned, stored-IsOwned, closing-fallback, close_session-client,
}

pub emit-IsOwned :
    (client : Text) (m : Message) (g : Gateway) → IsOwned g → IsOwned (emit client m g)
emit-IsOwned client m g v = record {
  alone = v.alone;
  waiting = v.waiting;
  owned = v.owned;
  unopened = v.unopened;
}

pub connected-IsOwned :
    (client : Text) (b : Bool) (g : Gateway) → IsOwned g → IsOwned (set_connected client b g)
connected-IsOwned client b g v = record {
  alone = v.alone;
  waiting = v.waiting;
  owned = v.owned;
  unopened = v.unopened;
}

fallback-IsOwned :
    (client : Text) (fallback : Option ℕ) (g : Gateway)
    → MayClose g client fallback
    → g.sessions client ≡ none
    → IsOwned g
    → IsOwned (close_session client fallback g)
unfolding close_session
fallback-IsOwned client none g m e v = rw e v
fallback-IsOwned client (some p) g (own, idle) e v =
    closing-fallback client p g own (weakened p g v) e

pub close_session-IsOwned :
    (client : Text) (fallback : Option ℕ) (g : Gateway)
    → MayClose g client fallback
    → IsValid g
    → IsOwned g
    → IsOwned (close_session client fallback g)
close_session-IsOwned client fallback g m valid v = elim (Option-cases (g.sessions client)) [
  | inl e ↦ fallback-IsOwned client fallback g m e v
  | inr (q, e) ↦
      rw (close_session-found client fallback q g e)
        (closed-IsOwned client q g (valid.held client q e).0.1 (weakened q g v) (inr e))
]

module _ (p : ℕ) (g : Gateway) (v : IsOwned g) where
  put-own :
      (x : Call)
      → x.client ≡ (g.calls p).client
      → (is_pending x.stage ≡ true → is_pending (g.calls p).stage ≡ true)
      → (is_unopened x.stage ≡ true → x.web_socket ≡ false)
      → IsOwnedBut (some p) (put_call p x g)
  put-own x own waits closed =
      put-IsOwnedBut p x g v
        (λ a.
          ((λ q b c. v.alone q p b (waits a) (c ∙ own)), ap g.sessions own ∙ v.waiting p (waits a)))
        closed

  kept-put :
      (x : Call)
      → IsOwnedBut (some p) (put_call p x g)
      → (IsLive x → g.sessions x.client ≡ some p)
      → IsOwned (put_call p x g)
  kept-put x but here = kept-IsOwned p (put_call p x g) but (rw (==-self p) here)

  -- A call that goes on may change to one that does.
  pending-IsOwned :
      (x : Call)
      → x.client ≡ (g.calls p).client
      → is_pending (g.calls p).stage ≡ true
      → is_pending x.stage ≡ true
      → (is_unopened x.stage ≡ true → x.web_socket ≡ false)
      → IsOwned (put_call p x g)
  pending-IsOwned x own waits still closed =
      kept-put x (put-own x own (λ a. waits) closed) (λ l. absurd (truth_differs (sym still ∙ l.2)))

  pub like-IsOwned :
      (x : Call)
      → x.client ≡ (g.calls p).client
      → x.stage ≡ (g.calls p).stage
      → x.closed ≡ (g.calls p).closed
      → x.web_socket ≡ (g.calls p).web_socket
      → IsOwned (put_call p x g)
  like-IsOwned x own stage closed socket =
      kept-put x
        (put-own x own (λ a. sym (ap is_pending stage) ∙ a)
          (λ a. socket ∙ v.unopened p (sym (ap is_unopened stage) ∙ a)))
        (λ l.
          ap g.sessions own
          ∙ v.owned p absent_differs
              (sym socket ∙ l.0, sym closed ∙ l.1, sym (ap is_pending stage) ∙ l.2))

  ends_with_error-IsOwned :
      (message : Text)
      → is_unopened (g.calls p).stage ≡ true
      → IsOwned (ends_with_error p message g)
  unfolding ends_with_error
  ends_with_error-IsOwned message e =
      let x = at_stage over (g.calls p) in
      emit-IsOwned _ _ _ (
        kept-put x
          (put-own x refl (λ a. absurd (truth_differs (sym a)))
            (λ a. absurd (truth_differs (sym a))))
          (λ l. absurd (truth_differs (sym l.0 ∙ v.unopened p e))))

  ends_closing-IsOwned :
      (message : Text) → is_pending (g.calls p).stage ≡ true → IsOwned (ends_closing p message g)
  unfolding ends_closing
  ends_closing-IsOwned message waits =
      let x = at_stage over (g.calls p) in
      let but = put-own x refl (λ a. waits) (λ a. absurd (truth_differs (sym a))) in
      emit-IsOwned _ _ _ (
        closing-fallback (g.calls p).client p (put_call p x g) (rw (==-self p) refl) but
          (v.waiting p waits))

  activates-IsOwned : is_pending (g.calls p).stage ≡ true → IsOwned (activates p g)
  unfolding activates
  activates-IsOwned waits =
      let x = at_stage running (g.calls p) in
      let client = (g.calls p).client in
      let after = put_call p x g in
      let but = put-own x refl (λ a. waits) (λ a. absurd (truth_differs (sym a))) in
      let own : (after.calls p).client ≡ client = rw (==-self p) refl in
      elim (Bool-cases (g.connected client)) [
        | inl e ↦
            let nobody =
              put-cases p x g (λ q y. is_pending y.stage ≡ true → y.client ≡ client → ⊥)
                (λ a c. truth_differs (sym a))
                (λ q f a c.
                  truth_differs (sym ((nat_beq_iff q p).1 (v.alone q p a waits c)) ∙ f)) in
            rw e (
              emit-IsOwned _ _ _ (stored-IsOwned client p after own but (v.waiting p waits) nobody))
        | inr e ↦ rw e (closing-fallback client p after own but (v.waiting p waits))
      ]

  open_on-IsOwned :
      (pod : Option TerminalPod) (namespace : Text)
      → is_pending (g.calls p).stage ≡ true
      → is_unopened (g.calls p).stage ≡ true
      → IsOwned (open_on pod namespace p g)
  open_on-IsOwned none namespace waits e = ends_with_error-IsOwned _ e
  open_on-IsOwned (some pod) namespace waits e =
      pending-IsOwned _ refl waits refl (λ a. v.unopened p e)

  pub found_at-IsOwned :
      (s : Stage) (answer : Answer (Option Service))
      → (g.calls p).stage ≡ s
      → IsOwned (found_at s p answer g)
  unfolding found_at
  found_at-IsOwned (finding w a b) (failed error) e = ends_with_error-IsOwned _ (ap is_unopened e)
  found_at-IsOwned (finding w a b) (answered none) e = ends_with_error-IsOwned _ (ap is_unopened e)
  found_at-IsOwned (finding w a b) (answered (some service)) e =
      pending-IsOwned _ refl (ap is_pending e) refl (λ a. v.unopened p (ap is_unopened e))
  found_at-IsOwned unused answer e = v
  found_at-IsOwned settling answer e = v
  found_at-IsOwned running answer e = v
  found_at-IsOwned over answer e = v
  found_at-IsOwned (listing a b c) answer e = v
  found_at-IsOwned (opening a b c) answer e = v

  pub listed_at-IsOwned :
      (s : Stage) (answer : Answer (List TerminalPod))
      → (g.calls p).stage ≡ s
      → IsOwned (listed_at s p answer g)
  unfolding listed_at
  listed_at-IsOwned (listing a b c) (failed error) e = ends_with_error-IsOwned _ (ap is_unopened e)
  listed_at-IsOwned (listing a b c) (answered pods) e =
      open_on-IsOwned (choose_pod c pods) a (ap is_pending e) (ap is_unopened e)
  listed_at-IsOwned unused answer e = v
  listed_at-IsOwned settling answer e = v
  listed_at-IsOwned running answer e = v
  listed_at-IsOwned over answer e = v
  listed_at-IsOwned (finding w a b) answer e = v
  listed_at-IsOwned (opening a b c) answer e = v

  pub opened_at-IsOwned :
      (s : Stage) (answer : Answer (Unit {0}))
      → (g.calls p).stage ≡ s
      → IsOwned (opened_at s p answer g)
  unfolding opened_at
  opened_at-IsOwned (opening a b c) (failed error) e = ends_closing-IsOwned _ (ap is_pending e)
  opened_at-IsOwned (opening a b c) (answered web_socket) e =
      pending-IsOwned _ refl (ap is_pending e) refl (λ a. absurd (truth_differs (sym a)))
  opened_at-IsOwned unused answer e = v
  opened_at-IsOwned settling answer e = v
  opened_at-IsOwned running answer e = v
  opened_at-IsOwned over answer e = v
  opened_at-IsOwned (finding w a b) answer e = v
  opened_at-IsOwned (listing a b c) answer e = v

  pub settled_at-IsOwned :
      (s : Stage) (startup : Option (Option TerminalStatus))
      → (g.calls p).stage ≡ s
      → IsOwned (settled_at s startup p g)
  unfolding settled_at
  settled_at-IsOwned settling (some status) e = elim (Bool-cases (is_failure_status status)) [
    | inl f ↦ rw f (ends_closing-IsOwned _ (ap is_pending e))
    | inr f ↦ rw f (activates-IsOwned (ap is_pending e))
  ]
  settled_at-IsOwned settling none e = v
  settled_at-IsOwned unused startup e = v
  settled_at-IsOwned running startup e = v
  settled_at-IsOwned over startup e = v
  settled_at-IsOwned (finding w a b) startup e = v
  settled_at-IsOwned (listing a b c) startup e = v
  settled_at-IsOwned (opening a b c) startup e = v

  module _ (valid : IsValid g) where
    pub on_status-IsOwned :
        (status : TerminalStatus)
        → IsValid (put_call p (resolved (some status) (g.calls p)) g)
        → IsOwned (on_status p status g)
    unfolding on_status
    on_status-IsOwned status valid_after =
        let x = resolved (some status) (g.calls p) in
        let settled = like-IsOwned x refl refl refl refl in
        elim (Bool-cases (not (is_running (g.calls p).stage) || (g.calls p).closed)) [
          | inl e ↦ rw e settled
          | inr e ↦
              let active : is_running (g.calls p).stage ≡ true = ground (arith, e) in
              let idle = running_not_pending (g.calls p).stage active in
              let may : MayClose (put_call p x g) (g.calls p).client (some p) =
                rw (==-self p) (refl, idle) in
              rw e (
                close_session-IsOwned (g.calls p).client (some p) _ may
                  (emit-IsValid _ _ _ valid_after) (emit-IsOwned _ _ _ settled))
        ]

    starting-IsOwned :
        (client : Text) (workspace : Workspace) (project_id service_id : Text)
        → ((q : ℕ) → is_pending (g.calls q).stage ≡ true → (g.calls q).client ≡ client → ⊥)
        → IsOwned (
            put_call p
              (new_call client (finding workspace project_id service_id))
              (close_session client none g))
    starting-IsOwned client workspace project_id service_id nobody =
        let before = close_session client none g in
        let x = new_call client (finding workspace project_id service_id) in
        let closed = close_session-IsOwned client none g tt valid v in
        let but =
          put-IsOwnedBut p x before closed
            (λ a. (
              (λ q b c. absurd (
                  nobody q (sym (ap is_pending (close_session-stage client none g q)) ∙ b)
                    (sym (close_session-client client none g q) ∙ c))),
              close_session-sessions client none g,
            ))
            (λ a. refl) in
        kept-IsOwned p (put_call p x before) but
          (rw (==-self p) (λ l. absurd (truth_differs (sym l.0))))

    pub handle_start-IsOwned :
        (client : Text) (context : Option (Option Workspace)) (payload : StartPayload)
        → ((q : ℕ) → is_pending (g.calls q).stage ≡ true → (g.calls q).client ≡ client → ⊥)
        → IsOwned (handle_start p client context payload g)
    unfolding handle_start
    handle_start-IsOwned client none payload nobody = emit-IsOwned _ _ _ v
    handle_start-IsOwned client (some none) payload nobody = emit-IsOwned _ _ _ v
    handle_start-IsOwned client (some (some workspace)) payload nobody =
        elim (Bool-cases
          (non_empty (trimmed payload.project_id) && non_empty (trimmed payload.service_id))) [
            | inl e ↦ rw e (starting-IsOwned client workspace _ _ nobody)
            | inr e ↦ rw e (emit-IsOwned _ _ _ v)
          ]
