-- ===== src/Terminal/Safe.antt =====
-- Input of clients, and shells, in the runs of the gateway (service-terminal.gateway.ts).
use kudeploy.Prelude.{
  ℕ, ◌≡◌, refl, sym, ap, ◌∙◌, true, false, ◌&&◌, Option, none, some, [], ◌∷◌, ◌++◌, Text, ◌==◌,
  nat_eq, is_value, ==-self, nat_beq_iff, Bool-cases, inl, inr, if◌then◌else◌, arith,
}
use kudeploy.Terminal.State.{
  Call, Gateway, Stage, finding, listing, opening, over, running, settling, unused,
}
use kudeploy.Terminal.Events.{handle_data, is_running, written}
use kudeploy.Terminal.Valid.{is_pending, absent_differs, truth_differs}
use kudeploy.Terminal.Steps.{Interleaved, begin, next, Interleaved-IsValid}
use kudeploy.Terminal.Alone.{SoloReachable, solo_begin, solo_next, SoloReachable-IsOwned}
use kudeploy.Terminal.Coherent.{has_shell, IsCoherent, Interleaved-AreCoherent}

-- The gateway has a web socket to the shell and has not closed it, nor ended its input.
abbrev pub IsOpen : Call → Type 0
IsOpen x = (x.web_socket ≡ true) × (x.web_socket_closed ≡ false) × (x.stdin_ended ≡ false)

pub record IsSafe (g : Gateway) : Type 0 where
  pub stored :
      (client : Text) (p : ℕ)
      → g.sessions client ≡ some p
      → IsOpen (g.calls p)
        × ((g.calls p).client ≡ client)
        × (is_running (g.calls p).stage ≡ true)
        × (g.connected client ≡ true)
  pub pending :
      (p : ℕ)
      → is_pending (g.calls p).stage ≡ true
      → ((g.calls p).web_socket_closed ≡ false) × ((g.calls p).stdin_ended ≡ false)
  pub input :
      (client text : Text) (q : ℕ)
      → ((handle_data client (some text) g).calls q).stdin ≡ (
          if is_value (g.sessions client) q
          then (g.calls q).stdin ++ (text ∷ [])
          else (g.calls q).stdin)

shell_of_running : (s : Stage) → is_running s ≡ true → has_shell s ≡ true
shell_of_running running h = refl
shell_of_running settling h = refl
shell_of_running unused h = ground arith
shell_of_running over h = ground arith
shell_of_running (finding w a b) h = ground arith
shell_of_running (listing a b c) h = ground arith
shell_of_running (opening a b c) h = ground arith

-- What is not marked as closed is not closed.
unclosed :
    (x : Call)
    → IsCoherent x
    → x.closed ≡ false
    → (x.web_socket_closed ≡ false) × (x.stdin_ended ≡ false)
unclosed x c h = (c.1 ∙ ap (λ b. b && x.web_socket) h, c.0 ∙ h)

written-stdin :
    (session : Option ℕ) (text : Text) (g : Gateway) (q : ℕ)
    → ((written session (some text) g).calls q).stdin
      ≡ (if is_value session q then (g.calls q).stdin ++ (text ∷ []) else (g.calls q).stdin)
written-stdin none text g q = refl
written-stdin (some p) text g q = elim (Bool-cases (q == p)) [
  | inl e ↦ rw ((nat_beq_iff q p).0 e, ==-self p) refl
  | inr e ↦ elim (Bool-cases (p == q)) [
    | inl f ↦ absurd (truth_differs (sym ((nat_beq_iff q p).1 (sym ((nat_beq_iff p q).0 f))) ∙ e))
    | inr f ↦ rw (e, f) refl
  ]
]

-- Whatever clients, shells, timers and lookups do in whatever order, and however the calls of
-- `handleStart` overlap: a stored session is active and its client's own, the client is connected, and
-- the gateway has not closed its web socket nor ended its input; neither has it for a call that still
-- waits. What a client sends is written to the client's stored session and to no other, so never to
-- one that the gateway has closed. A shell may still have ended by itself.
pub Interleaved-IsSafe : {g : Gateway} → Interleaved g → IsSafe g
unfolding handle_data
Interleaved-IsSafe {g} r =
    let v = Interleaved-IsValid r in
    let c = Interleaved-AreCoherent r in
    record {
      stored = λ client p h.
          let ((closed, own, active), there) = v.held client p h in
          let (socket, stdin) = unclosed (g.calls p) (c p) closed in
          (
            ((c p).2 (shell_of_running (g.calls p).stage active), socket, stdin),
            own,
            active,
            there,
          );
      pending = λ p h. unclosed (g.calls p) (c p) (v.pending p h);
      input = λ client text q. written-stdin (g.sessions client) text g q;
    }

-- A client with a call that goes on has one such call and no stored session; a shell is the stored
-- session of its client, once its call does not go on, unless the gateway has both closed its web
-- socket and ended its input.
pub record IsTended (g : Gateway) : Type 0 where
  pub alone :
      (p q : ℕ)
      → is_pending (g.calls p).stage ≡ true
      → is_pending (g.calls q).stage ≡ true
      → (g.calls p).client ≡ (g.calls q).client
      → p ≡ q
  pub waiting : (p : ℕ) → is_pending (g.calls p).stage ≡ true → g.sessions (g.calls p).client ≡ none
  pub kept :
      (p : ℕ)
      → (g.calls p).web_socket ≡ true
      → is_pending (g.calls p).stage ≡ false
      → ((g.calls p).web_socket_closed && (g.calls p).stdin_ended) ≡ false
      → g.sessions (g.calls p).client ≡ some p

any_order : {g : Gateway} → SoloReachable g → Interleaved g
any_order solo_begin = begin
any_order (solo_next r s a) = next (any_order r) s

-- A session with something left open is not marked as closed.
not_marked :
    (x : Call)
    → IsCoherent x
    → x.web_socket ≡ true
    → (x.web_socket_closed && x.stdin_ended) ≡ false
    → x.closed ≡ false
not_marked x c socket h = elim (Bool-cases x.closed) [
  | inl e ↦
      let closed_socket = c.1 ∙ ap (λ b. b && x.web_socket) e ∙ socket in
      absurd (truth_differs (rw (closed_socket, c.0 ∙ e) at h))
  | inr e ↦ e
]

-- If no call of `handleStart` begins while another one of the same client goes on, then, in whatever
-- order the rest happens, no shell is left over: a shell whose call is over or has succeeded, and
-- whose web socket the gateway has not closed or whose input it has not ended, is of the session that
-- its client has stored; and a client with a call that goes on has one such call and no stored
-- session.
pub SoloReachable-IsTended : {g : Gateway} → SoloReachable g → IsTended g
SoloReachable-IsTended {g} r =
    let v = SoloReachable-IsOwned r in
    let c = Interleaved-AreCoherent (any_order r) in
    record {
      alone = v.alone;
      waiting = v.waiting;
      kept = λ p socket idle left.
          v.owned p absent_differs (socket, not_marked (g.calls p) (c p) socket left, idle);
    }
