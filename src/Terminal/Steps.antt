-- ===== src/Terminal/Steps.antt =====
-- What the gateway may do, in which order, and its stored sessions (service-terminal.gateway.ts).
use kudeploy.Prelude.{
  nat_eq, ==-self, ℕ, ◌≡◌, refl, sym, ap, ◌∙◌, true, false, not, ◌&&◌, ◌||◌, Option, none, some,
  List, [], Text, arith, Bool-cases, inl, inr, non_empty,
}
use kudeploy.Prelude.Int.{ℤ}
use kudeploy.Project.{Workspace}
use kudeploy.Service.Entity.{Service}
use kudeploy.Terminal.State.{
  Answer, Call, Gateway, Stage, StartPayload, TerminalPod, TerminalStatus, answered, at_stage,
  close_session, emit, failed, finding, is_failure_status, is_positive_integer, listing, opening,
  over, put_call, running, settling, unused,
}
use kudeploy.Terminal.Start.{
  activates, choose_pod, ends_closing, ends_with_error, found_at, handle_connection,
  handle_disconnect, handle_start, listed_at, new_call, open_on, opened_at, pods_listed,
  service_found, settled_at, shell_opened, startup_settled, trimmed,
}
use kudeploy.Terminal.Events.{
  handle_data, handle_resize, is_running, on_status, output_written, resized, resolved,
  startup_timed_out, written,
}
use kudeploy.Terminal.Valid.{
  is_pending, IsHeldBy, IsValid, put-IsValid, set-IsValid, connected-IsValid, gone-IsValid,
  MayClose, close_session-IsValid, close_session-sessions, running_not_pending, truth_differs,
  absent_differs, close_session-later, close_session-stage,
}

-- The call of a start that goes on may change to any open one.
pending-put :
    (p : ℕ) (x : Call) (g : Gateway)
    → is_running (g.calls p).stage ≡ false
    → x.closed ≡ false
    → IsValid g
    → IsValid (put_call p x g)
pending-put p x g idle unclosed v =
    put-IsValid p x g (λ client h. absurd (truth_differs (sym h.2 ∙ idle))) (λ e. unclosed) v

over-put :
    (p : ℕ) (g : Gateway)
    → is_running (g.calls p).stage ≡ false
    → IsValid g
    → IsValid (put_call p (at_stage over (g.calls p)) g)
over-put p g idle v =
    put-IsValid p (at_stage over (g.calls p)) g
      (λ client h. absurd (truth_differs (sym h.2 ∙ idle))) (λ e. absurd (truth_differs (sym e))) v

pub emit-IsValid : (client : Text) (m : _) (g : Gateway) → IsValid g → IsValid (emit client m g)
emit-IsValid client m g v = record { held = v.held; pending = v.pending }

ends_with_error-IsValid :
    (p : ℕ) (message : Text) (g : Gateway)
    → is_running (g.calls p).stage ≡ false
    → IsValid g
    → IsValid (ends_with_error p message g)
unfolding ends_with_error
ends_with_error-IsValid p message g idle v = emit-IsValid _ _ _ (over-put p g idle v)

module _ (p : ℕ) (g : Gateway) (v : IsValid g) where
  found_at-IsValid :
      (s : Stage) (answer : Answer (Option Service))
      → (g.calls p).stage ≡ s
      → IsValid (found_at s p answer g)
  unfolding found_at
  found_at-IsValid (finding w a b) (failed error) e =
      ends_with_error-IsValid p _ g (ap is_running e) v
  found_at-IsValid (finding w a b) (answered none) e =
      ends_with_error-IsValid p _ g (ap is_running e) v
  found_at-IsValid (finding w a b) (answered (some service)) e =
      pending-put p _ g (ap is_running e) (v.pending p (ap is_pending e)) v
  found_at-IsValid unused answer e = v
  found_at-IsValid settling answer e = v
  found_at-IsValid running answer e = v
  found_at-IsValid over answer e = v
  found_at-IsValid (listing a b c) answer e = v
  found_at-IsValid (opening a b c) answer e = v

  open_on-IsValid :
      (pod : Option TerminalPod) (namespace : Text)
      → is_pending (g.calls p).stage ≡ true
      → is_running (g.calls p).stage ≡ false
      → IsValid (open_on pod namespace p g)
  open_on-IsValid none namespace waits idle = ends_with_error-IsValid p _ g idle v
  open_on-IsValid (some pod) namespace waits idle = pending-put p _ g idle (v.pending p waits) v

  listed_at-IsValid :
      (s : Stage) (answer : Answer (List TerminalPod))
      → (g.calls p).stage ≡ s
      → IsValid (listed_at s p answer g)
  unfolding listed_at
  listed_at-IsValid (listing a b c) (failed error) e =
      ends_with_error-IsValid p _ g (ap is_running e) v
  listed_at-IsValid (listing a b c) (answered pods) e =
      open_on-IsValid (choose_pod c pods) a (ap is_pending e) (ap is_running e)
  listed_at-IsValid unused answer e = v
  listed_at-IsValid settling answer e = v
  listed_at-IsValid running answer e = v
  listed_at-IsValid over answer e = v
  listed_at-IsValid (finding w a b) answer e = v
  listed_at-IsValid (opening a b c) answer e = v

  -- After a change of the call, its session may be closed.
  may_close : (x : Call) → is_pending x.stage ≡ false → MayClose (put_call p x g) x.client (some p)
  may_close x idle = rw (==-self p) (refl, idle)

  ends_closing-IsValid :
      (message : Text) → is_running (g.calls p).stage ≡ false → IsValid (ends_closing p message g)
  unfolding ends_closing
  ends_closing-IsValid message idle = emit-IsValid _ _ _ (
      close_session-IsValid (g.calls p).client (some p) _
        (may_close (at_stage over (g.calls p)) refl) (over-put p g idle v))

  opened_at-IsValid :
      (s : Stage) (answer : Answer (Unit {0}))
      → (g.calls p).stage ≡ s
      → IsValid (opened_at s p answer g)
  unfolding opened_at
  opened_at-IsValid (opening a b c) (failed error) e = ends_closing-IsValid _ (ap is_running e)
  opened_at-IsValid (opening a b c) (answered web_socket) e =
      pending-put p _ g (ap is_running e) (v.pending p (ap is_pending e)) v
  opened_at-IsValid unused answer e = v
  opened_at-IsValid settling answer e = v
  opened_at-IsValid running answer e = v
  opened_at-IsValid over answer e = v
  opened_at-IsValid (finding w a b) answer e = v
  opened_at-IsValid (listing a b c) answer e = v

  activates-IsValid :
      is_pending (g.calls p).stage ≡ true
      → is_running (g.calls p).stage ≡ false
      → IsValid (activates p g)
  unfolding activates
  activates-IsValid waits idle =
      let x = at_stage running (g.calls p) in
      let active = pending-put p x g idle (v.pending p waits) v in
      elim (Bool-cases (g.connected (g.calls p).client)) [
        | inl e ↦
            let held : IsHeldBy ((put_call p x g).calls p) (g.calls p).client =
              rw (==-self p) (v.pending p waits, refl, refl) in
            rw e
              (emit-IsValid _ _ _ (set-IsValid (g.calls p).client p (put_call p x g) held e active))
        | inr e ↦
            rw e (close_session-IsValid (g.calls p).client (some p) _ (may_close x refl) active)
      ]

  settled_at-IsValid :
      (s : Stage) (startup : Option (Option TerminalStatus))
      → (g.calls p).stage ≡ s
      → IsValid (settled_at s startup p g)
  unfolding settled_at
  settled_at-IsValid settling (some status) e = elim (Bool-cases (is_failure_status status)) [
    | inl f ↦ rw f (ends_closing-IsValid _ (ap is_running e))
    | inr f ↦ rw f (activates-IsValid (ap is_pending e) (ap is_running e))
  ]
  settled_at-IsValid settling none e = v
  settled_at-IsValid unused startup e = v
  settled_at-IsValid running startup e = v
  settled_at-IsValid over startup e = v
  settled_at-IsValid (finding w a b) startup e = v
  settled_at-IsValid (listing a b c) startup e = v
  settled_at-IsValid (opening a b c) startup e = v

  -- Changes of other fields keep the state valid.
  pub like-IsValid :
      (x : Call)
      → x.client ≡ (g.calls p).client
      → x.stage ≡ (g.calls p).stage
      → x.closed ≡ (g.calls p).closed
      → IsValid (put_call p x g)
  like-IsValid x own same closed =
      put-IsValid p x g (λ client h. (closed ∙ h.0, own ∙ h.1, ap is_running same ∙ h.2))
        (λ waits. closed ∙ v.pending p (sym (ap is_pending same) ∙ waits)) v

  on_status-IsValid : (status : TerminalStatus) → IsValid (on_status p status g)
  unfolding on_status
  on_status-IsValid status =
      let x = resolved (some status) (g.calls p) in
      let settled = like-IsValid x refl refl refl in
      elim (Bool-cases (not (is_running (g.calls p).stage) || (g.calls p).closed)) [
        | inl e ↦ rw e settled
        | inr e ↦
            let active : is_running (g.calls p).stage ≡ true = ground (arith, e) in
            let idle = running_not_pending (g.calls p).stage active in
            rw e (
              close_session-IsValid (g.calls p).client (some p) _ (may_close x idle)
                (emit-IsValid _ _ _ settled))
      ]

  starting-IsValid :
      (client : Text) (workspace : Workspace) (project_id service_id : Text)
      → (g.calls p).stage ≡ unused
      → IsValid (
          put_call p
            (new_call client (finding workspace project_id service_id))
            (close_session client none g))
  starting-IsValid client workspace project_id service_id fresh =
      pending-put p _ (close_session client none g)
        (ap is_running (close_session-stage client none g p ∙ fresh)) refl
        (close_session-IsValid client none g tt v)

  handle_start-IsValid :
      (client : Text) (context : Option (Option Workspace)) (payload : StartPayload)
      → (g.calls p).stage ≡ unused
      → IsValid (handle_start p client context payload g)
  unfolding handle_start
  handle_start-IsValid client none payload fresh = emit-IsValid _ _ _ v
  handle_start-IsValid client (some none) payload fresh = emit-IsValid _ _ _ v
  handle_start-IsValid client (some (some workspace)) payload fresh =
      elim (Bool-cases
        (non_empty (trimmed payload.project_id) && non_empty (trimmed payload.service_id))) [
          | inl e ↦ rw e (starting-IsValid client workspace _ _ fresh)
          | inr e ↦ rw e (emit-IsValid _ _ _ v)
        ]

module _ (g : Gateway) (v : IsValid g) where
  handle_disconnect-IsValid : (client : Text) → IsValid (handle_disconnect client g)
  unfolding handle_disconnect
  handle_disconnect-IsValid client = rw (close_session-later client g) (
      gone-IsValid client (close_session client none g) (close_session-sessions client none g)
        (close_session-IsValid client none g tt v))

  written-IsValid : (session : Option ℕ) (text : Option Text) → IsValid (written session text g)
  written-IsValid none text = v
  written-IsValid (some p) none = v
  written-IsValid (some p) (some text) = like-IsValid p g v _ refl refl refl

  resized-IsValid : (session columns rows : Option ℕ) → IsValid (resized session columns rows g)
  resized-IsValid none columns rows = v
  resized-IsValid (some p) none rows = v
  resized-IsValid (some p) (some columns) none = v
  resized-IsValid (some p) (some columns) (some rows) = like-IsValid p g v _ refl refl refl

-- What may happen next. A call starts under a number that is not used, and the guard has left the
-- context; the rest are answers, timers, callbacks, messages and connections, in any order, and for
-- any call: there are more runs than those of the server, where a timer waits for its session.
pub data Step (g : Gateway) : Gateway → Type 0 where
  connects : (client : Text) → Step g (handle_connection client g)
  disconnects : (client : Text) → Step g (handle_disconnect client g)
  starts :
      (p : ℕ) (client : Text) (context : Option (Option Workspace)) (payload : StartPayload)
      → (g.calls p).stage ≡ unused
      → Step g (handle_start p client context payload g)
  finds : (p : ℕ) (answer : Answer (Option Service)) → Step g (service_found p answer g)
  lists : (p : ℕ) (answer : Answer (List TerminalPod)) → Step g (pods_listed p answer g)
  opens : (p : ℕ) (answer : Answer (Unit {0})) → Step g (shell_opened p answer g)
  settles : (p : ℕ) → Step g (startup_settled p g)
  times_out : (p : ℕ) → Step g (startup_timed_out p g)
  changes_status : (p : ℕ) (status : TerminalStatus) → Step g (on_status p status g)
  types : (client : Text) (text : Option Text) → Step g (handle_data client text g)
  resizes : (client : Text) (columns rows : Option ℤ) → Step g (handle_resize client columns rows g)
  prints : (p : ℕ) (chunk : Text) → Step g (output_written p chunk g)

pub Step-IsValid : {g h : Gateway} → Step g h → IsValid g → IsValid h
unfolding handle_connection service_found pods_listed shell_opened startup_settled startup_timed_out
    handle_data handle_resize output_written
Step-IsValid {g} (connects client) v = connected-IsValid client g v
Step-IsValid {g} (disconnects client) v = handle_disconnect-IsValid g v client
Step-IsValid {g} (starts p client context payload fresh) v =
    handle_start-IsValid p g v client context payload fresh
Step-IsValid {g} (finds p answer) v = found_at-IsValid p g v _ answer refl
Step-IsValid {g} (lists p answer) v = listed_at-IsValid p g v _ answer refl
Step-IsValid {g} (opens p answer) v = opened_at-IsValid p g v _ answer refl
Step-IsValid {g} (settles p) v = settled_at-IsValid p g v _ _ refl
Step-IsValid {g} (times_out p) v = like-IsValid p g v _ refl refl refl
Step-IsValid {g} (changes_status p status) v = on_status-IsValid p g v status
Step-IsValid {g} (types client text) v = written-IsValid g v (g.sessions client) text
Step-IsValid {g} (resizes client columns rows) v =
    resized-IsValid g v (g.sessions client) (is_positive_integer columns) (is_positive_integer rows)
Step-IsValid {g} (prints p chunk) v = emit-IsValid _ _ _ v

-- the gateway when the server starts
abbrev pub initial_gateway : Gateway
initial_gateway = record {
  calls = λ p. new_call [] unused;
  sessions = λ client. none;
  connected = λ client. false;
  sent = [];
}

pub data Interleaved : Gateway → Type 0 where
  begin : Interleaved initial_gateway
  next : {g h : Gateway} → Interleaved g → Step g h → Interleaved h

-- The invariant holds in whatever order things happen, and however calls of `handleStart` overlap.
pub Interleaved-IsValid : {g : Gateway} → Interleaved g → IsValid g
Interleaved-IsValid begin = record {
  held = λ client p h. absurd (absent_differs h);
  pending = λ p h. refl;
}
Interleaved-IsValid (next r s) = Step-IsValid s (Interleaved-IsValid r)
