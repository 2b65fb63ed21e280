-- ===== src/Terminal/Coherent.antt =====
-- What is closed of a session, and when it has a web socket (service-terminal.gateway.ts).
use kudeploy.Prelude.{
  ℕ, ◌≡◌, refl, sym, ap, ◌∙◌, Bool, true, false, not, ◌&&◌, ◌||◌, Option, none, some, List, Text,
  Bool-cases, inl, inr, non_empty,
}
use kudeploy.Project.{Workspace}
use kudeploy.Service.Entity.{Service}
use kudeploy.Terminal.State.{
  Answer, Call, Gateway, Stage, StartPayload, TerminalPod, TerminalStatus, answered, at_stage,
  close_found, close_session, emit, failed, finding, first_some, is_failure_status,
  is_positive_integer, listing, no_interactive_shell, opening, over, put_call, running,
  set_connected, settling, shut, unused,
}
use kudeploy.Terminal.Start.{
  activates, choose_pod, ends_closing, ends_with_error, found_at, handle_connection,
  handle_disconnect, handle_start, listed_at, new_call, open_on, opened_at, pods_listed,
  service_found, settled_at, shell_error, shell_opened, startup_settled, trimmed,
}
use kudeploy.Terminal.Events.{
  end_message, handle_data, handle_resize, is_running, on_status, output_written, resized, resolved,
  startup_timed_out, written,
}
use kudeploy.Terminal.Valid.{is_pending, IsValid, truth_differs}
use kudeploy.Terminal.Owned.{put-cases}
use kudeploy.Terminal.Steps.{
  Step, connects, disconnects, starts, finds, lists, opens, settles, times_out, changes_status,
  types, resizes, prints, Interleaved, begin, next, Interleaved-IsValid,
}

abbrev pub has_shell : Stage → Bool
has_shell settling = true
has_shell running = true
has_shell _ = false

-- The input is ended and the web socket, where there is one, is closed, exactly if the session is
-- marked as closed; there is a web socket once the shell is open.
abbrev pub IsCoherent : Call → Type 0
IsCoherent x =
    (x.stdin_ended ≡ x.closed)
    × (x.web_socket_closed ≡ (x.closed && x.web_socket))
    × (has_shell x.stage ≡ true → x.web_socket ≡ true)

abbrev pub AreCoherent : Gateway → Type 0
AreCoherent g = (q : ℕ) → IsCoherent (g.calls q)

put-AreCoherent :
    (p : ℕ) (x : Call) (g : Gateway) → AreCoherent g → IsCoherent x → AreCoherent (put_call p x g)
put-AreCoherent p x g c here = put-cases p x g (λ q y. IsCoherent y) here (λ q e. c q)

staged :
    (s : Stage) (x : Call)
    → IsCoherent x
    → (has_shell s ≡ true → x.web_socket ≡ true)
    → IsCoherent (at_stage s x)
staged s x c h = (c.0, c.1, h)

shut-IsCoherent : (x : Call) → IsCoherent x → IsCoherent (shut x)
unfolding shut
shut-IsCoherent x c = elim (Bool-cases x.closed) [
  | inl e ↦ rw e (c.0 ∙ e, c.1 ∙ ap (λ b. b && x.web_socket) e, c.2)
  | inr e ↦ rw e (refl, refl, c.2)
]

close_session-AreCoherent :
    (client : Text) (fallback : Option ℕ) (g : Gateway)
    → AreCoherent g
    → AreCoherent (close_session client fallback g)
unfolding close_session
close_session-AreCoherent client fallback g c = closing (first_some (g.sessions client) fallback)
  where
    closing : (found : Option ℕ) → AreCoherent (close_found client found g)
    closing none = c
    closing (some p) = put-AreCoherent p (shut (g.calls p)) g c (shut-IsCoherent (g.calls p) (c p))

module _ (p : ℕ) (g : Gateway) (c : AreCoherent g) where
  -- A call at a stage without a shell.
  moved : (s : Stage) → has_shell s ≡ false → AreCoherent (put_call p (at_stage s (g.calls p)) g)
  moved s none_there =
      put-AreCoherent p (at_stage s (g.calls p)) g c
        (staged s (g.calls p) (c p) (λ h. absurd (truth_differs (sym h ∙ none_there))))

  found_at-AreCoherent :
      (s : Stage) (answer : Answer (Option Service)) → AreCoherent (found_at s p answer g)
  unfolding found_at ends_with_error
  found_at-AreCoherent (finding w a b) (failed error) = moved over refl
  found_at-AreCoherent (finding w a b) (answered none) = moved over refl
  found_at-AreCoherent (finding w a b) (answered (some service)) = moved (listing _ _ _) refl
  found_at-AreCoherent unused answer = c
  found_at-AreCoherent settling answer = c
  found_at-AreCoherent running answer = c
  found_at-AreCoherent over answer = c
  found_at-AreCoherent (listing a b d) answer = c
  found_at-AreCoherent (opening a b d) answer = c

  open_on-AreCoherent :
      (pod : Option TerminalPod) (namespace : Text) → AreCoherent (open_on pod namespace p g)
  unfolding ends_with_error
  open_on-AreCoherent none namespace = moved over refl
  open_on-AreCoherent (some pod) namespace = moved (opening _ _ _) refl

  listed_at-AreCoherent :
      (s : Stage) (answer : Answer (List TerminalPod)) → AreCoherent (listed_at s p answer g)
  unfolding listed_at ends_with_error
  listed_at-AreCoherent (listing a b d) (failed error) = moved over refl
  listed_at-AreCoherent (listing a b d) (answered pods) = open_on-AreCoherent (choose_pod d pods) a
  listed_at-AreCoherent unused answer = c
  listed_at-AreCoherent settling answer = c
  listed_at-AreCoherent running answer = c
  listed_at-AreCoherent over answer = c
  listed_at-AreCoherent (finding w a b) answer = c
  listed_at-AreCoherent (opening a b d) answer = c

  ends_closing-AreCoherent : (message : Text) → AreCoherent (ends_closing p message g)
  unfolding ends_closing
  ends_closing-AreCoherent message =
      close_session-AreCoherent (g.calls p).client (some p)
        (put_call p (at_stage over (g.calls p)) g) (moved over refl)

  opened_at-AreCoherent :
      (s : Stage) (answer : Answer (Unit {0}))
      → (g.calls p).stage ≡ s
      → IsValid g
      → AreCoherent (opened_at s p answer g)
  unfolding opened_at
  opened_at-AreCoherent (opening a b d) (failed error) e v =
      ends_closing-AreCoherent (shell_error error)
  opened_at-AreCoherent (opening a b d) (answered web_socket) e v =
      let unclosed = v.pending p (ap is_pending e) in
      let not_yet = (c p).1 ∙ ap (λ t. t && (g.calls p).web_socket) unclosed in
      put-AreCoherent p _ g c ((c p).0, not_yet ∙ sym (ap (λ t. t && true) unclosed), λ h. refl)
  opened_at-AreCoherent unused answer e v = c
  opened_at-AreCoherent settling answer e v = c
  opened_at-AreCoherent running answer e v = c
  opened_at-AreCoherent over answer e v = c
  opened_at-AreCoherent (finding w a b) answer e v = c
  opened_at-AreCoherent (listing a b d) answer e v = c

  activates-AreCoherent : (g.calls p).stage ≡ settling → AreCoherent (activates p g)
  unfolding activates
  activates-AreCoherent e =
      let active =
        put-AreCoherent p (at_stage running (g.calls p)) g c
          (staged running (g.calls p) (c p) (λ h. (c p).2 (ap has_shell e))) in
      elim (Bool-cases (g.connected (g.calls p).client)) [
        | inl there ↦ rw there active
        | inr gone ↦ rw gone (
            close_session-AreCoherent (g.calls p).client (some p)
              (put_call p (at_stage running (g.calls p)) g) active)
      ]

  settled_at-AreCoherent :
      (s : Stage) (startup : Option (Option TerminalStatus))
      → (g.calls p).stage ≡ s
      → AreCoherent (settled_at s startup p g)
  unfolding settled_at
  settled_at-AreCoherent settling (some status) e = elim (Bool-cases (is_failure_status status)) [
    | inl f ↦ rw f (ends_closing-AreCoherent no_interactive_shell)
    | inr f ↦ rw f (activates-AreCoherent e)
  ]
  settled_at-AreCoherent settling none e = c
  settled_at-AreCoherent unused startup e = c
  settled_at-AreCoherent running startup e = c
  settled_at-AreCoherent over startup e = c
  settled_at-AreCoherent (finding w a b) startup e = c
  settled_at-AreCoherent (listing a b d) startup e = c
  settled_at-AreCoherent (opening a b d) startup e = c

  on_status-AreCoherent : (status : TerminalStatus) → AreCoherent (on_status p status g)
  unfolding on_status
  on_status-AreCoherent status =
      let settled = put-AreCoherent p (resolved (some status) (g.calls p)) g c (c p) in
      elim (Bool-cases (not (is_running (g.calls p).stage) || (g.calls p).closed)) [
        | inl e ↦ rw e settled
        | inr e ↦ rw e (
            close_session-AreCoherent (g.calls p).client (some p)
              (emit (g.calls p).client (end_message status)
                (put_call p (resolved (some status) (g.calls p)) g))
              settled)
      ]

  handle_start-AreCoherent :
      (client : Text) (context : Option (Option Workspace)) (payload : StartPayload)
      → AreCoherent (handle_start p client context payload g)
  unfolding handle_start
  handle_start-AreCoherent client none payload = c
  handle_start-AreCoherent client (some none) payload = c
  handle_start-AreCoherent client (some (some workspace)) payload =
      elim (Bool-cases
        (non_empty (trimmed payload.project_id) && non_empty (trimmed payload.service_id))) [
          | inl e ↦ rw e (
              put-AreCoherent p
                (new_call client
                  (finding workspace (trimmed payload.project_id) (trimmed payload.service_id)))
                (close_session client none g) (close_session-AreCoherent client none g c)
                (refl, refl, λ h. absurd (truth_differs (sym h))))
          | inr e ↦ rw e c
        ]

module _ (g : Gateway) (c : AreCoherent g) where
  handle_disconnect-AreCoherent : (client : Text) → AreCoherent (handle_disconnect client g)
  unfolding handle_disconnect
  handle_disconnect-AreCoherent client =
      close_session-AreCoherent client none (set_connected client false g) c

  written-AreCoherent :
      (session : Option ℕ) (text : Option Text) → AreCoherent (written session text g)
  written-AreCoherent none text = c
  written-AreCoherent (some p) none = c
  written-AreCoherent (some p) (some text) = put-AreCoherent p _ g c (c p)

  resized-AreCoherent :
      (session columns rows : Option ℕ) → AreCoherent (resized session columns rows g)
  resized-AreCoherent none columns rows = c
  resized-AreCoherent (some p) none rows = c
  resized-AreCoherent (some p) (some columns) none = c
  resized-AreCoherent (some p) (some columns) (some rows) = put-AreCoherent p _ g c (c p)

Step-AreCoherent : {g h : Gateway} → Step g h → IsValid g → AreCoherent g → AreCoherent h
unfolding handle_connection service_found pods_listed shell_opened startup_settled startup_timed_out
    handle_data handle_resize output_written
Step-AreCoherent {g} (connects client) v c = c
Step-AreCoherent {g} (disconnects client) v c = handle_disconnect-AreCoherent g c client
Step-AreCoherent {g} (starts p client context payload fresh) v c =
    handle_start-AreCoherent p g c client context payload
Step-AreCoherent {g} (finds p answer) v c = found_at-AreCoherent p g c (g.calls p).stage answer
Step-AreCoherent {g} (lists p answer) v c = listed_at-AreCoherent p g c (g.calls p).stage answer
Step-AreCoherent {g} (opens p answer) v c =
    opened_at-AreCoherent p g c (g.calls p).stage answer refl v
Step-AreCoherent {g} (settles p) v c =
    settled_at-AreCoherent p g c (g.calls p).stage (g.calls p).startup refl
Step-AreCoherent {g} (times_out p) v c = put-AreCoherent p (resolved none (g.calls p)) g c (c p)
Step-AreCoherent {g} (changes_status p status) v c = on_status-AreCoherent p g c status
Step-AreCoherent {g} (types client text) v c = written-AreCoherent g c (g.sessions client) text
Step-AreCoherent {g} (resizes client columns rows) v c =
    resized-AreCoherent g c (g.sessions client) (is_positive_integer columns)
      (is_positive_integer rows)
Step-AreCoherent {g} (prints p chunk) v c = c

pub Interleaved-AreCoherent : {g : Gateway} → Interleaved g → AreCoherent g
Interleaved-AreCoherent begin = λ q. (refl, refl, λ h. absurd (truth_differs (sym h)))
Interleaved-AreCoherent (next r s) =
    Step-AreCoherent s (Interleaved-IsValid r) (Interleaved-AreCoherent r)
