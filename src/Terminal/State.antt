-- ===== src/Terminal/State.antt =====
-- The state of the gateway, its sessions and what it emits (service-terminal.gateway.ts).
use kudeploy.Prelude.{
  ℕ, Bool, true, false, ◌||◌, Option, none, some, List, [], ◌∷◌, ◌++◌, Text, units, ◌==◌, nat_eq,
  list_eq, is_value, if◌then◌else◌, non_empty,
}
use kudeploy.Prelude.Int.{ℤ, pos}
use kudeploy.Connection.Value.{includes}
use kudeploy.Project.{Workspace}

-- what a call is answered with, or the message of what it throws, where it has one
pub data Answer {ℓ} (A : Type ℓ) : Type ℓ where
  answered : A → Answer A
  failed : Option Text → Answer A

pub record StartPayload : Type 0 where
  pub project_id : Option Text
  pub service_id : Option Text

-- of `V1Status`
pub record TerminalStatus : Type 0 where
  pub status : Option Text
  pub message : Option Text

-- of `V1Pod`; `deployment` is the value of the deployment label
pub record TerminalPod : Type 0 where
  pub name : Option Text
  pub phase : Option Text
  pub container_name : Option Text
  pub deployment : Option Text

-- what is emitted to a client
pub data Message : Type 0 where
  started ended : Message
  error_message data_message : Text → Message

-- What a call of `handleStart` waits for: the service, the pods, the shell, or the startup status.
-- It is `running` once the session is active, and `over` when it ends without one.
pub data Stage : Type 0 where
  unused settling running over : Stage
  finding : Workspace → Text → Text → Stage
  listing : Text → Text → Option Text → Stage
  opening : Text → Text → Text → Stage

-- A call with its session; `startup` is the value of the startup promise.
pub record Call : Type 0 where
  pub client : Text
  pub stage : Stage
  pub closed : Bool
  pub stdin : List Text
  pub stdin_ended : Bool
  pub web_socket : Bool
  pub web_socket_closed : Bool
  pub startup : Option (Option TerminalStatus)
  pub columns : ℕ
  pub rows : ℕ

pub record Gateway : Type 0 where
  pub calls : ℕ → Call
  pub sessions : Text → Option ℕ
  pub connected : Text → Bool
  pub sent : List (Text × Message)

abbrev pub no_interactive_shell : Text
no_interactive_shell =
    units
      "Unable to start an interactive shell in this container. Ensure the image includes /bin/sh."

abbrev pub no_running_pods : Text
no_running_pods = units "No running pods found for this service"

abbrev pub terminal_failed : Text
terminal_failed = units "Service terminal failed"

unfoldable pub get_error_message : Option Text → Text → Text
unfolding non_empty
get_error_message none fallback = fallback
get_error_message (some message) fallback = if non_empty message then message else fallback

unfoldable pub is_missing_shell_error : Option Text → Bool
unfolding get_error_message includes units
is_missing_shell_error error =
    let message = get_error_message error [] in
    includes message (units "no such file or directory")
    || includes message (units "executable file not found")

unfoldable pub is_failure_status : Option TerminalStatus → Bool
unfolding units
is_failure_status none = false
is_failure_status (some s) = is_value s.status (units "Failure")

unfoldable pub is_positive_integer : Option ℤ → Option ℕ
is_positive_integer (some (pos n)) = if n == 0 then none else some n
is_positive_integer _ = none

abbrev pub put_call : ℕ → Call → Gateway → Gateway
put_call p x g = record g { calls = λ q. if q == p then x else g.calls q }

abbrev pub emit : Text → Message → Gateway → Gateway
emit client message g = record g { sent = g.sent ++ ((client, message) ∷ []) }

abbrev pub delete_session : Text → Gateway → Gateway
delete_session client g = record g { sessions = λ c. if c == client then none else g.sessions c }

abbrev pub set_session : Text → ℕ → Gateway → Gateway
set_session client p g = record g { sessions = λ c. if c == client then some p else g.sessions c }

abbrev pub set_connected : Text → Bool → Gateway → Gateway
set_connected client b g = record g { connected = λ c. if c == client then b else g.connected c }

abbrev pub at_stage : Stage → Call → Call
at_stage s x = record x { stage = s }

-- `session.closed = true; session.stdin.end(); session.webSocket?.close()`
unfoldable pub shut : Call → Call
shut x =
    if x.closed
    then x
    else record x { closed = true; stdin_ended = true; web_socket_closed = x.web_socket }

abbrev pub close_found : Text → Option ℕ → Gateway → Gateway
close_found client none g = g
close_found client (some p) g = delete_session client (put_call p (shut (g.calls p)) g)

abbrev pub first_some {ℓ} : {A : Type ℓ} → Option A → Option A → Option A
first_some none b = b
first_some (some a) b = some a

unfoldable pub close_session : Text → Option ℕ → Gateway → Gateway
unfolding shut
close_session client fallback g = close_found client (first_some (g.sessions client) fallback) g
