-- ===== src/Terminal/Start.antt =====
-- `handleStart`, from one await to the next, and connections (service-terminal.gateway.ts).
use kudeploy.Prelude.{
  ℕ, Bool, true, false, ◌&&◌, Option, none, some, List, [], ◌∷◌, Text, units, nat_eq, list_eq,
  is_value, or_else, if◌then◌else◌, filter, find, non_empty, trim,
}
use kudeploy.Kubernetes.Names.{to_kubernetes_project_name, to_kubernetes_service_name}
use kudeploy.Project.{Workspace}
use kudeploy.Promql.{build_service_pod_label_selector}
use kudeploy.Service.Entity.{Service}
use kudeploy.Terminal.State.{
  Answer, Call, Gateway, Stage, StartPayload, TerminalPod, TerminalStatus, answered, at_stage,
  close_session, emit, error_message, failed, finding, get_error_message, is_failure_status,
  is_missing_shell_error, listing, no_interactive_shell, no_running_pods, opening, over, put_call,
  running, set_connected, set_session, settling, started, terminal_failed,
}

unfoldable pub handle_connection : Text → Gateway → Gateway
handle_connection client g = set_connected client true g

unfoldable pub handle_disconnect : Text → Gateway → Gateway
unfolding close_session
handle_disconnect client g = close_session client none (set_connected client false g)

abbrev pub new_call : Text → Stage → Call
new_call client stage = record {
  client = client;
  stage = stage;
  closed = false;
  stdin = [];
  stdin_ended = false;
  web_socket = false;
  web_socket_closed = false;
  startup = none;
  columns = 80;
  rows = 24;
}

abbrev pub trimmed : Option Text → Text
trimmed none = []
trimmed (some s) = trim s

-- A call that ends with an error message; the handler of what it throws emits one as well.
unfoldable pub ends_with_error : ℕ → Text → Gateway → Gateway
ends_with_error p message g =
    let x = g.calls p in emit x.client (error_message message) (put_call p (at_stage over x) g)

-- The call `p` of `handleStart`, up to the first await; the context is what the guard has left.
unfoldable pub handle_start :
    ℕ → Text → Option (Option Workspace) → StartPayload → Gateway → Gateway
unfolding close_session trim non_empty units
handle_start p client none payload g = emit client (error_message (units "Not authenticated")) g
handle_start p client (some none) payload g =
    emit client (error_message (units "Workspace not found")) g
handle_start p client (some (some workspace)) payload g =
    let project_id = trimmed payload.project_id in
    let service_id = trimmed payload.service_id in
    if non_empty project_id && non_empty service_id
    then put_call p (new_call client (finding workspace project_id service_id))
        (close_session client none g)
    else emit client (error_message (units "Project ID and service ID are required")) g

abbrev pub deployment_to_show : Service → Option Text
deployment_to_show service = elim service.active_deployment_name [
  | some name ↦ some name
  | none ↦ service.latest_deployment_name
]

unfoldable pub found_at : Stage → ℕ → Answer (Option Service) → Gateway → Gateway
unfolding ends_with_error get_error_message units build_service_pod_label_selector
found_at (finding workspace project_id service_id) p (failed error) g =
    ends_with_error p (get_error_message error terminal_failed) g
found_at (finding workspace project_id service_id) p (answered none) g =
    ends_with_error p (units "Service not found") g
found_at (finding workspace project_id service_id) p (answered (some service)) g =
    let project_name = to_kubernetes_project_name project_id in
    let selector = build_service_pod_label_selector (record {
      deployment_name = deployment_to_show service;
      workspace_id = workspace.id;
      project_id = project_name;
      service_id = to_kubernetes_service_name service_id;
    }) in
    put_call p (at_stage (listing project_name selector (deployment_to_show service)) (g.calls p)) g
found_at _ p answer g = g

-- after the service is looked up
unfoldable pub service_found : ℕ → Answer (Option Service) → Gateway → Gateway
unfolding found_at
service_found p answer g = found_at (g.calls p).stage p answer g

unfoldable pub is_running_pod : TerminalPod → Bool
unfolding units non_empty
is_running_pod pod =
    is_value pod.phase (units "Running")
    && (non_empty (or_else pod.name []) && non_empty (or_else pod.container_name []))

abbrev first_of {ℓ} : {A : Type ℓ} → List A → Option A
first_of [] = none
first_of (x ∷ xs) = some x

unfoldable pub choose_pod : Option Text → List TerminalPod → Option TerminalPod
unfolding filter find is_running_pod non_empty
choose_pod deployment pods =
    let running_pods = filter is_running_pod pods in
    let name = or_else deployment [] in
    if non_empty name
    then find (λ (pod : TerminalPod). is_value pod.deployment name) running_pods
    else first_of running_pods

abbrev pub open_on : Option TerminalPod → Text → ℕ → Gateway → Gateway
open_on none namespace p g = ends_with_error p no_running_pods g
open_on (some pod) namespace p g =
    put_call p
      (at_stage (opening namespace (or_else pod.name []) (or_else pod.container_name []))
        (g.calls p))
      g

unfoldable pub listed_at : Stage → ℕ → Answer (List TerminalPod) → Gateway → Gateway
unfolding ends_with_error get_error_message choose_pod
listed_at (listing namespace selector deployment) p (failed error) g =
    ends_with_error p (get_error_message error terminal_failed) g
listed_at (listing namespace selector deployment) p (answered pods) g =
    open_on (choose_pod deployment pods) namespace p g
listed_at _ p answer g = g

-- after the pods are listed: one that runs is chosen, and the shell is asked for
unfoldable pub pods_listed : ℕ → Answer (List TerminalPod) → Gateway → Gateway
unfolding listed_at
pods_listed p answer g = listed_at (g.calls p).stage p answer g

-- The call ends, and its session is closed, or the one that the client has.
unfoldable pub ends_closing : ℕ → Text → Gateway → Gateway
unfolding close_session
ends_closing p message g =
    let x = g.calls p in
    let closed = close_session x.client (some p) (put_call p (at_stage over x) g) in
    emit x.client (error_message message) closed

unfoldable pub shell_error : Option Text → Text
unfolding is_missing_shell_error get_error_message
shell_error error =
    if is_missing_shell_error error
    then no_interactive_shell
    else get_error_message error terminal_failed

unfoldable pub opened_at : Stage → ℕ → Answer (Unit {0}) → Gateway → Gateway
unfolding ends_closing shell_error
opened_at (opening namespace pod container) p (failed error) g =
    ends_closing p (shell_error error) g
opened_at (opening namespace pod container) p (answered web_socket) g =
    put_call p (record (g.calls p) { stage = settling; web_socket = true }) g
opened_at _ p answer g = g

-- after `exec` has answered with the web socket, or thrown
unfoldable pub shell_opened : ℕ → Answer (Unit {0}) → Gateway → Gateway
unfolding opened_at
shell_opened p answer g = opened_at (g.calls p).stage p answer g

-- The session is active; a client that has gone meanwhile does not get it.
unfoldable pub activates : ℕ → Gateway → Gateway
unfolding close_session
activates p g =
    let client = (g.calls p).client in
    let active = put_call p (at_stage running (g.calls p)) g in
    let gone = close_session client (some p) active in
    if g.connected client then emit client started (set_session client p active) else gone

unfoldable pub settled_at : Stage → Option (Option TerminalStatus) → ℕ → Gateway → Gateway
unfolding ends_closing activates is_failure_status
settled_at settling (some status) p g =
    if is_failure_status status then ends_closing p no_interactive_shell g else activates p g
settled_at _ _ p g = g

-- after the startup promise has its value
unfoldable pub startup_settled : ℕ → Gateway → Gateway
unfolding settled_at
startup_settled p g = settled_at (g.calls p).stage (g.calls p).startup p g
