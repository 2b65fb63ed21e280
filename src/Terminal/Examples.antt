-- ===== src/Terminal/Examples.antt =====
-- A run of the gateway with one client, and runs that show what is left over or lost.
use kudeploy.Prelude.{
  ℕ, ◌≡◌, refl, sym, ap, true, false, Option, none, some, List, [], ◌∷◌, ◌++◌, Text, units, or_else,
  if◌then◌else◌, ◌==◌, nat_eq, list_eq, filter, find, non_empty, trim,
}
use kudeploy.Project.{Workspace}
use kudeploy.Kubernetes.Dates.{epoch}
use kudeploy.Service.Entity.{Service, ready}
use kudeploy.Terminal.State.{Gateway, StartPayload, TerminalPod, TerminalStatus, answered, started}
use kudeploy.Terminal.Start.{
  handle_connection, handle_start, pods_listed, service_found, shell_opened, startup_settled,
}
use kudeploy.Terminal.Events.{on_status, startup_timed_out}
use kudeploy.Terminal.Valid.{truth_differs}
use kudeploy.Terminal.Steps.{
  connects, starts, finds, lists, opens, times_out, settles, Interleaved, begin, next,
  initial_gateway,
}
use kudeploy.Prelude.Exec.{ok, pure}
use kudeploy.Prelude.Int.{pos}
use kudeploy.WorkspaceMember.Entity.{WorkspaceMember, owner}
use kudeploy.WorkspaceMember.Service.{new_member}
use kudeploy.Terminal.Guard.{GuardOutside, Handshake, missing, can_activate}
use kudeploy.Terminal.Guard.Managers.{AdmitsManager, can_activate-AdmitsManager}
use kudeploy.Terminal.Safe.{IsSafe, Interleaved-IsSafe, IsTended, SoloReachable-IsTended}
use kudeploy.Terminal.Alone.{SoloReachable, solo_begin, solo_next}

abbrev shop : Workspace
shop = record { id = units "7" }

abbrev payload : StartPayload
payload = record { project_id = some (units "shop"); service_id = some (units "web") }

abbrev web : Service
web = record {
  id = units "web";
  project_id = units "shop";
  name = units "web";
  image = units "nginx";
  registry_credential_id = none;
  replicas = none;
  ports = [];
  env = [];
  command = [];
  args = [];
  resources = none;
  health_check = none;
  volumes = [];
  status = ready;
  active_deployment_name = some (units "web-1");
  latest_deployment_name = none;
  created_at = epoch;
  updated_at = epoch;
}

abbrev pod : TerminalPod
pod = record {
  name = some (units "web-1-x");
  phase = some (units "Running");
  container_name = some (units "app");
  deployment = some (units "web-1");
}

abbrev ann : Text
ann = units "ann"

abbrev there : Gateway
there = handle_connection ann initial_gateway

abbrev beginning : ℕ → Gateway → Gateway
beginning p g = handle_start p ann (some (some shop)) payload g

-- A call that begins, with a shell that opens.
abbrev opening_shell : ℕ → Gateway → Gateway
opening_shell p g =
    shell_opened p (answered tt)
      (pods_listed p (answered (pod ∷ [])) (service_found p (answered (some web)) g))

abbrev settling_shell : ℕ → Gateway → Gateway
settling_shell p g = startup_settled p (startup_timed_out p g)

run : SoloReachable (settling_shell 0 (opening_shell 0 (beginning 0 there)))
unfolding handle_connection
run =
    let s0 = solo_next solo_begin (connects ann) tt in
    let s1 =
      solo_next s0 (starts 0 ann (some (some shop)) payload refl)
        (λ q a c. truth_differs (sym a)) in
    let s2 = solo_next s1 (finds 0 (answered (some web))) tt in
    let s3 = solo_next s2 (lists 0 (answered (pod ∷ []))) tt in
    let s4 = solo_next s3 (opens 0 (answered tt)) tt in
    solo_next (solo_next s4 (times_out 0) tt) (settles 0) tt

SoloReachable-IsTended_example : IsTended (settling_shell 0 (opening_shell 0 (beginning 0 there)))
SoloReachable-IsTended_example = SoloReachable-IsTended run

reached : Interleaved (settling_shell 0 (opening_shell 0 (beginning 0 there)))
unfolding handle_connection
reached =
    let s1 = next (next begin (connects ann)) (starts 0 ann (some (some shop)) payload refl) in
    let s2 = next (next s1 (finds 0 (answered (some web)))) (lists 0 (answered (pod ∷ []))) in
    next (next (next s2 (opens 0 (answered tt))) (times_out 0)) (settles 0)

Interleaved-IsSafe_example : IsSafe (settling_shell 0 (opening_shell 0 (beginning 0 there)))
Interleaved-IsSafe_example = Interleaved-IsSafe reached

-- Two calls of a client that overlap, each with a shell.
abbrev overlapping : Gateway
overlapping =
    settling_shell 1
      (settling_shell 0 (opening_shell 1 (opening_shell 0 (beginning 1 (beginning 0 there)))))

-- The first shell stays open and is stored nowhere.
first_left_over :
    ((overlapping.calls 0).web_socket ≡ true)
    × ((overlapping.calls 0).closed ≡ false)
    × (overlapping.sessions ann ≡ some 1)
unfolding handle_connection handle_start service_found pods_listed shell_opened startup_timed_out
    startup_settled kudeploy.Prelude.list_beq
first_left_over = (refl, refl, refl)

abbrev success : TerminalStatus
success = record { status = some (units "Success"); message = none }

-- A shell that ends without a failure before its start is over.
abbrev ends_early : Gateway
ends_early = startup_settled 0 (on_status 0 success (opening_shell 0 (beginning 0 there)))

-- It is stored as a running one, and all that its client is told is that it has started.
end_lost : (ends_early.sessions ann ≡ some 0) × (ends_early.sent ≡ (ann, started) ∷ [])
unfolding handle_connection handle_start service_found pods_listed shell_opened startup_settled
    on_status kudeploy.Prelude.list_beq
end_lost = (refl, refl)

-- The owner of a workspace, signed in, with the workspace in a cookie.
abbrev boss : WorkspaceMember
unfolding new_member units
boss = record (new_member (units "3") (pos 1) (units "boss") (units "7")) { role = some owner }

abbrev doors : GuardOutside ℕ
doors = record {
  session_user_id = pure (some (units "5"));
  find_user = λ id. pure id;
  find_workspace = λ id. pure (some (record { id = id }));
  find_member = λ user workspace. pure (some boss);
  permissions_of = λ m. pure [];
  decode_uri = λ s. ok s;
}

abbrev socket : Handshake
socket = record {
  auth_workspace_id = none;
  workspace_header = missing;
  cookie = some (units "a=b; workspace_id=7");
}

can_activate-AdmitsManager_example : AdmitsManager doors shop 4 socket 4
unfolding can_activate new_member kudeploy.Prelude.list_beq
can_activate-AdmitsManager_example = can_activate-AdmitsManager doors shop 4 socket 4 refl
