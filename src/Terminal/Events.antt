-- ===== src/Terminal/Events.antt =====
-- Timers, the callback of the shell, and what a client types (service-terminal.gateway.ts).
use kudeploy.Prelude.{
  ℕ, Bool, true, false, not, ◌||◌, Option, none, some, [], ◌∷◌, ◌++◌, Text, nat_eq, list_eq,
  or_else, if◌then◌else◌,
}
use kudeploy.Prelude.Int.{ℤ}
use kudeploy.Terminal.State.{
  Call, Gateway, Message, Stage, TerminalStatus, close_session, data_message, emit, ended,
  error_message, is_failure_status, is_positive_integer, no_interactive_shell, put_call, running,
}

abbrev pub resolved : Option TerminalStatus → Call → Call
resolved status x = record x { startup = some (or_else x.startup status) }

-- the timer of the startup
unfoldable pub startup_timed_out : ℕ → Gateway → Gateway
startup_timed_out p g = put_call p (resolved none (g.calls p)) g

abbrev pub is_running : Stage → Bool
is_running running = true
is_running _ = false

unfoldable pub end_message : TerminalStatus → Message
unfolding is_failure_status
end_message status =
    if is_failure_status (some status)
    then error_message (or_else status.message no_interactive_shell)
    else ended

-- the callback of `exec`
unfoldable pub on_status : ℕ → TerminalStatus → Gateway → Gateway
unfolding close_session end_message
on_status p status g =
    let x = g.calls p in
    let settled = put_call p (resolved (some status) x) g in
    let closing = close_session x.client (some p) (emit x.client (end_message status) settled) in
    if not (is_running x.stage) || x.closed then settled else closing

abbrev pub written : Option ℕ → Option Text → Gateway → Gateway
written (some p) (some text) g =
    let x = g.calls p in put_call p (record x { stdin = x.stdin ++ (text ∷ []) }) g
written _ _ g = g

unfoldable pub handle_data : Text → Option Text → Gateway → Gateway
handle_data client text g = written (g.sessions client) text g

abbrev pub resized : Option ℕ → Option ℕ → Option ℕ → Gateway → Gateway
resized (some p) (some columns) (some rows) g =
    put_call p (record (g.calls p) { columns = columns; rows = rows }) g
resized _ _ _ g = g

unfoldable pub handle_resize : Text → Option ℤ → Option ℤ → Gateway → Gateway
unfolding is_positive_integer
handle_resize client columns rows g =
    resized (g.sessions client) (is_positive_integer columns) (is_positive_integer rows) g

-- `_write` of the stream that the shell writes to
unfoldable pub output_written : ℕ → Text → Gateway → Gateway
output_written p chunk g = emit (g.calls p).client (data_message chunk) g
