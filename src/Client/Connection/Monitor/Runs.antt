-- ===== src/Client/Connection/Monitor/Runs.antt =====
-- The monitor over any sequence of calls: what the status says of the connection, and when the
-- events are emitted.
use holo_web_conductor.Common.{
  ℕ, ◌≡◌, refl, Bool, true, false, ◌&&◌, ◌||◌, not, Option, none, some, List, [], ◌∷◌, ◌++◌, Text,
  arith, or_else, any,
}
use holo_web_conductor.Client.Connection.Types.{
  ConnectionStatus, connected, reconnecting, error, ExtensionStatus, Event, failure, reconnected,
  status_eq,
}
use holo_web_conductor.Client.Connection.Monitor.{
  Monitor, Result, update_state, start, stop, report_call_success, report_call_failure,
  set_reconnecting, set_connected, set_disconnected, set_joining_service_error,
  apply_extension_status, check_health,
}

-- The calls of the monitor's methods, with what each meets outside.
pub data Call : Type 0 where
  started : (has_api : Bool) → Call
  stopped : Call
  succeeded : Call
  failed : Text → Call
  tries : (attempt delay_ms : ℕ) → Call
  connects : Call
  disconnects : Option Text → Call
  refused : Text → Call
  pushed : (now : ℕ) → ExtensionStatus → Call
  checked : (now : ℕ) → Option ExtensionStatus → (later : ℕ) → Call

unfoldable pub step : Call → Monitor → Result
step (started has_api) m = (start has_api m, [])
step stopped m = (stop m, [])
step succeeded m = report_call_success m
step (failed message) m = report_call_failure message m
step (tries attempt delay_ms) m = set_reconnecting attempt delay_ms m
step connects m = set_connected m
step (disconnects message) m = set_disconnected message m
step (refused message) m = set_joining_service_error message m
step (pushed now s) m = apply_extension_status now s m
step (checked now answer later) m = check_health now answer later m

unfoldable pub run : List Call → Monitor → Result
unfolding step
run [] m = (m, [])
run (call ∷ calls) m =
    let (m', events) = step call m in let (m'', more) = run calls m' in (m'', events ++ more)

-- A connected monitor holds its HTTP endpoint for healthy.
abbrev pub IsHealthy : Monitor → Type 0
IsHealthy m = not (status_eq m.state.status connected) || m.state.http_healthy ≡ true

step-IsHealthy : (call : Call) (m : Monitor) → IsHealthy m → IsHealthy (step call m).0
unfolding step start stop report_call_success report_call_failure set_reconnecting set_connected
    set_disconnected set_joining_service_error apply_extension_status check_health update_state
step-IsHealthy (started has_api) m h = ground arith
step-IsHealthy stopped m h = h
step-IsHealthy succeeded m h = ground arith
step-IsHealthy (failed message) m h = ground arith
step-IsHealthy (tries attempt delay_ms) m h = refl
step-IsHealthy connects m h = refl
step-IsHealthy (disconnects message) m h = refl
step-IsHealthy (refused message) m h = h
step-IsHealthy (pushed now s) m h = ground arith
step-IsHealthy (checked now none later) m h = h
step-IsHealthy (checked now (some s) later) m h = ground arith

-- Over any calls, a monitor whose status is connected holds the HTTP endpoint for healthy, where
-- it did so before.
pub run-IsHealthy : (calls : List Call) (m : Monitor) → IsHealthy m → IsHealthy (run calls m).0
unfolding run
run-IsHealthy [] m h = h
run-IsHealthy (call ∷ calls) m h = run-IsHealthy calls (step call m).0 (step-IsHealthy call m h)

abbrev pub is_reconnected : Event → Bool
is_reconnected reconnected = true
is_reconnected _ = false

abbrev pub is_failure : Event → Bool
is_failure (failure message recoverable) = true
is_failure _ = false

-- `connection:reconnected` is emitted only by a call that finds the monitor reconnecting and leaves
-- it connected, and `connection:error` only by one that leaves it in error with its HTTP endpoint
-- unhealthy.
pub step-events :
    (call : Call) (m : Monitor)
    → let (m', events) = step call m in
      (not (any is_reconnected events)
          || (status_eq m.state.status reconnecting && status_eq m'.state.status connected)
        ≡ true)
      × (not (any is_failure events)
            || (status_eq m'.state.status error && not m'.state.http_healthy)
          ≡ true)
unfolding step report_call_success report_call_failure set_reconnecting set_connected
    set_disconnected set_joining_service_error apply_extension_status check_health update_state
step-events (started has_api) m = (refl, refl)
step-events stopped m = (refl, refl)
step-events succeeded m = ground arith
step-events (failed message) m = ground arith
step-events (tries attempt delay_ms) m = ground arith
step-events connects m = ground arith
step-events (disconnects message) m = ground arith
step-events (refused message) m = ground arith
step-events (pushed now s) m = ground arith
step-events (checked now none later) m = (refl, refl)
step-events (checked now (some s) later) m = ground arith

-- The status after a report of the extension: an endpoint that was lost is an error, one that came
-- back is a connection, and otherwise the status stays.
abbrev pub status_after : (was is : Bool) → ConnectionStatus → ConnectionStatus
status_after true false status = error
status_after false true status = connected
status_after true true status = status
status_after false false status = status

-- A report of the extension overwrites just the fields that are the extension's, sets the status
-- by whether the HTTP endpoint was lost or came back, and leaves the attempts at reconnecting, the
-- joining service's error and the count of failures as they were.
pub apply_extension_status_lem :
    (now : ℕ) (s : ExtensionStatus) (m : Monitor)
    → (apply_extension_status now s m).0 ≡ record m {
      last_push_at = now;
      state = record {
        status = status_after m.state.http_healthy s.http_healthy m.state.status;
        http_healthy = s.http_healthy;
        ws_healthy = s.ws_healthy;
        authenticated = or_else s.authenticated false;
        linker_url = s.linker_url;
        last_error = s.last_error;
        reconnect_attempt = m.state.reconnect_attempt;
        next_reconnect_ms = m.state.next_reconnect_ms;
        joining_service_error = m.state.joining_service_error;
        peer_count = s.peer_count;
      };
    }
unfolding apply_extension_status update_state
apply_extension_status_lem now s m = ground arith
