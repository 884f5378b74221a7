-- ===== src/Client/Connection/Monitor.antt =====
-- packages/client/src/connection/monitor.ts: `ConnectionMonitor`. Each method gives the monitor
-- that it leaves and the events that it emits, in order. Listeners are not called here: whoever
-- listens sees these events. What arrives from the extension, pushed, fetched or polled, and the
-- clock are arguments.
pub mod Runs
pub mod Following
use holo_web_conductor.Common.{
  ℕ, suc, ◌+◌, Bool, true, false, ◌&&◌, ◌||◌, not, Option, none, some, List, [], ◌∷◌, ◌++◌, Text,
  if◌then◌else◌, leb, ltb, or_else, codes, starts_with,
}
use holo_web_conductor.Client.Connection.Types.{
  ConnectionStatus, disconnected, connected, reconnecting, error, undefined, ConnectionState,
  ExtensionStatus, Event, change, failure, attempting, reconnected, status_eq, same_fields,
}

pub record Monitor : Type 0 where
  pub state : ConnectionState
  pub consecutive_failures : ℕ
  pub last_push_at : ℕ
  pub timer : Bool
  pub subscribed : Bool

-- The constructor
abbrev pub initial : Monitor
initial = record {
  state = record {
    status = disconnected;
    http_healthy = false;
    ws_healthy = false;
    authenticated = false;
    linker_url = undefined;
    last_error = none;
    reconnect_attempt = none;
    next_reconnect_ms = none;
    joining_service_error = none;
    peer_count = none;
  };
  consecutive_failures = 0;
  last_push_at = 0;
  timer = false;
  subscribed = false;
}

-- What a method gives.
abbrev pub Result : Type 0
Result = Monitor × List Event

-- `updateState`, with the whole new state.
unfoldable pub update_state : ConnectionState → Monitor → Result
update_state next m =
    (record m { state = next }, if same_fields m.state next then [] else change next ∷ [])

-- `emit` after an update
abbrev pub then_emit : Event → Result → Result
then_emit e (m, events) = (m, events ++ e ∷ [])

-- `start`, before its first check: nothing happens where a timer runs already.
unfoldable pub start : (has_api : Bool) → Monitor → Monitor
start has_api m =
    if m.timer then m else record m { timer = true; subscribed = has_api || m.subscribed }

-- `stop`
unfoldable pub stop : Monitor → Monitor
stop m = record m { timer = false; subscribed = false }

-- `reportCallSuccess`
unfoldable pub report_call_success : Monitor → Result
unfolding update_state
report_call_success m =
    let m' = record m { consecutive_failures = 0 } in
    if status_eq m.state.status reconnecting
    then then_emit reconnected (
        update_state
          (record m.state {
            status = connected;
            http_healthy = true;
            reconnect_attempt = none;
            next_reconnect_ms = none;
            last_error = none;
          })
          m')
    else if status_eq m.state.status connected
    then (m', [])
    else update_state (record m.state { status = connected; http_healthy = true }) m'

-- `message.includes(part)`
unfoldable pub includes : (part message : Text) → Bool
includes part [] = starts_with part []
includes part (c ∷ message) =
    let later = includes part message in starts_with part (c ∷ message) || later

unfoldable pub is_network_error : Text → Bool
is_network_error message =
    includes (codes "network") message
    || includes (codes "fetch") message
    || includes (codes "Failed to fetch") message
    || includes (codes "NetworkError") message
    || includes (codes "linker") message

abbrev pub max_failures_before_unhealthy : ℕ
max_failures_before_unhealthy = 1

-- `reportCallFailure`
unfoldable pub report_call_failure : Text → Monitor → Result
unfolding update_state
report_call_failure message m =
    let m' = record m { consecutive_failures = suc m.consecutive_failures } in
    if is_network_error message && leb max_failures_before_unhealthy m'.consecutive_failures
    then then_emit (failure message true) (
        update_state
          (record m.state { status = error; http_healthy = false; last_error = some message }) m')
    else (m', [])

-- `setReconnecting`
unfoldable pub set_reconnecting : (attempt delay_ms : ℕ) → Monitor → Result
unfolding update_state
set_reconnecting attempt delay_ms m = then_emit (attempting attempt delay_ms) (
    update_state
      (record m.state {
        status = reconnecting;
        reconnect_attempt = some attempt;
        next_reconnect_ms = some delay_ms;
      })
      m)

-- `setConnected`
unfoldable pub set_connected : Monitor → Result
unfolding update_state
set_connected m =
    update_state
      (record m.state {
        status = connected;
        http_healthy = true;
        ws_healthy = true;
        last_error = none;
        reconnect_attempt = none;
        next_reconnect_ms = none;
      })
      (record m { consecutive_failures = 0 })

-- `setDisconnected`
unfoldable pub set_disconnected : Option Text → Monitor → Result
unfolding update_state
set_disconnected message m =
    update_state
      (record m.state {
        status = disconnected;
        http_healthy = false;
        ws_healthy = false;
        last_error = message;
        peer_count = none;
      })
      m

-- `setJoiningServiceError`
unfoldable pub set_joining_service_error : Text → Monitor → Result
unfolding update_state
set_joining_service_error message m =
    update_state (record m.state { joining_service_error = some message }) m

-- `status.lastError || 'Linker connection lost'`; the empty text is false too.
abbrev pub error_or_lost : Option Text → Text
error_or_lost none = codes "Linker connection lost"
error_or_lost (some []) = codes "Linker connection lost"
error_or_lost (some (c ∷ message)) = c ∷ message

-- `extensionFields`, laid over the state.
abbrev pub with_extension_fields : ExtensionStatus → ConnectionState → ConnectionState
with_extension_fields s state = record state {
  http_healthy = s.http_healthy;
  ws_healthy = s.ws_healthy;
  authenticated = or_else s.authenticated false;
  linker_url = s.linker_url;
  last_error = s.last_error;
  peer_count = s.peer_count;
}

-- `applyExtensionStatus`
unfoldable pub apply_extension_status : (now : ℕ) → ExtensionStatus → Monitor → Result
unfolding update_state
apply_extension_status now s m =
    let m' = record m { last_push_at = now } in
    let next = with_extension_fields s m.state in
    let recovered = update_state (record next { status = connected }) m' in
    if m.state.http_healthy && not s.http_healthy
    then then_emit (failure (error_or_lost s.last_error) true)
        (update_state (record next { status = error }) m')
    else if not m.state.http_healthy && s.http_healthy
    then if status_eq m.state.status reconnecting
      then then_emit reconnected recovered
      else recovered
    else update_state next m'

abbrev pub push_staleness_ms : ℕ
push_staleness_ms = 15000

-- `checkHealth`: the answer is the extension's, or `none` where there is no interface to ask or
-- asking throws; `later` is the time of the answer.
unfoldable pub check_health : (now : ℕ) → Option ExtensionStatus → (later : ℕ) → Monitor → Result
unfolding apply_extension_status
check_health now none later m = (m, [])
check_health now (some s) later m =
    if ltb now (m.last_push_at + push_staleness_ms)
    then (m, [])
    else apply_extension_status later s m
