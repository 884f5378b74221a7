-- ===== src/Network/WebSocket/Steps.antt =====
-- The service among its callers, the linker and its timers: any sequence of calls and events.
use holo_web_conductor.Common.{
  ℕ, Bool, true, false, not, Option, some, List, [], ◌∷◌, Text, is_some, ◌≡◌,
}
use holo_web_conductor.Network.WebSocket.Messages.{
  Registration, RemoteSignal, Signed, ServerMessage, Ready, opening, is_open, closing, Options,
  auth_challenge_response, sign_response,
}
use holo_web_conductor.Network.WebSocket.Service.{
  Service, Handler, opened, send, connect, disconnect, register_agent, unregister_agent,
  send_remote_signals,
}
use holo_web_conductor.Network.WebSocket.Handlers.{
  handle_open, handle_message, handle_close, reconnect_fires, heartbeat_fires, heartbeat_times_out,
  ping_for_peer_count, ping_times_out,
}

pub data Event : Type 0 where
  connects : (made : Bool) → Event
  disconnects : Event
  registers unregisters : Registration → Event
  signals : Text → List RemoteSignal → Event
  sets_callbacks : (signal sign : Bool) → Event
  asks_peers asks_peers_in_vain : (call : ℕ) → Event
  socket_opens socket_closes : Event
  receives : ServerMessage → Event
  reconnects : (made : Bool) → Event
  heartbeat heartbeat_timeout : Event
  challenge_signed : (sig : Text) → Event
  info_signed : (request_id : Text) → Signed → Event

unfoldable pub step : Options → Event → Handler
step o (connects made) s = connect o made s
step o disconnects s = disconnect s
step o (registers r) s = register_agent r s
step o (unregisters r) s = unregister_agent r s
step o (signals dna xs) s = send_remote_signals dna xs s
step o (sets_callbacks signal sign) s =
    (record s { has_signal_callback = signal; has_sign_callback = sign }, [])
step o (asks_peers call) s = ping_for_peer_count call s
step o (asks_peers_in_vain call) s = ping_times_out call s
step o socket_opens s = handle_open (record s { ws = some is_open })
step o socket_closes s = handle_close o (record s { ws = some closing })
step o (receives m) s = handle_message m s
step o (reconnects made) s = reconnect_fires o made s
step o heartbeat s = heartbeat_fires s
step o heartbeat_timeout s = heartbeat_times_out s
step o (challenge_signed sig) s = send (auth_challenge_response sig) s
step o (info_signed id answer) s = send (sign_response id answer) s

abbrev pub ready_to_open : Option Ready → Bool
ready_to_open (some opening) = true
ready_to_open _ = false

-- When an event can come: a socket opens once and speaks only while it is open, and a timer fires
-- only if it is set. A caller can connect, disconnect and register at any time.
abbrev pub possible : Event → Service → Bool
possible socket_opens s = ready_to_open s.ws
possible socket_closes s = is_some s.ws
possible (receives m) s = opened s.ws
possible (reconnects made) s = s.reconnect_timer
possible heartbeat s = s.heartbeat_timer
possible _ s = true

-- The service after some events, the last of them first.
unfoldable pub run : Options → List Event → Service → Service
unfolding step
run o [] s = s
run o (e ∷ es) s = (step o e (run o es s)).0

-- Each event is possible where it comes.
abbrev pub Possible : Options → List Event → Service → Type 0
Possible o [] s = Unit
Possible o (e ∷ es) s = (possible e (run o es s) ≡ true) × Possible o es s

-- Where a caller connects, no reconnect timer is set. Nothing in the service sees to that:
-- `connect` goes on while the timer is set, and the timer then makes a second socket.
abbrev pub connects_apart : Event → Service → Bool
connects_apart (connects made) s = not s.reconnect_timer
connects_apart _ s = true

-- No caller connects while a reconnect timer is set.
abbrev pub Apart : Options → List Event → Service → Type 0
Apart o [] s = Unit
Apart o (e ∷ es) s = (connects_apart e (run o es s) ≡ true) × Apart o es s
