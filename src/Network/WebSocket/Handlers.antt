-- ===== src/Network/WebSocket/Handlers.antt =====
-- packages/core/src/network/websocket-service.ts: what `WebSocketNetworkService` does on events: an
-- opened or closed socket, a message, a timer, an answer of a callback.
use holo_web_conductor.Common.{
  ℕ, Bool, true, false, Option, none, some, [], ◌∷◌, ◌++◌, Text, if◌then◌else◌, is_some, map, codes,
}
use holo_web_conductor.Network.WebSocket.Messages.{
  disconnected, connected, refusal, auth_challenge_response, register, ping, sign_response,
  ServerMessage, auth_ok, auth_challenge, auth_error, registered, unregistered, remote_signal, pong,
  server_error, sign_agent_info, unreadable, closing, sends, tells_token, tells_signal,
  asks_challenge, asks_signature, tells_peers, closes, Options,
}
use holo_web_conductor.Network.WebSocket.Service.{
  Service, Handler, ◌>>◌, change, opened, is_connected, set_state, send, cleanup,
  schedule_reconnect, connect, non_empty, try_authenticate_next_agent,
}

-- `handleOpen`; the heartbeat's interval is started.
unfoldable pub handle_open : Handler
unfolding try_authenticate_next_agent
handle_open =
    change (λ t. record t {
      reconnect_attempts = 0;
      failed_auth_agents = [];
      heartbeat_timer = true;
      heartbeat_timeout_timer = false;
    })
    >> try_authenticate_next_agent

-- `processPendingRegistrations`: each is sent and moved.
unfoldable pub process_pending_registrations : Handler
process_pending_registrations s = (
  record s {
    registrations = s.registrations ++ s.pending_registrations;
    pending_registrations = [];
  },
  if opened s.ws then map (λ r. sends (register r)) s.pending_registrations else [],
)

abbrev pub take_token : Option Text → Handler
take_token (some (c ∷ cs)) s = (record s { session_token = c ∷ cs }, tells_token (c ∷ cs) ∷ [])
take_token _ s = (s, [])

-- `handleAuthOk`
unfoldable pub handle_auth_ok : Option Text → Handler
unfolding set_state process_pending_registrations
handle_auth_ok token =
    change (λ t. record t { authenticated = true; pending_auth_agent = none })
    >> take_token token
    >> set_state connected
    >> process_pending_registrations

-- `if (this.pendingAuthAgent)`
abbrev pub pending_agent : Service → Option Text
pending_agent s = non_empty s.pending_auth_agent

-- `handleAuthError`
unfoldable pub handle_auth_error : Handler
unfolding set_state try_authenticate_next_agent
handle_auth_error s =
    let s' = record s { authenticated = false } in
    elim (pending_agent s) [
      | none ↦ set_state connected s'
      | some a ↦
          (try_authenticate_next_agent
              >> (λ t. if is_some (pending_agent t) then (t, []) else set_state connected t))
            (record s' {
              failed_auth_agents = s.failed_auth_agents ++ a ∷ [];
              pending_auth_agent = none;
            })
    ]

-- `handleAuthChallenge` up to its await.
unfoldable pub handle_auth_challenge : Text → Handler
unfolding send
handle_auth_challenge challenge s = elim (pending_agent s) [
  | none ↦ (s, [])
  | some a ↦
      if s.has_sign_callback
      then (s, asks_challenge a challenge ∷ [])
      else send (auth_challenge_response []) s
]

-- `handlePong`
unfoldable pub handle_pong : Option ℕ → Handler
handle_pong count s = (
  record s {
    heartbeat_timeout_timer = false;
    last_peer_count = elim count [ none ↦ s.last_peer_count | some n ↦ some n ];
    peer_count_resolve = none;
  },
  elim s.peer_count_resolve [ none ↦ [] | some call ↦ tells_peers call count ∷ [] ],
)

-- `handleSignAgentInfo` up to the callback's answer.
unfoldable pub handle_sign_agent_info : Text → Text → Option Text → Handler
unfolding send
handle_sign_agent_info id agent invalid s =
    if s.has_sign_callback
    then elim invalid [
      | none ↦ (s, asks_signature id agent ∷ [])
      | some message ↦
          send (sign_response id (refusal (codes "Agent info validation failed: " ++ message))) s
    ]
    else send (sign_response id (refusal (codes "No sign callback registered"))) s

-- `handleMessage`
unfoldable pub handle_message : ServerMessage → Handler
unfolding handle_auth_ok handle_auth_error handle_auth_challenge handle_pong handle_sign_agent_info
handle_message (auth_ok token) s = handle_auth_ok token s
handle_message (auth_challenge challenge) s = handle_auth_challenge challenge s
handle_message (auth_error message) s = handle_auth_error s
handle_message (registered r) s = (s, [])
handle_message (unregistered r) s = (s, [])
handle_message (remote_signal dna to from zome payload) s =
    (s, if s.has_signal_callback then tells_signal dna to from zome payload ∷ [] else [])
handle_message (pong count) s = handle_pong count s
handle_message (server_error message) s = (s, [])
handle_message (sign_agent_info id agent invalid) s = handle_sign_agent_info id agent invalid s
handle_message unreadable s = (s, [])

-- `handleClose`
unfoldable pub handle_close : Options → Handler
unfolding cleanup schedule_reconnect set_state
handle_close o =
    cleanup
    >> change (λ t. record t {
      pending_registrations = t.pending_registrations ++ t.registrations;
      registrations = [];
    })
    >> (λ t. if t.intentional_close then set_state disconnected t else schedule_reconnect o t)

-- The reconnect timer fires.
unfoldable pub reconnect_fires : Options → (made : Bool) → Handler
unfolding connect
reconnect_fires o made =
    change (λ t. record t { reconnect_timer = false; ws = none }) >> connect o made

-- The heartbeat's interval fires.
unfoldable pub heartbeat_fires : Handler
unfolding send
heartbeat_fires s =
    if opened s.ws
    then (send ping >> change (λ t. record t { heartbeat_timeout_timer = true })) s
    else (s, [])

-- A timeout of the heartbeat fires: the socket, if there is one, is asked to close.
unfoldable pub heartbeat_times_out : Handler
heartbeat_times_out s =
    if is_some s.ws then (record s { ws = some closing }, closes ∷ []) else (s, [])

-- `pingForPeerCount`; `call` names the call whose promise is resolved.
unfoldable pub ping_for_peer_count : (call : ℕ) → Handler
unfolding send
ping_for_peer_count call s =
    if is_connected s
    then (change (λ t. record t { peer_count_resolve = some call }) >> send ping) s
    else (s, tells_peers call none ∷ [])

-- The timer of a call of `pingForPeerCount` fires.
unfoldable pub ping_times_out : (call : ℕ) → Handler
ping_times_out call s =
    (record s { peer_count_resolve = none }, tells_peers call s.last_peer_count ∷ [])
