-- ===== src/Network/WebSocket/Service.antt =====
-- packages/core/src/network/websocket-service.ts: `WebSocketNetworkService`. Each handler gives the
-- service that it leaves and what it does outside, in order. The answers of the callbacks come back
-- as calls of their own, with the base64 text that is to be sent; a sign request comes with what
-- `validateAgentInfo` found.
use holo_web_conductor.Common.{
  ℕ, suc, ◌*◌, ◌^◌, min, Bool, true, false, not, ◌&&◌, ◌||◌, Option, none, some, List, [], ◌∷◌,
  ◌++◌, Text, if◌then◌else◌, leb, is_some, keep, any, find, map, seq_eq,
}
use holo_web_conductor.Network.WebSocket.Messages.{
  ConnectionState, disconnected, connecting, authenticating, connected, reconnecting, state_eq,
  Registration, reg_eq, RemoteSignal, ClientMessage, auth, register, unregister, send_remote_signal,
  Ready, opening, is_open, Output, sends, tells_state, closes, Options,
}

pub record Service : Type 0 where
  pub ws : Option Ready
  pub state : ConnectionState
  pub registrations : List Registration
  pub pending_registrations : List Registration
  pub has_signal_callback : Bool
  pub has_sign_callback : Bool
  pub heartbeat_timer : Bool
  pub heartbeat_timeout_timer : Bool
  pub reconnect_timer : Bool
  pub reconnect_attempts : ℕ
  pub authenticated : Bool
  pub intentional_close : Bool
  pub pending_auth_agent : Option Text
  pub failed_auth_agents : List Text
  pub session_token : Text
  pub last_peer_count : Option ℕ
  pub prev_authenticated : Bool
  pub peer_count_resolve : Option ℕ

-- A new service.
abbrev pub new_service : Service
new_service = record {
  ws = none;
  state = disconnected;
  registrations = [];
  pending_registrations = [];
  has_signal_callback = false;
  has_sign_callback = false;
  heartbeat_timer = false;
  heartbeat_timeout_timer = false;
  reconnect_timer = false;
  reconnect_attempts = 0;
  authenticated = false;
  intentional_close = false;
  pending_auth_agent = none;
  failed_auth_agents = [];
  session_token = [];
  last_peer_count = none;
  prev_authenticated = false;
  peer_count_resolve = none;
}

abbrev pub Handler : Type 0
Handler = Service → Service × List Output

-- One handler, then another.
infixl 5 ◌>>◌
abbrev pub ◌>>◌ : Handler → Handler → Handler
(h >> k) s = let (s1, o1) = h s in let (s2, o2) = k s1 in (s2, o1 ++ o2)

abbrev pub change : (Service → Service) → Handler
change f s = (f s, [])

abbrev pub opened : Option Ready → Bool
opened (some is_open) = true
opened _ = false

-- `isConnected`
abbrev pub is_connected : Service → Bool
is_connected s = state_eq s.state connected && s.authenticated

abbrev pub bool_eq : Bool → Bool → Bool
bool_eq true b = b
bool_eq false b = not b

-- `setState`
unfoldable pub set_state : ConnectionState → Handler
set_state next s =
    if not (state_eq s.state next) || not (bool_eq s.authenticated s.prev_authenticated)
    then (record s { state = next; prev_authenticated = s.authenticated }, tells_state next ∷ [])
    else (s, [])

-- `send`
unfoldable pub send : ClientMessage → Handler
send m s = (s, if opened s.ws then sends m ∷ [] else [])

abbrev pub close_socket : Option Ready → List Output
close_socket (some opening) = closes ∷ []
close_socket (some is_open) = closes ∷ []
close_socket _ = []

-- `cleanup`; the handlers of the socket are taken off, so that its close is not seen.
unfoldable pub cleanup : Handler
cleanup s = (
  record s {
    heartbeat_timer = false;
    heartbeat_timeout_timer = false;
    reconnect_timer = false;
    ws = none;
    authenticated = false;
    failed_auth_agents = [];
    last_peer_count = none;
  },
  close_socket s.ws,
)

abbrev pub exhausted : Options → ℕ → Bool
exhausted o attempts = elim o.max_reconnect_attempts [ none ↦ false | some n ↦ leb n attempts ]

-- `scheduleReconnect`, without the delay.
unfoldable pub schedule_reconnect : Options → Handler
unfolding set_state
schedule_reconnect o s =
    if s.reconnect_timer
    then (s, [])
    else if exhausted o s.reconnect_attempts
    then set_state disconnected s
    else (set_state reconnecting
          >> change (λ t. record t {
            reconnect_attempts = suc t.reconnect_attempts;
            reconnect_timer = true;
          }))
        s

-- The delay of an attempt before the jitter.
unfoldable pub reconnect_delay : Options → ℕ → ℕ
reconnect_delay o attempts = min (o.reconnect_base_delay * 2 ^ attempts) o.reconnect_max_delay

-- `connect`; `made` says whether the socket could be made.
unfoldable pub connect : Options → (made : Bool) → Handler
unfolding set_state schedule_reconnect
connect o made s =
    if is_some s.ws
    then (s, [])
    else (change (λ t. record t { intentional_close = false })
          >> set_state connecting
          >> (λ t. if made then (record t { ws = some opening }, []) else schedule_reconnect o t))
        s

-- `disconnect`
unfoldable pub disconnect : Handler
unfolding cleanup set_state
disconnect =
    change (λ t. record t { intentional_close = true }) >> cleanup >> set_state disconnected

-- `authenticate`
unfoldable pub authenticate : Text → Handler
unfolding set_state send
authenticate agent =
    change (λ t. record t { pending_auth_agent = some agent })
    >> set_state authenticating
    >> send (auth agent)

abbrev pub tracked : Registration → Service → Bool
tracked r s = any (λ q. reg_eq q r) s.registrations || any (λ q. reg_eq q r) s.pending_registrations

-- `registerAgent`
unfoldable pub register_agent : Registration → Handler
unfolding send authenticate
register_agent r s =
    if is_connected s
    then (send (register r)
          >> change (λ t.
            if tracked r s then t else record t { registrations = t.registrations ++ r ∷ [] }))
        s
    else (change (λ t.
            if tracked r s
            then t
            else record t { pending_registrations = t.pending_registrations ++ r ∷ [] })
          >> (λ t.
              if opened t.ws && not t.authenticated && not (state_eq t.state authenticating)
              then authenticate r.agent_pubkey t
              else (t, [])))
        s

abbrev pub without : Registration → List Registration → List Registration
without r = keep (λ q. not (reg_eq q r))

-- `unregisterAgent`
unfoldable pub unregister_agent : Registration → Handler
unfolding send
unregister_agent r =
    change (λ t. record t {
      registrations = without r t.registrations;
      pending_registrations = without r t.pending_registrations;
    })
    >> (λ t. if is_connected t then send (unregister r) t else (t, []))

-- `sendRemoteSignals`
unfoldable pub send_remote_signals : Text → List RemoteSignal → Handler
unfolding send
send_remote_signals dna [] s = (s, [])
send_remote_signals dna (x ∷ xs) s =
    if is_connected s then send (send_remote_signal dna (x ∷ xs)) s else (s, [])

-- The first agent, of the pending registrations and then of the others, that has not failed. An
-- empty name counts as none.
abbrev pub agents : Service → List Text
agents s = map (λ r. r.agent_pubkey) (s.pending_registrations ++ s.registrations)

abbrev pub non_empty : Option Text → Option Text
non_empty (some (c ∷ cs)) = some (c ∷ cs)
non_empty _ = none

unfoldable pub next_agent : Service → Option Text
next_agent s = non_empty (find (λ a. not (any (λ f. seq_eq f a) s.failed_auth_agents)) (agents s))

-- `tryAuthenticateNextAgent`
unfoldable pub try_authenticate_next_agent : Handler
unfolding authenticate next_agent
try_authenticate_next_agent s = elim (next_agent s) [ none ↦ (s, []) | some a ↦ authenticate a s ]
