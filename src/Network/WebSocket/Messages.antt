-- ===== src/Network/WebSocket/Messages.antt =====
-- packages/core/src/network/websocket-service.ts: the messages, the states and the options.
use holo_web_conductor.Common.{ℕ, Bool, true, false, ◌&&◌, Option, Text, List, Bytes, seq_eq}

-- `ConnectionState`
pub data ConnectionState : Type 0 where
  disconnected connecting authenticating connected reconnecting : ConnectionState

abbrev pub state_eq : ConnectionState → ConnectionState → Bool
state_eq disconnected disconnected = true
state_eq connecting connecting = true
state_eq authenticating authenticating = true
state_eq connected connected = true
state_eq reconnecting reconnecting = true
state_eq _ _ = false

-- `AgentRegistration`
pub record Registration : Type 0 where
  pub dna_hash : Text
  pub agent_pubkey : Text

-- The test that the loops write out.
abbrev pub reg_eq : Registration → Registration → Bool
reg_eq a b = seq_eq a.dna_hash b.dna_hash && seq_eq a.agent_pubkey b.agent_pubkey

-- `SignedRemoteSignalTransport`
pub record RemoteSignal : Type 0 where
  pub target_agent : Bytes
  pub zome_call_params : Bytes
  pub signature : Bytes

-- What a `sign_response` holds: a signature or an error.
pub data Signed : Type 0 where
  signature : Text → Signed
  refusal : Text → Signed

-- `ClientMessage`
pub data ClientMessage : Type 0 where
  auth : (agent_pubkey : Text) → ClientMessage
  auth_challenge_response : (sig : Text) → ClientMessage
  register : Registration → ClientMessage
  unregister : Registration → ClientMessage
  ping : ClientMessage
  sign_response : (request_id : Text) → Signed → ClientMessage
  send_remote_signal : (dna_hash : Text) → List RemoteSignal → ClientMessage

-- `ServerMessage`, as it comes out of `JSON.parse`; `unreadable` is any text that does not parse
-- or has another type, and a signal whose payload does not decode.
pub data ServerMessage : Type 0 where
  auth_ok : (session_token : Option Text) → ServerMessage
  auth_challenge : (challenge : Text) → ServerMessage
  auth_error : (message : Text) → ServerMessage
  registered unregistered : Registration → ServerMessage
  remote_signal : (dna_hash to_agent from_agent zome_name payload : Text) → ServerMessage
  pong : (peer_count : Option ℕ) → ServerMessage
  server_error : (message : Text) → ServerMessage
  sign_agent_info : (request_id agent_pubkey : Text) (invalid : Option Text) → ServerMessage
  unreadable : ServerMessage

-- `readyState` of the socket that the service holds.
pub data Ready : Type 0 where
  opening is_open closing : Ready

-- What a handler does outside of the service.
pub data Output : Type 0 where
  sends : ClientMessage → Output
  tells_state : ConnectionState → Output
  tells_token : Text → Output
  tells_signal : (dna_hash to_agent from_agent zome_name payload : Text) → Output
  asks_challenge : (agent_pubkey challenge : Text) → Output
  asks_signature : (request_id agent_pubkey : Text) → Output
  tells_peers : (call : ℕ) (peer_count : Option ℕ) → Output
  closes : Output

-- `Required<WebSocketServiceOptions>`; no maximum stands for Infinity.
pub record Options : Type 0 where
  pub reconnect_base_delay : ℕ
  pub reconnect_max_delay : ℕ
  pub max_reconnect_attempts : Option ℕ
