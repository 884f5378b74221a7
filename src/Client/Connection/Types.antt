-- ===== src/Client/Connection/Types.antt =====
-- packages/client/src/connection/types.ts: the status and the state of the connection, and the
-- events; with the comparisons by `!==` that the monitor makes.
use holo_web_conductor.Common.{
  ℕ, Bool, true, false, ◌&&◌, not, Option, none, some, Text, seq_eq, ◌==◌,
}

pub data ConnectionStatus : Type 0 where
  disconnected connecting connected reconnecting error : ConnectionStatus

-- The type `string | null | undefined` of `linkerUrl`.
pub data LinkerUrl : Type 0 where
  undefined null : LinkerUrl
  url : Text → LinkerUrl

pub record ConnectionState : Type 0 where
  pub status : ConnectionStatus
  pub http_healthy : Bool
  pub ws_healthy : Bool
  pub authenticated : Bool
  pub linker_url : LinkerUrl
  pub last_error : Option Text
  pub reconnect_attempt : Option ℕ
  pub next_reconnect_ms : Option ℕ
  pub joining_service_error : Option Text
  pub peer_count : Option ℕ

-- What the extension reports; `authenticated` may be missing.
pub record ExtensionStatus : Type 0 where
  pub http_healthy : Bool
  pub ws_healthy : Bool
  pub authenticated : Option Bool
  pub linker_url : LinkerUrl
  pub last_error : Option Text
  pub peer_count : Option ℕ

-- `ConnectionEventMap`
pub data Event : Type 0 where
  change : ConnectionState → Event
  failure : (message : Text) → (recoverable : Bool) → Event
  attempting : (attempt delay_ms : ℕ) → Event
  reconnected : Event

abbrev pub status_eq : ConnectionStatus → ConnectionStatus → Bool
status_eq disconnected disconnected = true
status_eq connecting connecting = true
status_eq connected connected = true
status_eq reconnecting reconnecting = true
status_eq error error = true
status_eq _ _ = false

abbrev pub bool_eq : Bool → Bool → Bool
bool_eq true b = b
bool_eq false b = not b

abbrev pub url_eq : LinkerUrl → LinkerUrl → Bool
url_eq undefined undefined = true
url_eq null null = true
url_eq (url a) (url b) = seq_eq a b
url_eq _ _ = false

abbrev pub text_eq : Option Text → Option Text → Bool
text_eq none none = true
text_eq (some a) (some b) = seq_eq a b
text_eq _ _ = false

abbrev pub nat_eq : Option ℕ → Option ℕ → Bool
nat_eq none none = true
nat_eq (some a) (some b) = a == b
nat_eq _ _ = false

-- No field differs that `updateState` compares; `nextReconnectMs` is not among them.
unfoldable pub same_fields : ConnectionState → ConnectionState → Bool
same_fields a b =
    status_eq a.status b.status
    && bool_eq a.http_healthy b.http_healthy
    && bool_eq a.ws_healthy b.ws_healthy
    && bool_eq a.authenticated b.authenticated
    && url_eq a.linker_url b.linker_url
    && text_eq a.last_error b.last_error
    && nat_eq a.reconnect_attempt b.reconnect_attempt
    && text_eq a.joining_service_error b.joining_service_error
    && nat_eq a.peer_count b.peer_count
