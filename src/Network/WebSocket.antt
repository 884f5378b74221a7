-- ===== src/Network/WebSocket.antt =====
-- packages/core/src/network/websocket-service.ts: the connection to the linker by a websocket.
pub mod Messages
pub mod Service
pub mod Handlers
pub mod Steps
pub mod Registrations
pub mod Steady
pub mod Health
pub mod Wire
pub mod Connecting
pub mod Quiet
pub mod Telling
pub mod Sent
pub mod Again
mod Examples
