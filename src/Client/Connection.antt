-- ===== src/Client/Connection.antt =====
-- packages/client/src/connection: the health of the connection and the attempts to reconnect.
pub mod Types
pub mod Monitor
pub mod Reconnect
