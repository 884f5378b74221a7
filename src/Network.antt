-- ===== src/Network.antt =====
-- packages/core/src/network: the in-memory cache of network data, the connection to the linker, and
-- the order in which data is read.
pub mod Types
pub mod Cache
pub mod WebSocket
pub mod Cascade
pub mod AgentInfo
mod Examples
