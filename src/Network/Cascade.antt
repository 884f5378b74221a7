-- ===== src/Network/Cascade.antt =====
-- packages/core/src/network/cascade.ts: `Cascade`, which reads the agent's own data first, then the
-- cache, then the network.
pub mod Sources
pub mod Values
pub mod Fetch
pub mod Errors
pub mod Local
pub mod Merging
pub mod Hits
pub mod Again
