-- ===== src/Dht.antt =====
-- packages/core/src/dht: from a record of the source chain to operations on the DHT, and the
-- tracking and publishing of those operations.
pub mod OpTypes
pub mod Produce
pub mod Tracker
pub mod Publish
pub mod Retry
mod Examples
