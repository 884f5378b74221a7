-- ===== src/Network/Cache.antt =====
-- packages/core/src/network/cache.ts
pub mod Lru
pub mod Records
pub mod Ttl
pub mod NetworkCache
mod Examples
