-- ===== src/Chain.antt =====
-- The source chain of a cell: packages/core/src/storage, packages/core/src/ribosome, and the
-- storage class of packages/extension/src/offscreen/ribosome-worker.ts.
pub mod Types
pub mod Storage
pub mod Hash
pub mod Linked
pub mod Genesis
pub mod HostFunctions
pub mod Records
pub mod Validation
pub mod Activity
pub mod Call
mod Examples
