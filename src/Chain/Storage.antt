-- ===== src/Chain/Storage.antt =====
-- `DirectSQLiteStorage` of packages/extension/src/offscreen/ribosome-worker.ts over the tables of
-- packages/core/src/storage/sqlite-schema.ts. A table is the list of its rows, oldest first, which
-- is the order that a query without ORDER BY reads them in; the table of heads, whose order is
-- never seen, is a map from the text that `getCellId` gives.
pub mod Tables
pub mod Queries
pub mod Details
pub mod Links
