-- ===== src/Chain/Call/Atomic.antt =====
-- A zome call is atomic: it changes everything that it means to, or nothing.
use holo_web_conductor.Common.{◌≡◌, false, Option, none, some, List, [], ◌∷◌, or_else}
use holo_web_conductor.Network.Cache.NetworkCache.{NetworkCache}
use holo_web_conductor.Chain.Storage.Tables.{Db, DirectSqliteStorage}
use holo_web_conductor.Chain.Hash.{Crypto}
use holo_web_conductor.Chain.HostFunctions.{World, PendingRecord}
use holo_web_conductor.Chain.Genesis.{initialize_genesis}
use holo_web_conductor.Chain.Call.{
  Guest, Ended, ok, ZomeCallRequest, Conductor, ZomeCallResult, returned, rejected, run_guest,
  apply_cache_ops,
}

-- No transaction is open.
abbrev pub idle : Db → DirectSqliteStorage
idle db = record { db = db; saved = none; in_transaction = false }

abbrev pub at_rest : {Details : Type 0} → Db → NetworkCache Details → Conductor Details
at_rest db cache = record { storage = idle db; cache = cache }

module _ (crypto : Crypto) where
  -- The tables that a call finds after genesis.
  unfoldable pub genesis_db : ZomeCallRequest → Db → Db
  genesis_db r db = (initialize_genesis crypto r.genesis_time r.dna_hash r.agent_pub_key none db).1

  -- The tables where the guest has left the world, and `post_commit`, if there is one and records
  -- were made, has run after it.
  abbrev pub left_by : Option (List PendingRecord → Guest) → List PendingRecord → World → Db
  left_by none records w = w.db
  left_by (some post) [] w = w.db
  left_by (some post) (r ∷ records) w = (run_guest crypto (post (r ∷ records)) w).1.db

  module _ {Details : Type 0} where
    -- How a call ends that starts from these tables and this cache: if it is rejected, they are
    -- as they were; if it returns, the zome function has returned the value, the tables are those
    -- that it has left, and `post_commit` after it, no transaction is open, and the cache has the
    -- pending operations applied to it.
    unfoldable pub Settled :
        Option (List PendingRecord → Guest)
        → Ended × World
        → Db
        → NetworkCache Details
        → ZomeCallResult × Conductor Details
        → Type 0
    Settled post end db cache (rejected, c) = c ≡ at_rest db cache
    Settled post end db cache (returned value records, c) =
        (end.0 ≡ ok value)
        × (c.storage ≡ idle (left_by post records end.1))
        × (c.cache ≡ apply_cache_ops crypto (or_else end.1.context.pending_cache_ops []) cache)
