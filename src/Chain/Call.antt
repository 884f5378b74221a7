-- ===== src/Chain/Call.antt =====
-- `callZome` of packages/core/src/ribosome/index.ts with `call` of
-- packages/core/src/ribosome/host-fn/call.ts: a call of a zome function. The code of a zome is a
-- tree of what it asks of its host. Signals and measurements are left out, and so is what reads
-- add to the network cache. `buildRecords` and `signAction` do not throw here, and a validation
-- callback asks nothing of the host that writes.
pub mod Runs
pub mod Published
pub mod Atomic
use holo_web_conductor.Common.{
  ℕ, Bool, true, false, Option, none, some, List, [], ◌∷◌, ◌++◌, Bytes, if◌then◌else◌, or_else,
}
use holo_web_conductor.Network.Cache.NetworkCache.{
  NetworkCache, merge_link_into_cache, remove_link_from_cache, merge_link_detail_into_cache,
  add_delete_to_link_details_cache,
}
use holo_web_conductor.Chain.Storage.Tables.{
  Db, DirectSqliteStorage, begin_transaction, commit_transaction, rollback_transaction,
  is_transaction_active,
}
use holo_web_conductor.Chain.Hash.{Crypto}
use holo_web_conductor.Chain.HostFunctions.{
  PendingRecord, PendingCacheOp, merge_link_op, merge_link_detail_op, remove_link_op, add_delete_op,
  CallContext, World, HostCall, host_call,
}
use holo_web_conductor.Chain.Genesis.{GenesisResult, initialize_genesis}
use holo_web_conductor.Chain.Validation.{Rules, invoke_inline_validation}

-- A zome function at work: it returns Ok or Err, it throws (a trap, a missing function, or no code
-- at all), it calls a host function that writes to the chain, with the time of the clock then, or
-- one that only reads, or another zome of the cell, given by its index and its code.
pub data Guest : Type 0 where
  returns : (value : Bytes) → Guest
  fails : Guest
  traps : Guest
  asks : (now : ℕ) → HostCall → (Bytes → Guest) → Guest
  reads : (Db → Bytes) → (Bytes → Guest) → Guest
  calls : (zome_index : ℕ) → Guest → (Bytes → Guest) → Guest

pub data Ended : Type 0 where
  ok : Bytes → Ended
  err thrown : Ended

-- The context of the callee: fresh records, and the array of cache operations if there is one.
unfoldable pub enter_zome : (zome_index : ℕ) → World → World
enter_zome i w = record w { context = record w.context { zome_index = i; pending_records = [] } }

abbrev shared_ops :
    Option (List PendingCacheOp) → Option (List PendingCacheOp) → Option (List PendingCacheOp)
shared_ops none callee = none
shared_ops (some ops) callee = callee

-- The caller's context with the callee's records after its own. The cache operations of the
-- callee are in it only if the array was there before.
unfoldable pub leave_zome : (caller callee : World) → World
leave_zome w v = record {
  context = record w.context {
    pending_records = w.context.pending_records ++ v.context.pending_records;
    pending_cache_ops = shared_ops w.context.pending_cache_ops v.context.pending_cache_ops;
  };
  db = v.db;
}

-- The callee has thrown: what it wrote stays, its records are lost.
unfoldable pub abandon_zome : (caller callee : World) → World
abandon_zome w v = record {
  context = record w.context {
    pending_cache_ops = shared_ops w.context.pending_cache_ops v.context.pending_cache_ops;
  };
  db = v.db;
}

-- The loop over the pending cache operations, by the type of each, for one operation.
unfoldable pub apply_cache_op :
    Crypto → {Details : Type 0} → PendingCacheOp → NetworkCache Details → NetworkCache Details
apply_cache_op crypto (merge_link_op base link) c = merge_link_into_cache crypto.encode base link c
apply_cache_op crypto (merge_link_detail_op base link) c =
    merge_link_detail_into_cache crypto.encode base link c
apply_cache_op crypto (remove_link_op base hash) c =
    remove_link_from_cache crypto.encode base hash c
apply_cache_op crypto (add_delete_op base hash by) c =
    add_delete_to_link_details_cache crypto.encode base hash by c

unfoldable pub apply_cache_ops :
    Crypto → {Details : Type 0} → List PendingCacheOp → NetworkCache Details → NetworkCache Details
apply_cache_ops crypto [] c = c
apply_cache_ops crypto (op ∷ ops) c = apply_cache_ops crypto ops (apply_cache_op crypto op c)

-- `ZomeCallRequest` with the code that it finds: the zome function, and `post_commit` if the zome
-- exports it. The rules are there if there is a manifest.
pub record ZomeCallRequest : Type 0 where
  pub dna_hash : Bytes
  pub agent_pub_key : Bytes
  pub zome_index : ℕ
  pub guest : Guest
  pub post_commit : Option (List PendingRecord → Guest)
  pub rules : Option Rules
  pub genesis_time : ℕ

-- The storage and the cache, which all calls share.
pub record Conductor (Details : Type 0) : Type 0 where
  pub storage : DirectSqliteStorage
  pub cache : NetworkCache Details

-- The value and the records to publish, or a rejected promise.
pub data ZomeCallResult : Type 0 where
  returned : Bytes → List PendingRecord → ZomeCallResult
  rejected : ZomeCallResult

-- `if (storage.isTransactionActive()) storage.rollbackTransaction()`
unfoldable pub give_up : DirectSqliteStorage → DirectSqliteStorage
give_up s = if is_transaction_active s then or_else (rollback_transaction s) s else s

abbrev pub with_db : Db → DirectSqliteStorage → DirectSqliteStorage
with_db db s = record s { db = db }

module _ (crypto : Crypto) where
  -- The code of a zome, run to its end.
  unfoldable pub run_guest : Guest → World → Ended × World
  run_guest (returns value) w = (ok value, w)
  run_guest fails w = (err, w)
  run_guest traps w = (thrown, w)
  run_guest (asks now h next) w = elim (host_call crypto now h w) [
    | none ↦ (thrown, w)
    | some (answer, v) ↦ run_guest (next answer) v
  ]
  run_guest (reads question next) w = run_guest (next (question w.db)) w
  run_guest (calls i callee next) w =
      let (ended, v) = run_guest callee (enter_zome i w) in
      elim ended [
        | ok answer ↦ run_guest (next answer) (leave_zome w v)
        | err ↦ (thrown, leave_zome w v)
        | thrown ↦ (thrown, abandon_zome w v)
      ]

  -- Validation, if there is a manifest; no records are valid.
  unfoldable pub passes_validation : Option Rules → World → Bool
  passes_validation none w = true
  passes_validation (some rules) w =
      invoke_inline_validation crypto rules w.db w.context.pending_records

  -- `invokePostCommit`: after the commit, on the context of the call. Its end makes no difference.
  unfoldable pub invoke_post_commit :
      Option (List PendingRecord → Guest) → List PendingRecord → World → Db
  invoke_post_commit none records w = w.db
  invoke_post_commit (some post_commit) [] w = w.db
  invoke_post_commit (some post_commit) (r ∷ records) w =
      (run_guest (post_commit (r ∷ records)) w).1.db

  -- A new context over the tables.
  unfoldable pub new_world : ZomeCallRequest → Db → World
  new_world r db = record {
    context = record {
      dna_hash = r.dna_hash;
      agent_pub_key = r.agent_pub_key;
      zome_index = r.zome_index;
      pending_records = [];
      pending_cache_ops = none;
    };
    db = db;
  }

  module _ {Details : Type 0} where
    -- After the commit: the cache operations, `post_commit`, and the records.
    unfoldable pub committed :
        ZomeCallRequest
        → (genesis : List PendingRecord) → Bytes
        → World
        → DirectSqliteStorage
        → NetworkCache Details
        → ZomeCallResult × Conductor Details
    committed r genesis value w s cache = (
      returned value (genesis ++ w.context.pending_records),
      record {
        storage =
            with_db
              (invoke_post_commit r.post_commit (genesis ++ w.context.pending_records)
                (record w { db = s.db }))
              s;
        cache = apply_cache_ops crypto (or_else w.context.pending_cache_ops []) cache;
      },
    )

    -- The end of the zome function: `Err` and a failed validation roll back before they throw.
    unfoldable pub finish_call :
        ZomeCallRequest
        → List PendingRecord
        → Ended
        → World
        → DirectSqliteStorage
        → NetworkCache Details
        → ZomeCallResult × Conductor Details
    finish_call r genesis err w s cache =
        (rejected, record { storage = give_up (give_up s); cache = cache })
    finish_call r genesis thrown w s cache =
        (rejected, record { storage = give_up s; cache = cache })
    finish_call r genesis (ok value) w s cache =
        if passes_validation r.rules w
        then elim (commit_transaction s) [
          | none ↦ (rejected, record { storage = give_up s; cache = cache })
          | some after ↦ committed r genesis value w after cache
        ]
        else (rejected, record { storage = give_up (give_up s); cache = cache })

    -- Inside the transaction that was begun on the storage.
    unfoldable pub transact :
        ZomeCallRequest
        → List PendingRecord
        → DirectSqliteStorage
        → NetworkCache Details
        → ZomeCallResult × Conductor Details
    transact r genesis s cache =
        let (ended, w) = run_guest r.guest (new_world r s.db) in
        finish_call r genesis ended w (with_db w.db s) cache

    -- After genesis, which throws or leaves records.
    unfoldable pub after_genesis :
        ZomeCallRequest
        → Option GenesisResult
        → DirectSqliteStorage
        → NetworkCache Details
        → ZomeCallResult × Conductor Details
    after_genesis r none s cache = (rejected, record { storage = s; cache = cache })
    after_genesis r (some genesis) s cache = elim (begin_transaction s) [
      | none ↦ (rejected, record { storage = s; cache = cache })
      | some begun ↦ transact r genesis.pending_records begun cache
    ]

    -- `callZome`
    unfoldable pub call_zome :
        ZomeCallRequest → Conductor Details → ZomeCallResult × Conductor Details
    call_zome r c =
        let (genesis, db) =
          initialize_genesis crypto r.genesis_time r.dna_hash r.agent_pub_key none c.storage.db in
        after_genesis r genesis (with_db db c.storage) c.cache
