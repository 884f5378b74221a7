-- ===== src/Chain/HostFunctions.antt =====
-- packages/core/src/ribosome/host-fn/{create,update,delete,create_link,delete_link}.ts, and what
-- they share of packages/core/src/ribosome/call-context.ts: the functions that write to the chain.
pub mod Adding
pub mod Links
use holo_web_conductor.Common.{
  ℕ, suc, ◌*◌, ◌+◌, Option, none, some, List, [], ◌∷◌, ◌++◌, Bytes, Text, or_else,
}
use holo_web_conductor.Network.Types.{NetworkLink}
use holo_web_conductor.Chain.Types.{
  AppEntryType, ActionData, create, update, delete, create_link, delete_link, Draft, ChainAction,
  app, ChainEntry, ChainHead, ChainLink, entry_hash_if_new, linked_base,
}
use holo_web_conductor.Chain.Hash.{Crypto, compute_app_entry_hash, seal}
use holo_web_conductor.Chain.Storage.Tables.{
  Db, get_cell_id, put_action, put_entry, put_link, delete_link_row, update_chain_head,
  get_chain_head, get_action,
}

pub record PendingRecord : Type 0 where
  pub action : ChainAction
  pub entry : Option ChainEntry

-- `PendingCacheOp`
pub data PendingCacheOp : Type 0 where
  merge_link_op merge_link_detail_op : (base : Bytes) → NetworkLink → PendingCacheOp
  remove_link_op : (base create_link_hash : Bytes) → PendingCacheOp
  add_delete_op : (base create_link_hash delete_hash : Bytes) → PendingCacheOp

-- `CallContext`. Of the manifest only the index of the current zome is read, 0 if it is not among
-- the integrity zomes. `pending_cache_ops` is none until a first operation is queued, since a
-- call of another zome shares the array only if there is one.
pub record CallContext : Type 0 where
  pub dna_hash : Bytes
  pub agent_pub_key : Bytes
  pub zome_index : ℕ
  pub pending_records : List PendingRecord
  pub pending_cache_ops : Option (List PendingCacheOp)

-- What a host function reads and writes.
pub record World : Type 0 where
  pub context : CallContext
  pub db : Db

-- The inputs of the functions, deserialised. Each comes with the time at the call.
pub data HostCall : Type 0 where
  creates : (entry_type : AppEntryType) (content : Bytes) → HostCall
  updates : (original_action_address content : Bytes) → HostCall
  deletes : (deletes_action_hash : Bytes) → HostCall
  creates_link : (base target : Bytes) (zome_index link_type : ℕ) (tag : Bytes) → HostCall
  deletes_link : (address : Bytes) → HostCall

-- `chainHead ? chainHead.actionSeq + 1 : 3`
abbrev pub next_seq : Option ChainHead → ℕ
next_seq none = 3
next_seq (some head) = suc head.action_seq

-- `chainHead ? chainHead.actionHash : null`
abbrev pub head_hash : Option ChainHead → Option Bytes
head_hash none = none
head_hash (some head) = some head.action_hash

-- `putAction`, then what a function does to the tables besides, then `updateChainHead`.
unfoldable pub extend : ChainAction → (Db → Db) → Text → Db → Db
extend action besides cell db =
    update_chain_head cell action.draft.action_seq action.action_hash action.draft.timestamp
      (besides (put_action action cell db))

unfoldable pub push_record : ChainAction → Option ChainEntry → CallContext → CallContext
push_record action entry c = record c {
  pending_records = c.pending_records ++ record { action = action; entry = entry } ∷ [];
}

unfoldable pub push_cache_ops : List PendingCacheOp → CallContext → CallContext
push_cache_ops ops c = record c { pending_cache_ops = some (or_else c.pending_cache_ops [] ++ ops) }

-- The entry type of an update: that of the current zome, at index 0.
abbrev pub updated_type : CallContext → AppEntryType
updated_type c = record { zome_id = c.zome_index; entry_index = 0 }

abbrev entry_hash_of_action : Option ChainAction → Option Bytes
entry_hash_of_action none = none
entry_hash_of_action (some a) = entry_hash_if_new a.draft.content

-- The link as it is stored, and as the cache gets it.
unfoldable pub stored_link : ChainAction → Bytes → Bytes → ℕ → ℕ → Bytes → ChainLink
stored_link action base target zome_index link_type tag = record {
  create_link_hash = action.action_hash;
  base_address = base;
  target_address = target;
  timestamp = action.draft.timestamp;
  zome_index = zome_index;
  link_type = link_type;
  tag = tag;
  author = action.draft.author;
}

unfoldable pub network_link : ChainLink → NetworkLink
network_link l = record {
  create_link_hash = l.create_link_hash;
  base = l.base_address;
  target = l.target_address;
  zome_index = l.zome_index;
  link_type = l.link_type;
  tag = l.tag;
  timestamp = l.timestamp;
  author = l.author;
}

abbrev base_of_action : Option ChainAction → Option Bytes
base_of_action none = none
base_of_action (some a) = linked_base a.draft.content

module _ (crypto : Crypto) where
  -- The cell of a context.
  abbrev pub cell_of : CallContext → Text
  cell_of c = get_cell_id crypto.encode c.dna_hash c.agent_pub_key

  -- The action that each function builds: after the head of its cell, at the time given.
  unfoldable pub build_draft : (now : ℕ) → ActionData → World → Draft
  build_draft now content w = record {
    author = w.context.agent_pub_key;
    timestamp = now * 1000;
    action_seq = next_seq (get_chain_head (cell_of w.context) w.db);
    prev_action_hash = head_hash (get_chain_head (cell_of w.context) w.db);
    content = content;
  }

  unfoldable pub build_action : (now : ℕ) → ActionData → World → ChainAction
  build_action now content w = seal crypto w.context.agent_pub_key (build_draft now content w)

  abbrev app_entry : AppEntryType → Bytes → ChainEntry
  app_entry type content = record {
    entry_hash = compute_app_entry_hash crypto content;
    entry_content = content;
    entry_type = app type;
  }

  -- A Create or an Update with its entry: `putEntry`, `putAction`, `updateChainHead`.
  unfoldable pub add_entry : ChainAction → ChainEntry → World → Bytes × World
  add_entry action entry w = (
    action.action_hash,
    record {
      context = push_record action (some entry) w.context;
      db = extend action (λ db. db) (cell_of w.context) (put_entry entry (cell_of w.context) w.db);
    },
  )

  -- `create`
  unfoldable pub host_create : (now : ℕ) → AppEntryType → Bytes → World → Bytes × World
  host_create now type content w =
      add_entry (build_action now (create (compute_app_entry_hash crypto content) (some type)) w)
        (app_entry type content) w

  update_of : ℕ → Bytes → Bytes → Option Bytes → World → Option (Bytes × World)
  update_of now original content none w = none
  update_of now original content (some original_entry) w = some (
      add_entry
        (build_action now
          (update (compute_app_entry_hash crypto content) (some (updated_type w.context)) original
            original_entry)
          w)
        (app_entry (updated_type w.context) content) w)

  -- `update`; none if it throws, since the original is missing or is no entry action.
  unfoldable pub host_update :
      (now : ℕ) → (original content : Bytes) → World → Option (Bytes × World)
  unfolding update_of
  host_update now original content w =
      update_of now original content (entry_hash_of_action (get_action original w.db)) w

  delete_of : ℕ → Bytes → Option Bytes → World → Option (Bytes × World)
  delete_of now hash none w = none
  delete_of now hash (some entry_hash) w =
      let action = build_action now (delete hash entry_hash) w in
      some (
        action.action_hash,
        record {
          context = push_record action none w.context;
          db = extend action (λ db. db) (cell_of w.context) w.db;
        },
      )

  -- `deleteEntry`; none if it throws.
  unfoldable pub host_delete : (now : ℕ) → (hash : Bytes) → World → Option (Bytes × World)
  unfolding delete_of
  host_delete now hash w = delete_of now hash (entry_hash_of_action (get_action hash w.db)) w

  -- `createLink`
  unfoldable pub host_create_link :
      (now : ℕ) → (base target : Bytes) → (zome_index link_type : ℕ) → Bytes → World → Bytes × World
  host_create_link now base target zome_index link_type tag w =
      let action = build_action now (create_link base target zome_index link_type tag) w in
      let link = stored_link action base target zome_index link_type tag in
      (
        action.action_hash,
        record {
          context = push_record action none (
              push_cache_ops
                (merge_link_op base (network_link link)
                  ∷ merge_link_detail_op base (network_link link)
                  ∷ [])
                w.context);
          db = extend action (put_link link (cell_of w.context)) (cell_of w.context) w.db;
        },
      )

  delete_link_of : ℕ → Bytes → Option Bytes → World → Option (Bytes × World)
  delete_link_of now address none w = none
  delete_link_of now address (some base) w =
      let action = build_action now (delete_link address base) w in
      some (
        action.action_hash,
        record {
          context = push_record action none (
              push_cache_ops
                (remove_link_op base address ∷ add_delete_op base address action.action_hash ∷ [])
                w.context);
          db = extend action (delete_link_row address action.action_hash) (cell_of w.context) w.db;
        },
      )

  -- `deleteLink`; none if it throws, since no CreateLink has the hash.
  unfoldable pub host_delete_link : (now : ℕ) → (address : Bytes) → World → Option (Bytes × World)
  unfolding delete_link_of
  host_delete_link now address w =
      delete_link_of now address (base_of_action (get_action address w.db)) w

  -- A function by its input; none if it throws. A throw comes before any write.
  unfoldable pub host_call : (now : ℕ) → HostCall → World → Option (Bytes × World)
  host_call now (creates type content) w = some (host_create now type content w)
  host_call now (updates original content) w = host_update now original content w
  host_call now (deletes hash) w = host_delete now hash w
  host_call now (creates_link base target zome_index link_type tag) w =
      some (host_create_link now base target zome_index link_type tag w)
  host_call now (deletes_link address) w = host_delete_link now address w
