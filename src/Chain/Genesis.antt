-- ===== src/Chain/Genesis.antt =====
-- packages/core/src/storage/genesis.ts: the first four actions of a chain.
pub mod Begins
pub mod Records
use holo_web_conductor.Common.{
  ℕ, zero, suc, ◌*◌, ◌==◌, Bool, true, false, Option, none, some, List, [], ◌∷◌, ◌++◌, Bytes, Text,
  length, drop, map, if◌then◌else◌,
}
use holo_web_conductor.Chain.Types.{
  ActionData, dna, agent_validation_pkg, init_zomes_complete, create, Draft, ChainAction, agent,
  ChainEntry,
}
use holo_web_conductor.Chain.Hash.{Crypto, agent_hash_type, take, compute_agent_entry_hash, seal}
use holo_web_conductor.Chain.Storage.Tables.{
  Db, get_cell_id, put_action, put_entry, update_chain_head, get_chain_head,
}
use holo_web_conductor.Chain.HostFunctions.{PendingRecord}

-- `GenesisResult`
pub record GenesisResult : Type 0 where
  pub initialized : Bool
  pub pending_records : List PendingRecord

abbrev zero_bytes : ℕ → Bytes
zero_bytes zero = []
zero_bytes (suc n) = 0 ∷ zero_bytes n

module _ (crypto : Crypto) where
  -- `agentPubKeyPrefixed`: a key of 39 bytes is used as it is; of another the first 32 bytes, or
  -- as many as there are, stand in a new array of zeros between the prefix and the location.
  unfoldable pub prefixed_key : Bytes → Bytes
  prefixed_key key =
      if length key == 39
      then key
      else crypto.hash_type_prefix agent_hash_type
        ++ take 32 (key ++ zero_bytes 32)
        ++ crypto.dht_location_from_32 (take 32 key)

  unfoldable pub genesis_action :
      (now : ℕ) → (agent_pub_key : Bytes) → ℕ → Option Bytes → ActionData → ChainAction
  genesis_action now key seq prev content = seal crypto key (record {
    author = key;
    timestamp = now * 1000;
    action_seq = seq;
    prev_action_hash = prev;
    content = content;
  })

  -- The four actions, given the hash of the agent's entry.
  module _ (now : ℕ) (dna_hash key entry_hash : Bytes) (membrane_proof : Option Bytes) where
    unfoldable pub dna_action : ChainAction
    dna_action = genesis_action now key 0 none (dna dna_hash)

    unfoldable pub agent_validation_action : ChainAction
    agent_validation_action =
        genesis_action now key 1 (some dna_action.action_hash) (agent_validation_pkg membrane_proof)

    unfoldable pub agent_create_action : ChainAction
    agent_create_action =
        genesis_action now key 2 (some agent_validation_action.action_hash) (create entry_hash none)

    unfoldable pub init_zomes_complete_action : ChainAction
    init_zomes_complete_action =
        genesis_action now key 3 (some agent_create_action.action_hash) init_zomes_complete

    unfoldable pub agent_entry : ChainEntry
    agent_entry = record {
      entry_hash = entry_hash;
      entry_content = prefixed_key key;
      entry_type = agent;
    }

    unfoldable pub genesis_records : List PendingRecord
    genesis_records =
        record { action = dna_action; entry = none }
        ∷ record { action = agent_validation_action; entry = none }
        ∷ record { action = agent_create_action; entry = some agent_entry }
        ∷ record { action = init_zomes_complete_action; entry = none }
        ∷ []

    -- The writes, each of which is committed on its own: before the hash of the agent's entry is
    -- computed, and after.
    unfoldable pub write_start : Text → Db → Db
    write_start cell db = put_action agent_validation_action cell (put_action dna_action cell db)

    unfoldable pub write_end : Text → Db → Db
    write_end cell db =
        update_chain_head cell 3 init_zomes_complete_action.action_hash (now * 1000) (
          put_action init_zomes_complete_action cell
            (put_entry agent_entry cell (put_action agent_create_action cell db)))

  -- `initializeGenesis`, with the tables after it. The result is none if it throws, since the hash
  -- of the agent's entry cannot be computed.
  unfoldable pub initialize_genesis :
      (now : ℕ) → (dna_hash key : Bytes) → Option Bytes → Db → Option GenesisResult × Db
  initialize_genesis now dna_hash key proof db =
      elim (get_chain_head (get_cell_id crypto.encode dna_hash key) db) [
        | some head ↦ (some (record { initialized = false; pending_records = [] }), db)
        | none ↦ elim (compute_agent_entry_hash crypto (prefixed_key key)) [
          | none ↦ (
            none,
            write_start now dna_hash key [] proof (get_cell_id crypto.encode dna_hash key) db,
          )
          | some entry_hash ↦ (
            some (record {
              initialized = true;
              pending_records = genesis_records now dna_hash key entry_hash proof;
            }),
            write_end now dna_hash key entry_hash proof (get_cell_id crypto.encode dna_hash key) (
                write_start now dna_hash key entry_hash proof
                  (get_cell_id crypto.encode dna_hash key) db),
          )
        ]
      ]
