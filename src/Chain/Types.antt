-- ===== src/Chain/Types.antt =====
-- packages/core/src/storage/types.ts: actions, entries, links and heads of a source chain.
-- `null` and `undefined` are both `none`; `ActionBase` and what a variant adds stand in one record.
use holo_web_conductor.Common.{ℕ, Option, none, some, Bytes}

pub record AppEntryType : Type 0 where
  pub zome_id : ℕ
  pub entry_index : ℕ

-- `actionType` with the fields of its variant. The agent's entry has no type.
pub data ActionData : Type 0 where
  dna : (dna_hash : Bytes) → ActionData
  agent_validation_pkg : (membrane_proof : Option Bytes) → ActionData
  init_zomes_complete : ActionData
  create : (entry_hash : Bytes) (entry_type : Option AppEntryType) → ActionData
  update :
      (entry_hash : Bytes) (entry_type : Option AppEntryType)
      (original_action_hash original_entry_hash : Bytes)
      → ActionData
  delete : (deletes_action_hash deletes_entry_hash : Bytes) → ActionData
  create_link :
      (base_address target_address : Bytes) (zome_index link_type : ℕ) (tag : Bytes) → ActionData
  delete_link : (link_add_address base_address : Bytes) → ActionData

-- What is serialised, and then hashed and signed. An action of the first variant has no sequence
-- number and no previous action in its serialised form: its are 0 and none.
pub record Draft : Type 0 where
  pub author : Bytes
  pub timestamp : ℕ
  pub action_seq : ℕ
  pub prev_action_hash : Option Bytes
  pub content : ActionData

pub record ChainAction : Type 0 where
  pub action_hash : Bytes
  pub signature : Bytes
  pub draft : Draft

pub data EntryType : Type 0 where
  app : AppEntryType → EntryType
  agent cap_claim cap_grant : EntryType

pub record ChainEntry : Type 0 where
  pub entry_hash : Bytes
  pub entry_content : Bytes
  pub entry_type : EntryType

pub record ChainHead : Type 0 where
  pub action_seq : ℕ
  pub action_hash : Bytes
  pub timestamp : ℕ

pub record ChainLink : Type 0 where
  pub create_link_hash : Bytes
  pub base_address : Bytes
  pub target_address : Bytes
  pub timestamp : ℕ
  pub zome_index : ℕ
  pub link_type : ℕ
  pub tag : Bytes
  pub author : Bytes

-- `isEntryAction`, and the entry hash behind it.
unfoldable pub entry_hash_if_new : ActionData → Option Bytes
entry_hash_if_new (create e t) = some e
entry_hash_if_new (update e t a o) = some e
entry_hash_if_new _ = none

-- `actionType === 'Update'`, with `original_entry_hash`.
abbrev pub updated_entry : ActionData → Option Bytes
updated_entry (update e t a o) = some o
updated_entry _ = none

-- `isStoredDeleteAction`, with `deletes_entry_hash`.
abbrev pub deleted_entry : ActionData → Option Bytes
deleted_entry (delete a e) = some e
deleted_entry _ = none

-- `isStoredCreateLinkAction`, with `base_address`.
abbrev pub linked_base : ActionData → Option Bytes
linked_base (create_link b t z l g) = some b
linked_base _ = none
