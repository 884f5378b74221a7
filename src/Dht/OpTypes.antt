-- ===== src/Dht/OpTypes.antt =====
-- packages/core/src/dht/dht-op-types.ts: actions, records, chain operations, and which operations
-- an action gives. Of an action only the fields that the operations read are kept.
use holo_web_conductor.Common.{ℕ, Bool, true, false, Option, none, some, List, [], ◌∷◌, Bytes, Text}

pub data ActionBody : Type 0 where
  dna open_chain close_chain agent_validation_pkg init_zomes_complete : ActionBody
  create : (entry_hash : Bytes) → ActionBody
  update : (entry_hash original_action_address original_entry_address : Bytes) → ActionBody
  delete : (deletes_address deletes_entry_address : Bytes) → ActionBody
  create_link : (base_address target_address : Bytes) → ActionBody
  delete_link : (base_address link_add_address : Bytes) → ActionBody
  unknown : (type : Text) → ActionBody

pub record Action : Type 0 where
  pub author : Bytes
  pub timestamp : ℕ
  pub body : ActionBody

pub record Entry : Type 0 where
  pub entry_type : Text
  pub entry : Bytes

pub data RecordEntry : Type 0 where
  present : Entry → RecordEntry
  hidden na not_stored : RecordEntry

-- A `Record` with its `SignedActionHashed` laid flat.
pub record ChainRecord : Type 0 where
  pub hash : Bytes
  pub content : Action
  pub signature : Bytes
  pub entry : RecordEntry

pub data ChainOpType : Type 0 where
  store_record store_entry register_agent_activity : ChainOpType
  register_updated_content register_updated_record : ChainOpType
  register_deleted_by register_deleted_entry_action : ChainOpType
  register_add_link register_remove_link : ChainOpType

-- Each operation holds its signature and its action, and those with an entry field hold that.
pub data ChainOp : Type 0 where
  store_record_op : Bytes → Action → RecordEntry → ChainOp
  store_entry_op : Bytes → Action → Entry → ChainOp
  register_agent_activity_op : Bytes → Action → ChainOp
  register_updated_content_op : Bytes → Action → RecordEntry → ChainOp
  register_updated_record_op : Bytes → Action → RecordEntry → ChainOp
  register_deleted_by_op : Bytes → Action → ChainOp
  register_deleted_entry_action_op : Bytes → Action → ChainOp
  register_add_link_op : Bytes → Action → ChainOp
  register_remove_link_op : Bytes → Action → ChainOp

-- The variants that hold an entry hash hold one here (`StoreRecord` may hold null).
pub data ChainOpLite : Type 0 where
  store_record_lite : (action_hash : Bytes) → Option Bytes → (basis : Bytes) → ChainOpLite
  store_entry_lite : (action_hash entry_hash basis : Bytes) → ChainOpLite
  register_agent_activity_lite : (action_hash basis : Bytes) → ChainOpLite
  register_updated_content_lite : (action_hash entry_hash basis : Bytes) → ChainOpLite
  register_updated_record_lite : (action_hash entry_hash basis : Bytes) → ChainOpLite
  register_deleted_by_lite : (action_hash basis : Bytes) → ChainOpLite
  register_deleted_entry_action_lite : (action_hash basis : Bytes) → ChainOpLite
  register_add_link_lite : (action_hash basis : Bytes) → ChainOpLite
  register_remove_link_lite : (action_hash basis : Bytes) → ChainOpLite

-- `getRecordEntry`
unfoldable pub get_record_entry : RecordEntry → Option Entry
get_record_entry (present e) = some e
get_record_entry hidden = none
get_record_entry na = none
get_record_entry not_stored = none

unfoldable pub op_types_of : ActionBody → List ChainOpType
op_types_of (create e) = store_record ∷ register_agent_activity ∷ store_entry ∷ []
op_types_of (update e a o) =
    store_record ∷ register_agent_activity ∷ store_entry ∷ register_updated_content
    ∷ register_updated_record ∷ []
op_types_of (delete a e) =
    store_record ∷ register_agent_activity ∷ register_deleted_by ∷ register_deleted_entry_action
    ∷ []
op_types_of (create_link b t) = store_record ∷ register_agent_activity ∷ register_add_link ∷ []
op_types_of (delete_link b l) = store_record ∷ register_agent_activity ∷ register_remove_link ∷ []
op_types_of _ = store_record ∷ register_agent_activity ∷ []

-- `actionToOpTypes`
unfoldable pub action_to_op_types : Action → List ChainOpType
unfolding op_types_of
action_to_op_types action = op_types_of action.body

abbrev entry_hash_of : ActionBody → Option Bytes
entry_hash_of (create e) = some e
entry_hash_of (update e a o) = some e
entry_hash_of _ = none

-- The entry hash of a Create or an Update: the guard `isNewEntryAction` and the field behind it.
unfoldable pub new_entry_hash : Action → Option Bytes
new_entry_hash action = entry_hash_of action.body

abbrev body_is_new_entry : ActionBody → Bool
body_is_new_entry (create e) = true
body_is_new_entry (update e a o) = true
body_is_new_entry _ = false

-- `isNewEntryAction`
unfoldable pub is_new_entry_action : Action → Bool
is_new_entry_action action = body_is_new_entry action.body

abbrev body_is_update : ActionBody → Bool
body_is_update (update e a o) = true
body_is_update _ = false

-- `isUpdateAction`
unfoldable pub is_update_action : Action → Bool
is_update_action action = body_is_update action.body

abbrev body_is_delete : ActionBody → Bool
body_is_delete (delete a e) = true
body_is_delete _ = false

-- `isDeleteAction`
unfoldable pub is_delete_action : Action → Bool
is_delete_action action = body_is_delete action.body

abbrev body_is_create_link : ActionBody → Bool
body_is_create_link (create_link b t) = true
body_is_create_link _ = false

-- `isCreateLinkAction`
unfoldable pub is_create_link_action : Action → Bool
is_create_link_action action = body_is_create_link action.body

abbrev body_is_delete_link : ActionBody → Bool
body_is_delete_link (delete_link b l) = true
body_is_delete_link _ = false

-- `isDeleteLinkAction`
unfoldable pub is_delete_link_action : Action → Bool
is_delete_link_action action = body_is_delete_link action.body
