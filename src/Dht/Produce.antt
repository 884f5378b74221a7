-- ===== src/Dht/Produce.antt =====
-- packages/core/src/dht/produce-ops.ts: the operations that a record of the source chain gives.
pub mod Carried
pub mod Kinds
use holo_web_conductor.Common.{
  Bool, true, false, Option, none, some, List, [], ◌∷◌, Bytes, Text, if◌then◌else◌,
}
use holo_web_conductor.Dht.OpTypes.{
  ActionBody, create, update, delete, create_link, delete_link, Action, Entry, RecordEntry, present,
  na, ChainRecord, ChainOpType, store_record, store_entry, register_agent_activity,
  register_updated_content, register_updated_record, register_deleted_by,
  register_deleted_entry_action, register_add_link, register_remove_link, ChainOp, store_record_op,
  store_entry_op, register_agent_activity_op, register_updated_content_op,
  register_updated_record_op, register_deleted_by_op, register_deleted_entry_action_op,
  register_add_link_op, register_remove_link_op, ChainOpLite, store_record_lite, store_entry_lite,
  register_agent_activity_lite, register_updated_content_lite, register_updated_record_lite,
  register_deleted_by_lite, register_deleted_entry_action_lite, register_add_link_lite,
  register_remove_link_lite, get_record_entry, action_to_op_types, new_entry_hash,
  is_new_entry_action, is_update_action, is_delete_action, is_create_link_action,
  is_delete_link_action,
}

-- A hash, or the error that the operation's type does not fit the action.
pub data BasisResult : Type 0 where
  ok : Bytes → BasisResult
  wrong_action : ChainOpType → BasisResult

basis_of : ChainOpType → ActionBody → Bytes → Bytes → BasisResult
basis_of store_record body author action_hash = ok action_hash
basis_of store_entry (create e) author action_hash = ok e
basis_of store_entry (update e a o) author action_hash = ok e
basis_of register_agent_activity body author action_hash = ok author
basis_of register_updated_content (update e a o) author action_hash = ok o
basis_of register_updated_record (update e a o) author action_hash = ok a
basis_of register_deleted_by (delete a e) author action_hash = ok a
basis_of register_deleted_entry_action (delete a e) author action_hash = ok e
basis_of register_add_link (create_link b t) author action_hash = ok b
basis_of register_remove_link (delete_link b l) author action_hash = ok b
basis_of op_type body author action_hash = wrong_action op_type

-- `computeOpBasis`
unfoldable pub compute_op_basis : ChainOpType → Action → Bytes → BasisResult
unfolding basis_of
compute_op_basis op_type action action_hash = basis_of op_type action.body action.author action_hash

entry_or_na : Option Entry → RecordEntry
entry_or_na none = na
entry_or_na (some e) = present e

-- `createRecordEntry`
unfoldable pub create_record_entry : Action → Option Entry → RecordEntry
unfolding is_new_entry_action entry_or_na
create_record_entry action entry = if is_new_entry_action action then entry_or_na entry else na

when : Bool → ChainOp → Option ChainOp
when test op = if test then some op else none

store_entry_when : Bool → Bytes → Action → Option Entry → Option ChainOp
store_entry_when false signature action entry = none
store_entry_when true signature action none = none
store_entry_when true signature action (some e) = some (store_entry_op signature action e)

-- `createOpFromType`; its argument `actionHash` is not read.
unfoldable pub create_op_from_type : ChainOpType → Action → Bytes → Option Entry → Option ChainOp
unfolding create_record_entry when store_entry_when is_new_entry_action is_update_action
    is_delete_action is_create_link_action is_delete_link_action
create_op_from_type store_record action signature entry =
    some (store_record_op signature action (create_record_entry action entry))
create_op_from_type store_entry action signature entry =
    store_entry_when (is_new_entry_action action) signature action entry
create_op_from_type register_agent_activity action signature entry =
    some (register_agent_activity_op signature action)
create_op_from_type register_updated_content action signature entry =
    when (is_update_action action)
      (register_updated_content_op signature action (create_record_entry action entry))
create_op_from_type register_updated_record action signature entry =
    when (is_update_action action)
      (register_updated_record_op signature action (create_record_entry action entry))
create_op_from_type register_deleted_by action signature entry =
    when (is_delete_action action) (register_deleted_by_op signature action)
create_op_from_type register_deleted_entry_action action signature entry =
    when (is_delete_action action) (register_deleted_entry_action_op signature action)
create_op_from_type register_add_link action signature entry =
    when (is_create_link_action action) (register_add_link_op signature action)
create_op_from_type register_remove_link action signature entry =
    when (is_delete_link_action action) (register_remove_link_op signature action)

cons_some {ℓ} : {A : Type ℓ} → Option A → List A → List A
cons_some none rest = rest
cons_some (some a) rest = a ∷ rest

ops_of : List ChainOpType → Action → Bytes → Option Entry → List ChainOp
unfolding cons_some
ops_of [] action signature entry = []
ops_of (t ∷ ts) action signature entry =
    cons_some (create_op_from_type t action signature entry) (ops_of ts action signature entry)

-- `produceOpsFromRecord`
unfoldable pub produce_ops_from_record : ChainRecord → List ChainOp
unfolding ops_of create_op_from_type action_to_op_types get_record_entry
produce_ops_from_record r =
    ops_of (action_to_op_types r.content) r.content r.signature (get_record_entry r.entry)

lite_with : (Bytes → ChainOpLite) → Option Bytes → Option ChainOpLite
lite_with f none = none
lite_with f (some e) = some (f e)

-- `createOpLiteFromType`
unfoldable pub create_op_lite_from_type : ChainOpType → Action → Bytes → Bytes → Option ChainOpLite
unfolding lite_with new_entry_hash is_update_action
create_op_lite_from_type store_record action action_hash basis =
    some (store_record_lite action_hash (new_entry_hash action) basis)
create_op_lite_from_type store_entry action action_hash basis =
    lite_with (λ e. store_entry_lite action_hash e basis) (new_entry_hash action)
create_op_lite_from_type register_agent_activity action action_hash basis =
    some (register_agent_activity_lite action_hash basis)
create_op_lite_from_type register_updated_content action action_hash basis =
    if is_update_action action
    then lite_with (λ e. register_updated_content_lite action_hash e basis) (new_entry_hash action)
    else none
create_op_lite_from_type register_updated_record action action_hash basis =
    if is_update_action action
    then lite_with (λ e. register_updated_record_lite action_hash e basis) (new_entry_hash action)
    else none
create_op_lite_from_type register_deleted_by action action_hash basis =
    some (register_deleted_by_lite action_hash basis)
create_op_lite_from_type register_deleted_entry_action action action_hash basis =
    some (register_deleted_entry_action_lite action_hash basis)
create_op_lite_from_type register_add_link action action_hash basis =
    some (register_add_link_lite action_hash basis)
create_op_lite_from_type register_remove_link action action_hash basis =
    some (register_remove_link_lite action_hash basis)

-- A thrown error is caught and the operation skipped.
lite_of_basis : ChainOpType → Action → Bytes → BasisResult → Option ChainOpLite
lite_of_basis t action action_hash (ok basis) = create_op_lite_from_type t action action_hash basis
lite_of_basis t action action_hash (wrong_action w) = none

lites_of : List ChainOpType → Action → Bytes → List ChainOpLite
unfolding cons_some lite_of_basis
lites_of [] action action_hash = []
lites_of (t ∷ ts) action action_hash =
    cons_some (lite_of_basis t action action_hash (compute_op_basis t action action_hash))
      (lites_of ts action action_hash)

-- `produceOpLitesFromRecord`
unfoldable pub produce_op_lites_from_record : ChainRecord → List ChainOpLite
unfolding lites_of create_op_lite_from_type compute_op_basis action_to_op_types
produce_op_lites_from_record r = lites_of (action_to_op_types r.content) r.content r.hash

-- `getOpAction`
unfoldable pub get_op_action : ChainOp → Action
get_op_action (store_record_op s a e) = a
get_op_action (store_entry_op s a e) = a
get_op_action (register_agent_activity_op s a) = a
get_op_action (register_updated_content_op s a e) = a
get_op_action (register_updated_record_op s a e) = a
get_op_action (register_deleted_by_op s a) = a
get_op_action (register_deleted_entry_action_op s a) = a
get_op_action (register_add_link_op s a) = a
get_op_action (register_remove_link_op s a) = a

-- `getOpSignature`
unfoldable pub get_op_signature : ChainOp → Bytes
get_op_signature (store_record_op s a e) = s
get_op_signature (store_entry_op s a e) = s
get_op_signature (register_agent_activity_op s a) = s
get_op_signature (register_updated_content_op s a e) = s
get_op_signature (register_updated_record_op s a e) = s
get_op_signature (register_deleted_by_op s a) = s
get_op_signature (register_deleted_entry_action_op s a) = s
get_op_signature (register_add_link_op s a) = s
get_op_signature (register_remove_link_op s a) = s

-- The tag `op.type`.
unfoldable pub op_type : ChainOp → ChainOpType
op_type (store_record_op s a e) = store_record
op_type (store_entry_op s a e) = store_entry
op_type (register_agent_activity_op s a) = register_agent_activity
op_type (register_updated_content_op s a e) = register_updated_content
op_type (register_updated_record_op s a e) = register_updated_record
op_type (register_deleted_by_op s a) = register_deleted_by
op_type (register_deleted_entry_action_op s a) = register_deleted_entry_action
op_type (register_add_link_op s a) = register_add_link
op_type (register_remove_link_op s a) = register_remove_link
