-- ===== src/Chain/Validation.antt =====
-- packages/core/src/dht/validation-op.ts and packages/core/src/ribosome/validate.ts: the records
-- of a call are validated before the commit. An operation holds its action in the stored form.
pub mod Accepting
use holo_web_conductor.Common.{
  ℕ, Bool, true, false, Option, none, some, List, [], ◌∷◌, ◌++◌, Bytes, Text, get_elem?,
  if◌then◌else◌,
}
use holo_web_conductor.Dht.OpTypes
use holo_web_conductor.Dht.OpTypes.{ChainOpType, action_to_op_types}
use holo_web_conductor.Chain.Types.{
  AppEntryType, ActionData, create, update, delete, create_link, delete_link, ChainAction,
  ChainEntry, entry_hash_if_new,
}
use holo_web_conductor.Chain.Storage.Tables.{Db, get_action}
use holo_web_conductor.Chain.Hash.{Crypto}
use holo_web_conductor.Chain.HostFunctions.{PendingRecord}
use holo_web_conductor.Chain.Records.{stored_action_to_client_action}

-- `Op`. A removal of a link brings the CreateLink, of which the zome index is kept.
pub data Op : Type 0 where
  store_record_op : PendingRecord → Op
  store_entry_op : ChainAction → ChainEntry → Op
  register_update_op : ChainAction → Option ChainEntry → Op
  register_delete_op : ChainAction → Op
  register_agent_activity_op : ChainAction → Op
  register_create_link_op : ChainAction → Op
  register_delete_link_op : ChainAction → (create_link_zome : ℕ) → Op

-- A `ZomeDefinition`, without the code: whether there is any.
pub record IntegrityZome : Type 0 where
  pub name : Text
  pub has_wasm : Bool

-- `ValidateCallbackResult`
pub data ValidateResult : Type 0 where
  valid invalid unresolved : ValidateResult

-- What validation reads besides the tables: the integrity zomes of the manifest, the `validate`
-- callback of a zome, and the zome index of a CreateLink that only the network has.
pub record Rules : Type 0 where
  pub integrity_zomes : List IntegrityZome
  pub validate : (zome : Text) → Op → ValidateResult
  pub fetch_create_link : Bytes → Option ℕ

create_link_zome : ActionData → Option ℕ
create_link_zome (create_link b t z l g) = some z
create_link_zome _ = none

-- The resolver of `buildCreateLinkResolver`: the storage first, then the network.
unfoldable pub resolve_create_link : Rules → Db → Bytes → Option ℕ
unfolding create_link_zome
resolve_create_link rules db hash = elim (get_action hash db) [
  | none ↦ rules.fetch_create_link hash
  | some a ↦ create_link_zome a.draft.content
]

abbrev removal : ChainAction → Option ℕ → Option Op
removal a none = none
removal a (some z) = some (register_delete_link_op a z)

store_entry_of : Option Bytes → ChainAction → Option ChainEntry → Option Op
store_entry_of (some hash) a (some e) = some (store_entry_op a e)
store_entry_of _ a _ = none

update_op_of : ActionData → ChainAction → Option ChainEntry → Option Op
update_op_of (update e t o h) a entry = some (register_update_op a entry)
update_op_of _ a entry = none

delete_op_of : ActionData → ChainAction → Option Op
delete_op_of (delete h e) a = some (register_delete_op a)
delete_op_of _ a = none

create_link_op_of : ActionData → ChainAction → Option Op
create_link_op_of (create_link b t z l g) a = some (register_create_link_op a)
create_link_op_of _ a = none

delete_link_op_of : (Bytes → Option ℕ) → ActionData → ChainAction → Option Op
delete_link_op_of resolve (delete_link l b) a = removal a (resolve l)
delete_link_op_of resolve _ a = none

-- `buildOpFromRecord`
unfoldable pub build_op_from_record : (Bytes → Option ℕ) → PendingRecord → ChainOpType → Option Op
unfolding store_entry_of update_op_of delete_op_of create_link_op_of delete_link_op_of
build_op_from_record resolve r OpTypes.store_record = some (store_record_op r)
build_op_from_record resolve r OpTypes.store_entry =
    store_entry_of (entry_hash_if_new r.action.draft.content) r.action r.entry
build_op_from_record resolve r OpTypes.register_agent_activity =
    some (register_agent_activity_op r.action)
build_op_from_record resolve r OpTypes.register_updated_content =
    update_op_of r.action.draft.content r.action r.entry
build_op_from_record resolve r OpTypes.register_updated_record =
    update_op_of r.action.draft.content r.action r.entry
build_op_from_record resolve r OpTypes.register_deleted_by =
    delete_op_of r.action.draft.content r.action
build_op_from_record resolve r OpTypes.register_deleted_entry_action =
    delete_op_of r.action.draft.content r.action
build_op_from_record resolve r OpTypes.register_add_link =
    create_link_op_of r.action.draft.content r.action
build_op_from_record resolve r OpTypes.register_remove_link =
    delete_link_op_of resolve r.action.draft.content r.action

abbrev type_zome : Option AppEntryType → Option ℕ
type_zome none = none
type_zome (some t) = some t.zome_id

-- `extractZomeIndexFromEntryType`, on the type of a Create or an Update.
unfoldable pub entry_zome : ActionData → Option ℕ
entry_zome (create e t) = type_zome t
entry_zome (update e t a o) = type_zome t
entry_zome _ = none

-- `extractZomeIndexFromStoredAction`
unfoldable pub stored_zome : ActionData → Option ℕ
stored_zome (create_link b t z l g) = some z
stored_zome content = entry_zome content

-- The zome of the action that a Delete or a DeleteLink names, if the storage has it.
unfoldable pub original_zome : Db → Bytes → Option ℕ
original_zome db hash = elim (get_action hash db) [
  | none ↦ none
  | some a ↦ stored_zome a.draft.content
]

-- `extractZomeIndexFromAction`
unfoldable pub action_zome : Db → ActionData → Option ℕ
action_zome db (delete a e) = original_zome db a
action_zome db (delete_link l b) = original_zome db l
action_zome db content = stored_zome content

deleted_zome : Db → ActionData → Option ℕ
deleted_zome db (delete a e) = original_zome db a
deleted_zome db _ = none

-- The index that decides for an operation; none stands for all integrity zomes.
unfoldable pub op_zome : Db → Op → Option ℕ
unfolding deleted_zome
op_zome db (store_record_op r) = action_zome db r.action.draft.content
op_zome db (store_entry_op a e) = entry_zome a.draft.content
op_zome db (register_update_op a e) = entry_zome a.draft.content
op_zome db (register_delete_op a) = deleted_zome db a.draft.content
op_zome db (register_agent_activity_op a) = none
op_zome db (register_create_link_op a) = stored_zome a.draft.content
op_zome db (register_delete_link_op a z) = some z

zomes_at : List IntegrityZome → Option ℕ → List IntegrityZome
zomes_at zomes none = zomes
zomes_at zomes (some i) = elim (get_elem? zomes i) [ none ↦ zomes | some z ↦ z ∷ [] ]

-- `getZomesToInvoke`: an index that no zome has gives all of them.
unfoldable pub get_zomes_to_invoke : Rules → Db → Op → List IntegrityZome
unfolding zomes_at
get_zomes_to_invoke rules db op = zomes_at rules.integrity_zomes (op_zome db op)

abbrev pub is_valid : ValidateResult → Bool
is_valid valid = true
is_valid _ = false

-- The zomes in turn; one without code is passed over, and the first that is not satisfied ends it.
unfoldable pub zomes_accept : Rules → Op → List IntegrityZome → Bool
zomes_accept rules op [] = true
zomes_accept rules op (z ∷ zomes) =
    let rest = zomes_accept rules op zomes in
    if z.has_wasm then (if is_valid (rules.validate z.name op) then rest else false) else rest

-- The operations of a record; one that cannot be built is passed over.
unfoldable pub ops_accepted : Rules → Db → PendingRecord → List ChainOpType → Bool
ops_accepted rules db r [] = true
ops_accepted rules db r (type ∷ types) =
    let rest = ops_accepted rules db r types in
    elim (build_op_from_record (resolve_create_link rules db) r type) [
      | none ↦ rest
      | some op ↦ if zomes_accept rules op (get_zomes_to_invoke rules db op) then rest else false
    ]

-- `invokeInlineValidation`: false if it throws.
unfoldable pub invoke_inline_validation : Crypto → Rules → Db → List PendingRecord → Bool
invoke_inline_validation crypto rules db [] = true
invoke_inline_validation crypto rules db (r ∷ records) =
    let rest = invoke_inline_validation crypto rules db records in
    if ops_accepted rules db r (action_to_op_types (stored_action_to_client_action crypto r.action))
    then rest
    else false
