-- ===== src/Dht/Produce/Kinds.antt =====
-- Which operations a record gives, in full and in their light form, and where they go.
use holo_web_conductor.Common.{List, [], ◌∷◌, Bool, true, false, ◌≡◌, Bytes, arith, All, map}
use holo_web_conductor.Dht.OpTypes.{
  ChainRecord, ChainOpType, store_record, store_entry, register_agent_activity,
  register_updated_content, register_updated_record, register_deleted_by,
  register_deleted_entry_action, register_add_link, register_remove_link, ChainOpLite,
  store_record_lite, store_entry_lite, register_agent_activity_lite, register_updated_content_lite,
  register_updated_record_lite, register_deleted_by_lite, register_deleted_entry_action_lite,
  register_add_link_lite, register_remove_link_lite, action_to_op_types, get_record_entry,
  is_new_entry_action, op_types_of, ActionBody, dna, open_chain, close_chain, agent_validation_pkg,
  init_zomes_complete, create, update, delete, create_link, delete_link, unknown, RecordEntry,
  present, hidden, na, not_stored,
}
use holo_web_conductor.Dht.Produce.{
  BasisResult, ok, wrong_action, compute_op_basis, produce_ops_from_record,
  produce_op_lites_from_record, get_op_action, op_type,
}

-- The types of the operations of an action, in their order, where the record holds an entry or not.
abbrev pub types_for : ActionBody → (holds_entry : Bool) → List ChainOpType
types_for dna _ = store_record ∷ register_agent_activity ∷ []
types_for open_chain _ = store_record ∷ register_agent_activity ∷ []
types_for close_chain _ = store_record ∷ register_agent_activity ∷ []
types_for agent_validation_pkg _ = store_record ∷ register_agent_activity ∷ []
types_for init_zomes_complete _ = store_record ∷ register_agent_activity ∷ []
types_for (create e) true = store_record ∷ register_agent_activity ∷ store_entry ∷ []
types_for (create e) false = store_record ∷ register_agent_activity ∷ []
types_for (update e a o) true =
    store_record ∷ register_agent_activity ∷ store_entry ∷ register_updated_content
    ∷ register_updated_record ∷ []
types_for (update e a o) false =
    store_record ∷ register_agent_activity ∷ register_updated_content ∷ register_updated_record ∷ []
types_for (delete a e) _ =
    store_record ∷ register_agent_activity ∷ register_deleted_by ∷ register_deleted_entry_action
    ∷ []
types_for (create_link b t) _ = store_record ∷ register_agent_activity ∷ register_add_link ∷ []
types_for (delete_link b l) _ = store_record ∷ register_agent_activity ∷ register_remove_link ∷ []
types_for (unknown type) _ = store_record ∷ register_agent_activity ∷ []

abbrev pub holds_entry : RecordEntry → Bool
holds_entry (present e) = true
holds_entry hidden = false
holds_entry na = false
holds_entry not_stored = false

-- The operations of a record have the types of this table, in its order: StoreRecord and
-- RegisterAgentActivity for every action, StoreEntry for a Create or an Update whose entry the
-- record holds, RegisterUpdatedContent and RegisterUpdatedRecord for an Update, RegisterDeletedBy
-- and RegisterDeletedEntryAction for a Delete, RegisterAddLink for a CreateLink, and
-- RegisterRemoveLink for a DeleteLink.
pub produce-op_types :
    (r : ChainRecord)
    → map op_type (produce_ops_from_record r) ≡ types_for r.content.body (holds_entry r.entry)
unfolding produce_ops_from_record op_type action_to_op_types op_types_of get_record_entry
    is_new_entry_action
produce-op_types r = ground arith

abbrev pub is_ok : BasisResult → Bool
is_ok (ok b) = true
is_ok (wrong_action t) = false

-- Each operation of a record has a basis: for none does the computation throw.
pub produce-has_basis :
    (r : ChainRecord)
    → All
        (λ op. is_ok (compute_op_basis (op_type op) (get_op_action op) r.hash) ≡ true)
        (produce_ops_from_record r)
unfolding produce_ops_from_record compute_op_basis op_type get_op_action
produce-has_basis r = ground arith

abbrev pub lite_type : ChainOpLite → ChainOpType
lite_type (store_record_lite h e b) = store_record
lite_type (store_entry_lite h e b) = store_entry
lite_type (register_agent_activity_lite h b) = register_agent_activity
lite_type (register_updated_content_lite h e b) = register_updated_content
lite_type (register_updated_record_lite h e b) = register_updated_record
lite_type (register_deleted_by_lite h b) = register_deleted_by
lite_type (register_deleted_entry_action_lite h b) = register_deleted_entry_action
lite_type (register_add_link_lite h b) = register_add_link
lite_type (register_remove_link_lite h b) = register_remove_link

abbrev pub lite_basis : ChainOpLite → Bytes
lite_basis (store_record_lite h e b) = b
lite_basis (store_entry_lite h e b) = b
lite_basis (register_agent_activity_lite h b) = b
lite_basis (register_updated_content_lite h e b) = b
lite_basis (register_updated_record_lite h e b) = b
lite_basis (register_deleted_by_lite h b) = b
lite_basis (register_deleted_entry_action_lite h b) = b
lite_basis (register_add_link_lite h b) = b
lite_basis (register_remove_link_lite h b) = b

-- The light form gives one item for each type that the action asks for, none skipped, each with
-- the basis that is computed for its type.
pub produce_lites-bases :
    (r : ChainRecord)
    → map {B = ChainOpType × BasisResult}
        (λ l. (lite_type l, ok (lite_basis l)))
        (produce_op_lites_from_record r)
      ≡ map (λ t. (t, compute_op_basis t r.content r.hash)) (action_to_op_types r.content)
unfolding produce_op_lites_from_record
produce_lites-bases r = ground arith
