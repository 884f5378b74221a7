-- ===== src/Dht/Produce/Carried.antt =====
-- What the operations of a record carry: its action, its signature, and its entry or none.
use holo_web_conductor.Common.{true, ◌≡◌, ◌⊎◌, Option, none, some, arith, All}
use holo_web_conductor.Dht.OpTypes.{
  Entry, ChainRecord, ChainOp, store_record_op, store_entry_op, register_updated_content_op,
  register_updated_record_op, get_record_entry, is_new_entry_action,
}
use holo_web_conductor.Dht.Produce.{produce_ops_from_record, get_op_action, get_op_signature}

-- Every operation carries the action and the signature of its record, unchanged.
pub produce-carries_action :
    (r : ChainRecord)
    → All
        (λ op. (get_op_action op ≡ r.content) × (get_op_signature op ≡ r.signature))
        (produce_ops_from_record r)
unfolding produce_ops_from_record get_op_action get_op_signature
produce-carries_action r = ground arith

-- The entry that an operation makes public.
abbrev pub op_entry : ChainOp → Option Entry
unfolding get_record_entry
op_entry (store_record_op s a e) = get_record_entry e
op_entry (store_entry_op s a e) = some e
op_entry (register_updated_content_op s a e) = get_record_entry e
op_entry (register_updated_record_op s a e) = get_record_entry e
op_entry _ = none

-- An entry that an operation makes public is the record's own, held as present, and the action is
-- a Create or an Update.
pub produce-entry_disclosed :
    (r : ChainRecord)
    → All
        (λ op.
          (op_entry op ≡ none)
          ⊎ ((op_entry op ≡ get_record_entry r.entry) × (is_new_entry_action r.content ≡ true)))
        (produce_ops_from_record r)
unfolding produce_ops_from_record op_entry is_new_entry_action get_record_entry
produce-entry_disclosed r = ground arith

-- A hidden, absent or unstored entry is in no operation.
pub produce-private_entry :
    (r : ChainRecord)
    → get_record_entry r.entry ≡ none
    → All (λ op. op_entry op ≡ none) (produce_ops_from_record r)
unfolding produce_ops_from_record op_entry get_record_entry
produce-private_entry r h = ground arith
