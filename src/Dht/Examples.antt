-- ===== src/Dht/Examples.antt =====
-- Witnesses and tests on a small table of operations.
use holo_web_conductor.Common.{
  any, ◌&&◌, if◌then◌else◌, ℕ, ◌+◌, ◌≡◌, refl, true, false, none, some, [], ◌∷◌, Bytes, Text, arith,
  All, codes, map, ◌⊎◌, seq_eq,
}
use holo_web_conductor.Common.JsMap
use holo_web_conductor.Dht.OpTypes.{
  create, Entry, present, hidden, ChainRecord, ChainOp, register_agent_activity_op,
  get_record_entry, store_record, register_agent_activity, is_new_entry_action,
}
use holo_web_conductor.Dht.Produce.{
  ok, compute_op_basis, op_type, get_op_action, produce_ops_from_record,
}
use holo_web_conductor.Dht.Produce.Carried.{op_entry, produce-entry_disclosed}
use holo_web_conductor.Dht.Produce.Kinds.{produce-op_types}
use holo_web_conductor.Dht.Tracker.{
  has_dna, status_eq, pending, failed, Row, Store, to_pending, get_status_counts_for_dnas,
  reset_failed_for_dnas, queue_record_for_publish, get_pending_for_dna,
}
use holo_web_conductor.Dht.Tracker.Queueing.{queue_record-rows}
use holo_web_conductor.Dht.Tracker.Counting.{reset_failed-counts}
use holo_web_conductor.Dht.Tracker.Updates.{map_row}
use holo_web_conductor.Dht.Tracker.Table.{IsTable}
use holo_web_conductor.Dht.Publish.{
  Options, Payload, thrown, batch_ops_by_size, publish_batch, Round, process_queue,
}
use holo_web_conductor.Dht.Publish.Batches.{all_items, IsBatch, batch_ops_by_size_lem}
use holo_web_conductor.Dht.Publish.Outcome.{publish_batch-at}
use holo_web_conductor.Dht.Publish.Ending.{process_queue-returns}
use holo_web_conductor.Dht.Retry.{retry_publishes_after_reconnect}
use holo_web_conductor.Dht.Retry.First.{retry_publishes-first}
use holo_web_conductor.Network.WebSocket.Messages.{Registration}

abbrev note : Entry
note = record { entry_type = codes "App"; entry = 1 ∷ 2 ∷ [] }

abbrev author : Bytes
author = 7 ∷ []

abbrev created : ChainRecord
created = record {
  hash = 10 ∷ [];
  content = record { author = author; timestamp = 5; body = create (20 ∷ []) };
  signature = 99 ∷ [];
  entry = present note;
}

abbrev private_note : ChainRecord
private_note = record created { entry = hidden }

abbrev failed_row : Row
failed_row = record {
  id = 1 ∷ [];
  op = register_agent_activity_op (99 ∷ []) created.content;
  basis = author;
  status = failed;
  retry_count = 2;
  last_attempt = 100;
  error = some (codes "no peers");
  dna_hash_str = codes "dna";
  created_at = 3;
}

abbrev pending_row : Row
pending_row = record failed_row {
  id = 2 ∷ [];
  status = pending;
  retry_count = 0;
  last_attempt = 0;
  error = none;
}

abbrev table : Store
table = (1 ∷ [], failed_row) ∷ (2 ∷ [], pending_row) ∷ []

table-IsTable : IsTable table
table-IsTable = record { distinct = ((λ e. cc, tt), (tt, tt)); keyed = (refl, (refl, tt)) }

abbrev options : Options
options = record { max_retries = 5; base_delay_ms = 1000; max_delay_ms = 60000 }

-- The linker never answers, and the clock stands at a million.
abbrev world : ℕ → Round
world n = record {
  now = λ p. 1000000;
  exchanges =
      λ k. record { marks = λ i. 1000000; answer = thrown (codes "offline"); later = λ i. 1000000 };
}

abbrev serialize : ChainOp → Payload
serialize op = record { op_data = codes "op"; signature = codes "sig" }

produce-entry_disclosed_example :
    All
      (λ op.
        (op_entry op ≡ none)
        ⊎ ((op_entry op ≡ get_record_entry created.entry)
            × (is_new_entry_action created.content ≡ true)))
      (produce_ops_from_record created)
produce-entry_disclosed_example = produce-entry_disclosed created

produce-op_types_example :
    map op_type (produce_ops_from_record private_note) ≡ store_record ∷ register_agent_activity ∷ []
produce-op_types_example = produce-op_types private_note

abbrev ids_of : ℕ → Text
ids_of n = n ∷ []

queue_record-rows_example :
    (b : Bytes) × (compute_op_basis register_agent_activity created.content (10 ∷ []) ≡ ok b)
    × (JsMap.get (1 ∷ []) (queue_record_for_publish ids_of (λ n. 50) created (codes "dna") []).1
        ≡ some (record {
          id = 1 ∷ [];
          op = register_agent_activity_op (99 ∷ []) created.content;
          basis = b;
          status = pending;
          retry_count = 0;
          last_attempt = 0;
          error = none;
          dna_hash_str = codes "dna";
          created_at = 50;
        }))
unfolding op_type get_op_action produce_ops_from_record
queue_record-rows_example =
    queue_record-rows ids_of (λ n. 50) created (codes "dna") [] 1
      (register_agent_activity_op (99 ∷ []) created.content) (λ m n e. ground arith) refl

reset_failed-counts_example :
    let before = get_status_counts_for_dnas (codes "dna" ∷ []) table in
    let (n, s') = reset_failed_for_dnas (codes "dna" ∷ []) table in
    let after = get_status_counts_for_dnas (codes "dna" ∷ []) s' in
    (n ≡ before.failed)
    × (after.failed ≡ 0)
    × (after.pending ≡ before.pending + before.failed)
    × (after.in_flight ≡ before.in_flight)
    × ((k : Text)
        → JsMap.get k s'
          ≡ map_row
              (λ r.
                if has_dna (codes "dna" ∷ []) r.dna_hash_str && status_eq r.status failed
                then record r { status = pending; error = none; retry_count = 0 }
                else r)
              (JsMap.get k table))
reset_failed-counts_example = reset_failed-counts (codes "dna" ∷ []) table

batch_ops_by_size_example :
    (all_items (batch_ops_by_size serialize (to_pending failed_row ∷ []))
      ≡ to_pending failed_row ∷ [])
    × All
        (λ c. IsBatch serialize c.items c.serialized)
        (batch_ops_by_size serialize (to_pending failed_row ∷ []))
batch_ops_by_size_example = batch_ops_by_size_lem serialize (to_pending failed_row ∷ [])

publish_batch-at_example :
    JsMap.get (2 ∷ []) (
      publish_batch
        (λ i. 200)
        (thrown (codes "offline"))
        (λ i. 300)
        (to_pending failed_row ∷ to_pending pending_row ∷ [])
        table)
    ≡ some (record pending_row {
      status = failed;
      retry_count = 1;
      last_attempt = 300;
      error = some (codes "offline");
    })
unfolding to_pending JsMap.get seq_eq
publish_batch-at_example =
    publish_batch-at (λ i. 200) (thrown (codes "offline")) (λ i. 300)
      (to_pending failed_row ∷ to_pending pending_row ∷ []) table 1 (to_pending pending_row)
      pending_row ((λ e. cc, tt), (tt, tt)) refl refl

process_queue-returns_example :
    (s' : Store) × (process_queue options serialize (codes "dna") world 13 (false, table)
      ≡ some (false, s'))
    × IsTable s'
    × (get_pending_for_dna (codes "dna") (some pending) s' ≡ [])
process_queue-returns_example =
    process_queue-returns options serialize (codes "dna") world 13 table table-IsTable (omega arith)

abbrev first_registration : Registration
first_registration = record { dna_hash = codes "dna"; agent_pubkey = codes "a" }

abbrev second_registration : Registration
second_registration = record { dna_hash = codes "and"; agent_pubkey = codes "a" }

retry_publishes-first_example :
    (v : Store) × ((k : Text)
      → JsMap.get k v
        ≡ map_row
            (λ row.
              if any
                  (λ g. seq_eq g.dna_hash row.dna_hash_str)
                  (first_registration ∷ second_registration ∷ [])
                && status_eq row.status failed
              then record row { status = pending; error = none; retry_count = 0 }
              else row)
            (JsMap.get k table))
    × ((w : Store) × (retry_publishes_after_reconnect options serialize
            (λ dna. world)
            13
            (first_registration ∷ second_registration ∷ [])
            (false, table)
          ≡ some (false, w))
        × (process_queue options serialize (codes "dna") world 13 (false, v) ≡ some (false, w))
        × IsTable w
        × (get_pending_for_dna (codes "dna") (some pending) w ≡ []))
retry_publishes-first_example =
    retry_publishes-first options serialize (λ dna. world) 13 first_registration
      (second_registration ∷ []) table table-IsTable (omega arith)
