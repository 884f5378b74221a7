-- ===== src/Dht/Tracker.antt =====
-- packages/core/src/dht/publish-tracker.ts: the table of operations that wait to be published, in
-- an IndexedDB object store with the key `id`. Rows hold the operation itself, where the program
-- holds its JSON text. The transactions of IndexedDB are taken to succeed. Rows
-- are read in the order in which their ids came, where IndexedDB reads them in the order of the ids.
pub mod Updates
pub mod Counting
pub mod Resetting
pub mod Queueing
pub mod Table
use holo_web_conductor.Common.{
  ℕ, suc, ◌+◌, Bool, true, false, ◌&&◌, Option, none, some, List, [], ◌∷◌, Bytes, Text,
  if◌then◌else◌, map, keep, any, seq_eq,
}
use holo_web_conductor.Common.JsMap
use holo_web_conductor.Common.JsMap.{JsMap}
use holo_web_conductor.Dht.OpTypes.{ChainOp, ChainRecord}
use holo_web_conductor.Dht.Produce.{
  BasisResult, ok, wrong_action, compute_op_basis, produce_ops_from_record, get_op_action, op_type,
}

-- `PublishStatus` of dht-op-types.ts
pub data PublishStatus : Type 0 where
  pending in_flight published failed : PublishStatus

-- `StorablePendingPublish`
pub record Row : Type 0 where
  pub id : Text
  pub op : ChainOp
  pub basis : Bytes
  pub status : PublishStatus
  pub retry_count : ℕ
  pub last_attempt : ℕ
  pub error : Option Text
  pub dna_hash_str : Text
  pub created_at : ℕ

-- `PendingPublish` of dht-op-types.ts
pub record PendingPublish : Type 0 where
  pub id : Text
  pub op : ChainOp
  pub basis : Bytes
  pub status : PublishStatus
  pub retry_count : ℕ
  pub last_attempt : ℕ
  pub error : Option Text

abbrev pub Store : Type 0
Store = JsMap Row

abbrev pub status_eq : PublishStatus → PublishStatus → Bool
status_eq pending pending = true
status_eq in_flight in_flight = true
status_eq published published = true
status_eq failed failed = true
status_eq _ _ = false

-- What a read gives back of a row.
unfoldable pub to_pending : Row → PendingPublish
to_pending r = record {
  id = r.id;
  op = r.op;
  basis = r.basis;
  status = r.status;
  retry_count = r.retry_count;
  last_attempt = r.last_attempt;
  error = r.error;
}

-- The row that `storePendingPublish` writes.
unfoldable pub to_row : PendingPublish → Text → ℕ → Row
to_row p dna now = record {
  id = p.id;
  op = p.op;
  basis = p.basis;
  status = p.status;
  retry_count = p.retry_count;
  last_attempt = p.last_attempt;
  error = p.error;
  dna_hash_str = dna;
  created_at = now;
}

-- `storePendingPublish`, with the text of the DNA hash and the time of the call.
unfoldable pub store_pending_publish : PendingPublish → Text → ℕ → Store → Store
unfolding to_row
store_pending_publish p dna now s = JsMap.set p.id (to_row p dna now) s

-- `getPendingPublish`
unfoldable pub get_pending_publish : Text → Store → Option PendingPublish
get_pending_publish id s = elim (JsMap.get id s) [ none ↦ none | some r ↦ some (to_pending r) ]

abbrev pub rows : Store → List Row
rows = map (λ e. e.1)

-- `getPendingByStatus`
unfoldable pub get_pending_by_status : PublishStatus → Store → List PendingPublish
get_pending_by_status status s = map to_pending (keep (λ r. status_eq r.status status) (rows s))

abbrev pub has_status : Option PublishStatus → Row → Bool
has_status none r = true
has_status (some status) r = status_eq r.status status

-- `getPendingForDna`; the status is optional.
unfoldable pub get_pending_for_dna : Text → Option PublishStatus → Store → List PendingPublish
get_pending_for_dna dna status s =
    map to_pending (keep (λ r. seq_eq r.dna_hash_str dna && has_status status r) (rows s))

abbrev next_error : Option Text → Option Text → Option Text
next_error none old = old
next_error (some e) old = some e

abbrev next_count : PublishStatus → ℕ → ℕ
next_count failed n = suc n
next_count _ n = n

-- The row that `updateStatus` writes.
unfoldable pub updated_row : PublishStatus → Option Text → ℕ → Row → Row
updated_row status error now r = record r {
  status = status;
  last_attempt = now;
  error = next_error error r.error;
  retry_count = next_count status r.retry_count;
}

-- `updateStatus`; an unknown id changes nothing.
unfoldable pub update_status : Text → PublishStatus → Option Text → ℕ → Store → Store
unfolding updated_row
update_status id status error now s = elim (JsMap.get id s) [
  | none ↦ s
  | some r ↦ JsMap.set id (updated_row status error now r) s
]

-- `removePendingPublish`
unfoldable pub remove_pending_publish : Text → Store → Store
remove_pending_publish id s = JsMap.delete id s

-- `clear`
unfoldable pub clear : Store → Store
clear s = []

pub record Counts : Type 0 where
  pub pending : ℕ
  pub in_flight : ℕ
  pub published : ℕ
  pub failed : ℕ

abbrev pub no_counts : Counts
no_counts = record { pending = 0; in_flight = 0; published = 0; failed = 0 }

count_one : PublishStatus → Counts → Counts
count_one pending c = record c { pending = suc c.pending }
count_one in_flight c = record c { in_flight = suc c.in_flight }
count_one published c = record c { published = suc c.published }
count_one failed c = record c { failed = suc c.failed }

count_rows : Counts → List Row → Counts
count_rows c [] = c
count_rows c (r ∷ rs) = count_rows (count_one r.status c) rs

-- `getStatusCounts`
unfoldable pub get_status_counts : Store → Counts
unfolding count_rows count_one
get_status_counts s = count_rows no_counts (rows s)

-- `dnaHashStrings.has(str)`
abbrev pub has_dna : List Text → Text → Bool
has_dna dnas str = any (λ d. seq_eq d str) dnas

pub record DnaCounts : Type 0 where
  pub pending : ℕ
  pub in_flight : ℕ
  pub failed : ℕ

count_for_dna : PublishStatus → DnaCounts → DnaCounts
count_for_dna pending c = record c { pending = suc c.pending }
count_for_dna in_flight c = record c { in_flight = suc c.in_flight }
count_for_dna published c = c
count_for_dna failed c = record c { failed = suc c.failed }

count_for_dnas : List Text → DnaCounts → List Row → DnaCounts
count_for_dnas dnas c [] = c
count_for_dnas dnas c (r ∷ rs) =
    count_for_dnas dnas (if has_dna dnas r.dna_hash_str then count_for_dna r.status c else c) rs

-- `getStatusCountsForDnas`
unfoldable pub get_status_counts_for_dnas : List Text → Store → DnaCounts
unfolding count_for_dnas count_for_dna
get_status_counts_for_dnas dnas s =
    count_for_dnas dnas (record { pending = 0; in_flight = 0; failed = 0 }) (rows s)

is_reset : List Text → Row → Bool
is_reset dnas r = has_dna dnas r.dna_hash_str && status_eq r.status failed

reset_row : Row → Row
reset_row r = record r { status = pending; error = none; retry_count = 0 }

-- The cursor's walk: each row that fits is written back at its place, and counted.
reset_from : List Text → ℕ → Store → ℕ × Store
reset_from dnas n [] = (n, [])
reset_from dnas n ((k, r) ∷ s) =
    let hit = is_reset dnas r in
    let (n', s') = reset_from dnas (if hit then suc n else n) s in
    (n', (k, if hit then reset_row r else r) ∷ s')

-- `resetFailedForDnas`
unfoldable pub reset_failed_for_dnas : List Text → Store → ℕ × Store
unfolding reset_from is_reset reset_row
reset_failed_for_dnas dnas s = reset_from dnas 0 s

-- The outcome of a queueing: the ids, or the error of an operation with no basis, at which the
-- loop stops with the earlier operations stored.
pub data Queued : Type 0 where
  ids : List Text → Queued
  no_basis : Queued

abbrev add_id : Text → Queued × Store → Queued × Store
add_id id (ids l, s) = (ids (id ∷ l), s)
add_id id (no_basis, s) = (no_basis, s)

-- The loop of `queueRecordForPublish`. `fresh` gives the ids of `generateId` and `clock` the times,
-- one for each operation.
queue_ops : (ℕ → Text) → (ℕ → ℕ) → Text → Bytes → List ChainOp → ℕ → Store → Queued × Store
queue_ops fresh clock dna hash [] i s = (ids [], s)
queue_ops fresh clock dna hash (op ∷ ops) i s =
    elim (compute_op_basis (op_type op) (get_op_action op) hash) [
      | wrong_action t ↦ (no_basis, s)
      | ok basis ↦ add_id (fresh i) (
          queue_ops fresh clock dna hash ops (suc i) (
            store_pending_publish
              (record {
                id = fresh i;
                op = op;
                basis = basis;
                status = pending;
                retry_count = 0;
                last_attempt = 0;
                error = none;
              })
              dna (clock i) s))
    ]

-- `queueRecordForPublish`
unfoldable pub queue_record_for_publish :
    (ℕ → Text) → (ℕ → ℕ) → ChainRecord → Text → Store → Queued × Store
unfolding queue_ops store_pending_publish
queue_record_for_publish fresh clock r dna s =
    queue_ops fresh clock dna r.hash (produce_ops_from_record r) 0 s
