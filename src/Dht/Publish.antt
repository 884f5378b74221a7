-- ===== src/Dht/Publish.antt =====
-- packages/core/src/dht/publish-service.ts: batches of operations, one exchange with the linker for
-- each, and the queue loop. The serialised operations (msgpack and base64), the clock and the
-- linker's answers are arguments.
pub mod Batches
pub mod Backoff
pub mod Settling
pub mod Outcome
pub mod Measure
pub mod Queue
pub mod Ending
pub mod Manual
use holo_web_conductor.Common.{
  ℕ, zero, suc, ◌+◌, ◌-◌, ◌*◌, ◌^◌, min, Bool, true, false, ◌&&◌, Option, none, some, List, [], ◌∷◌,
  ◌++◌, Bytes, Text, if◌then◌else◌, leb, ltb, ◌==◌, length, keep, map, or_else, codes,
}
use holo_web_conductor.Dht.OpTypes.{ChainOp}
use holo_web_conductor.Dht.Tracker.{
  PublishStatus, pending, in_flight, published, failed, Store, PendingPublish, get_pending_for_dna,
  update_status, remove_pending_publish,
}

-- `PublishServiceOptions`, as far as the queue reads them.
pub record Options : Type 0 where
  pub max_retries : ℕ
  pub base_delay_ms : ℕ
  pub max_delay_ms : ℕ

-- `SignedDhtOpPayload`
pub record Payload : Type 0 where
  pub op_data : Text
  pub signature : Text

-- A batch: `items` and `serialized`.
pub record Batch : Type 0 where
  pub items : List PendingPublish
  pub serialized : List Payload

-- `LinkerPublishResponse`
pub record OpResult : Type 0 where
  pub success : Bool
  pub error : Option Text

pub record LinkerPublishResponse : Type 0 where
  pub queued : ℕ
  pub published : ℕ
  pub results : List OpResult

-- What `sendToLinker` gives: a response, or the message of what it throws.
pub data Answer : Type 0 where
  response : LinkerPublishResponse → Answer
  thrown : Text → Answer

-- `isReadyForRetry`; `Date.now() - lastAttempt` may be negative, so it is compared by addition.
unfoldable pub is_ready_for_retry : Options → ℕ → ℕ → ℕ → Bool
is_ready_for_retry o now last_attempt retry_count =
    if last_attempt == 0
    then true
    else leb (last_attempt + min (o.base_delay_ms * 2 ^ retry_count) o.max_delay_ms) now

abbrev pub batch_size_limit : ℕ
batch_size_limit = 4 * 1024 * 1024

-- The variables of the loop in `batchOpsBySize`.
pub record Batching : Type 0 where
  pub batches : List Batch
  pub items : List PendingPublish
  pub serialized : List Payload
  pub size : ℕ

abbrev pub op_size : Payload → ℕ
op_size p = length p.op_data + length p.signature

abbrev pub is_empty {ℓ} : {A : Type ℓ} → List A → Bool
is_empty [] = true
is_empty (x ∷ xs) = false

finalize : Batching → Batching
finalize b = record {
  batches = b.batches ++ record { items = b.items; serialized = b.serialized } ∷ [];
  items = [];
  serialized = [];
  size = 0;
}

add_op : PendingPublish → Payload → Batching → Batching
add_op item payload b = record b {
  items = b.items ++ item ∷ [];
  serialized = b.serialized ++ payload ∷ [];
  size = b.size + op_size payload;
}

-- One round of the loop.
batch_one : PendingPublish → Payload → Batching → Batching
batch_one item payload b = add_op item payload (
    if is_empty b.items
    then b
    else if ltb batch_size_limit (b.size + op_size payload)
    then finalize b
    else b)

batch_loop : (ChainOp → Payload) → List PendingPublish → Batching → Batching
batch_loop serialize [] b = b
batch_loop serialize (item ∷ ops) b =
    batch_loop serialize ops (batch_one item (serialize item.op) b)

abbrev last_batch : Batching → List Batch
last_batch b = if is_empty b.items then b.batches else (finalize b).batches

-- `batchOpsBySize`
unfoldable pub batch_ops_by_size : (ChainOp → Payload) → List PendingPublish → List Batch
unfolding batch_loop batch_one add_op finalize
batch_ops_by_size serialize ops =
    last_batch
      (batch_loop serialize ops (record { batches = []; items = []; serialized = []; size = 0 }))

abbrev pub shift : (ℕ → ℕ) → ℕ → ℕ
shift clock n = clock (suc n)

-- The first loop of `publishBatch`; `clock` gives the time of each call of `updateStatus`.
unfoldable pub mark_in_flight : (ℕ → ℕ) → List PendingPublish → Store → Store
mark_in_flight clock [] s = s
mark_in_flight clock (item ∷ items) s =
    mark_in_flight (shift clock) items (update_status item.id in_flight none (clock 0) s)

abbrev pub no_peers_message : Text
no_peers_message = codes "No DHT peers available - stored but not published"

abbrev pub unknown_error : Text
unknown_error = codes "Unknown error"

-- What becomes of an operation: published, or failed with a message.
pub data Verdict : Type 0 where
  done : Verdict
  fail : Text → Verdict

unfoldable pub verdict : Bool → Option OpResult → Verdict
verdict no_peers none = fail unknown_error
verdict no_peers (some r) =
    if r.success
    then if no_peers then fail no_peers_message else done
    else fail (or_else r.error unknown_error)

pub settle_one : Text → Verdict → ℕ → Store → Store
settle_one id done now s = remove_pending_publish id (update_status id published none now s)
settle_one id (fail message) now s = update_status id failed (some message) now s

abbrev first {ℓ} : {A : Type ℓ} → List A → Option A
first [] = none
first (x ∷ xs) = some x

abbrev rest {ℓ} : {A : Type ℓ} → List A → List A
rest [] = []
rest (x ∷ xs) = xs

-- The loop over the results; a missing one counts as a failure.
pub settle : Bool → (ℕ → ℕ) → List PendingPublish → List OpResult → Store → Store
unfolding settle_one verdict
settle no_peers clock [] results s = s
settle no_peers clock (item ∷ items) results s =
    settle no_peers (shift clock) items (rest results)
      (settle_one item.id (verdict no_peers (first results)) (clock 0) s)

-- The loop of the `catch` block.
pub fail_all : Text → (ℕ → ℕ) → List PendingPublish → Store → Store
fail_all message clock [] s = s
fail_all message clock (item ∷ items) s =
    fail_all message (shift clock) items (update_status item.id failed (some message) (clock 0) s)

abbrev no_peers_available : LinkerPublishResponse → Bool
no_peers_available r = ltb 0 r.queued && (r.published == 0)

finish : Answer → (ℕ → ℕ) → List PendingPublish → Store → Store
unfolding settle fail_all
finish (response r) clock items s = settle (no_peers_available r) clock items r.results s
finish (thrown message) clock items s = fail_all message clock items s

-- `publishBatch`, with the times of the marks and of the later updates, and the linker's answer.
unfoldable pub publish_batch : (ℕ → ℕ) → Answer → (ℕ → ℕ) → List PendingPublish → Store → Store
unfolding mark_in_flight finish
publish_batch marks answer later items s = finish answer later items (mark_in_flight marks items s)

-- What one batch meets outside.
pub record Exchange : Type 0 where
  pub marks : ℕ → ℕ
  pub answer : Answer
  pub later : ℕ → ℕ

pub publish_batches : (ℕ → Exchange) → List Batch → Store → Store
publish_batches world [] s = s
publish_batches world (b ∷ bs) s =
    let x = world 0 in
    publish_batches (λ n. world (suc n)) bs (publish_batch x.marks x.answer x.later b.items s)

abbrev pub retryable : Options → (PendingPublish → ℕ) → PendingPublish → Bool
unfolding is_ready_for_retry
retryable o now p =
    ltb p.retry_count o.max_retries && is_ready_for_retry o (now p) p.last_attempt p.retry_count

-- The operations of one round of `processQueue`; `now` gives the time at which each is tested.
unfoldable pub ops_to_publish : Options → (PendingPublish → ℕ) → Text → Store → List PendingPublish
unfolding retryable
ops_to_publish o now dna s =
    get_pending_for_dna dna (some pending) s
    ++ keep (retryable o now) (get_pending_for_dna dna (some failed) s)

-- What one round meets outside.
pub record Round : Type 0 where
  pub now : PendingPublish → ℕ
  pub exchanges : ℕ → Exchange

-- The loop of `processQueue` with fuel, in the absence of other tasks between its awaits; `none`
-- means that the fuel ran out.
process_loop : Options → (ChainOp → Payload) → Text → (ℕ → Round) → ℕ → Store → Option Store
process_loop o serialize dna world zero s = none
process_loop o serialize dna world (suc fuel) s =
    let ops = ops_to_publish o (world 0).now dna s in
    let next =
      process_loop o serialize dna (λ n. world (suc n)) fuel
        (publish_batches (world 0).exchanges (batch_ops_by_size serialize ops) s) in
    if is_empty ops then some s else next

-- How `processQueue` begins, before it waits for anything: whether it goes on, which it does not
-- while another call is at work, and the flag that it leaves.
abbrev pub enter_queue : Bool → Bool × Bool
enter_queue true = (false, true)
enter_queue false = (true, true)

-- `processQueue`: nothing happens while another call is at work; the flag is clear afterwards.
unfoldable pub process_queue :
    Options → (ChainOp → Payload) → Text → (ℕ → Round) → ℕ → Bool × Store → Option (Bool × Store)
unfolding process_loop publish_batches
process_queue o serialize dna world fuel (busy, s) =
    let (goes_on, flag) = enter_queue busy in
    if goes_on
    then elim (process_loop o serialize dna world fuel s) [
      | none ↦ none
      | some s' ↦ some (false, s')
    ]
    else some (flag, s)

reset_all : (ℕ → ℕ) → List PendingPublish → Store → Store
reset_all clock [] s = s
reset_all clock (item ∷ items) s =
    reset_all (shift clock) items (update_status item.id pending none (clock 0) s)

-- The first half of `retryFailed`, before it processes the queue.
unfoldable pub retry_failed_marks : (ℕ → ℕ) → Text → Store → Store
unfolding reset_all
retry_failed_marks clock dna s = reset_all clock (get_pending_for_dna dna (some failed) s) s

-- `retryFailed`
unfoldable pub retry_failed :
    Options
    → (ChainOp → Payload)
    → Text
    → (ℕ → ℕ)
    → (ℕ → Round)
    → ℕ
    → Bool × Store
    → Option (Bool × Store)
retry_failed o serialize dna clock world fuel (busy, s) =
    process_queue o serialize dna world fuel (busy, retry_failed_marks clock dna s)
