-- ===== src/Dht/Publish/Queue.antt =====
-- What one round of the queue loop does to the table and to the tries that it has left.
use holo_web_conductor.Common.{
  ℕ, suc, ◌-◌, ◌≤◌, ◌≡◌, Bool, ◌&&◌, none, some, List, [], ◌∷◌, Text, arith, All, All-append, map,
  keep, seq_eq,
}
use holo_web_conductor.Dht.Tracker.{
  pending, in_flight, published, failed, Row, Store, PendingPublish, rows, status_eq, to_pending,
  get_pending_for_dna,
}
use holo_web_conductor.Dht.Tracker.Table.{
  IsTable, IsFound, rows-IsFound, update_status-IsTable, remove_pending_publish-IsTable,
}
use holo_web_conductor.Dht.Publish.{
  Batch, OpResult, Answer, response, thrown, shift, mark_in_flight, Verdict, done, fail, verdict,
  settle_one, first, rest, settle, fail_all, no_peers_available, finish, publish_batch, Exchange,
  publish_batches, Options, retryable, ops_to_publish,
}
use holo_web_conductor.Dht.Publish.Measure.{left, NoMore, publish_batch-NoMore, publish_batch-less}

mark-IsTable :
    (clock : ℕ → ℕ) (items : List PendingPublish) (s : Store)
    → IsTable s
    → IsTable (mark_in_flight clock items s)
unfolding mark_in_flight
mark-IsTable clock [] s h = h
mark-IsTable clock (p ∷ ps) s h =
    mark-IsTable (shift clock) ps _ (update_status-IsTable p.id in_flight none (clock 0) s h)

settle_one-IsTable :
    (id : Text) (v : Verdict) (now : ℕ) (s : Store) → IsTable s → IsTable (settle_one id v now s)
unfolding settle_one
settle_one-IsTable id done now s h =
    remove_pending_publish-IsTable id _ (update_status-IsTable id published none now s h)
settle_one-IsTable id (fail m) now s h = update_status-IsTable id failed (some m) now s h

settle-IsTable :
    (b : Bool) (clock : ℕ → ℕ) (items : List PendingPublish) (rs : List OpResult) (s : Store)
    → IsTable s
    → IsTable (settle b clock items rs s)
unfolding settle
settle-IsTable b clock [] rs s h = h
settle-IsTable b clock (p ∷ ps) rs s h =
    settle-IsTable b (shift clock) ps (rest rs) _
      (settle_one-IsTable p.id (verdict b (first rs)) (clock 0) s h)

fail_all-IsTable :
    (m : Text) (clock : ℕ → ℕ) (items : List PendingPublish) (s : Store)
    → IsTable s
    → IsTable (fail_all m clock items s)
unfolding fail_all
fail_all-IsTable m clock [] s h = h
fail_all-IsTable m clock (p ∷ ps) s h =
    fail_all-IsTable m (shift clock) ps _ (update_status-IsTable p.id failed (some m) (clock 0) s h)

finish-IsTable :
    (answer : Answer) (clock : ℕ → ℕ) (items : List PendingPublish) (s : Store)
    → IsTable s
    → IsTable (finish answer clock items s)
unfolding finish
finish-IsTable (response r) clock items s h =
    settle-IsTable (no_peers_available r) clock items r.results s h
finish-IsTable (thrown m) clock items s h = fail_all-IsTable m clock items s h

-- Publishing a batch keeps the keys distinct, each the id of its row.
pub publish_batch-IsTable :
    (marks : ℕ → ℕ) (answer : Answer) (later : ℕ → ℕ) (items : List PendingPublish) (s : Store)
    → IsTable s
    → IsTable (publish_batch marks answer later items s)
unfolding publish_batch
publish_batch-IsTable marks answer later items s h =
    finish-IsTable answer later items _ (mark-IsTable marks items s h)

pub publish_batches-IsTable :
    (world : ℕ → Exchange) (bs : List Batch) (s : Store)
    → IsTable s
    → IsTable (publish_batches world bs s)
unfolding publish_batches
publish_batches-IsTable world [] s h = h
publish_batches-IsTable world (b ∷ bs) s h =
    publish_batches-IsTable (λ n. world (suc n)) bs _
      (publish_batch-IsTable (world 0).marks (world 0).answer (world 0).later b.items s h)

module _ (o : Options) where
  pub publish_batches-NoMore :
      (world : ℕ → Exchange) (bs : List Batch) (s : Store) → NoMore o (publish_batches world bs s) s
  unfolding publish_batches
  publish_batches-NoMore world [] s k = omega arith
  publish_batches-NoMore world (b ∷ bs) s k =
      let x = world 0 in
      omega (
        arith,
        publish_batches-NoMore (λ n. world (suc n)) bs
            (publish_batch x.marks x.answer x.later b.items s) k,
        publish_batch-NoMore o x.marks x.answer x.later b.items s k,
      )

  pub publish_batches-less :
      (world : ℕ → Exchange) (b : Batch) (bs : List Batch) (s : Store) (p : PendingPublish)
      (ps : List PendingPublish)
      → b.items ≡ p ∷ ps
      → left o p.id (publish_batches world (b ∷ bs) s) ≤ left o p.id s - 1
  unfolding publish_batches
  publish_batches-less world b bs s p ps e =
      let x = world 0 in
      let less : left o p.id (publish_batch x.marks x.answer x.later b.items s)
          ≤ left o p.id s - 1 =
        rw e (publish_batch-less o x.marks x.answer x.later p ps s) in
      omega (
        arith,
        less,
        publish_batches-NoMore (λ n. world (suc n)) bs
            (publish_batch x.marks x.answer x.later b.items s) p.id,
      )

  -- A publish whose row has tries left.
  abbrev pub HasTries : Store → PendingPublish → Type 0
  HasTries s p = 1 ≤ left o p.id s

  pending_found :
      (dna : Text) (s : Store) (rs : List Row)
      → All (IsFound s) rs
      → All
          (HasTries s)
          (map to_pending (keep (λ r. seq_eq r.dna_hash_str dna && status_eq r.status pending) rs))
  unfolding to_pending
  pending_found dna s [] h = tt
  pending_found dna s (r ∷ rs) h = ground (arith, pending_found dna s rs h.1)

  failed_found :
      (now : PendingPublish → ℕ) (dna : Text) (s : Store) (rs : List Row)
      → All (IsFound s) rs
      → All (HasTries s) (
          keep (retryable o now) (
            map to_pending (keep (λ r. seq_eq r.dna_hash_str dna && status_eq r.status failed) rs)))
  unfolding to_pending retryable
  failed_found now dna s [] h = tt
  failed_found now dna s (r ∷ rs) h = ground (arith, failed_found now dna s rs h.1)

  pub ops_to_publish-HasTries :
      (now : PendingPublish → ℕ) (dna : Text) (s : Store)
      → IsTable s
      → All (HasTries s) (ops_to_publish o now dna s)
  unfolding ops_to_publish get_pending_for_dna
  ops_to_publish-HasTries now dna s h =
      All-append (HasTries s) _ _ (pending_found dna s (rows s) (rows-IsFound s h))
        (failed_found now dna s (rows s) (rows-IsFound s h))
