-- ===== src/Dht/Publish/Measure.antt =====
-- How many tries a table has left: the measure by which the queue loop ends.
use holo_web_conductor.Common.{
  ℕ, ◌+◌, ◌-◌, ◌≤◌, ◌≡◌, refl, Bool, true, false, Option, none, some, List, [], ◌∷◌, Text, arith,
  seq_eq, if◌then◌else◌,
}
use holo_web_conductor.Common.JsMap
use holo_web_conductor.Dht.Tracker.{
  PublishStatus, pending, in_flight, published, failed, Row, Store, PendingPublish, updated_row,
  update_status, remove_pending_publish,
}
use holo_web_conductor.Dht.Tracker.Updates.{map_row, get-update_status, get-remove_pending_publish}
use holo_web_conductor.Dht.Publish.Settling.{settled, settle_one_self}
use holo_web_conductor.Dht.Publish.{
  OpResult, Answer, response, thrown, shift, mark_in_flight, Verdict, done, fail, verdict,
  settle_one, first, rest, settle, fail_all, no_peers_available, finish, publish_batch, Options,
}

module _ (o : Options) where
  abbrev if_pending : PublishStatus → ℕ
  if_pending pending = 1
  if_pending _ = 0

  -- The tries that a row has left.
  abbrev pub tries : Row → ℕ
  tries r = if_pending r.status + (o.max_retries - r.retry_count)

  abbrev pub tries_of : Option Row → ℕ
  tries_of none = 0
  tries_of (some r) = tries r

  -- The tries left under a key.
  abbrev pub left : Text → Store → ℕ
  left k s = tries_of (JsMap.get k s)

  -- The tries left under some keys.
  abbrev pub work : List Text → Store → ℕ
  work [] s = 0
  work (k ∷ ks) s = left k s + work ks s

  -- Of two tables the first has no more tries left, under any key.
  abbrev pub NoMore : Store → Store → Type 0
  NoMore t s = (k : Text) → left k t ≤ left k s

  tries_of-updated :
      (status : PublishStatus) (error : Option Text) (now : ℕ) (r : Row)
      → if_pending status ≡ 0
      → tries (updated_row status error now r) ≤ tries r
  unfolding updated_row
  tries_of-updated status error now r h = ground arith

  tries_of-failed :
      (error : Option Text) (now : ℕ) (r : Row)
      → tries (updated_row failed error now r) ≤ tries r - 1
  unfolding updated_row
  tries_of-failed error now r = ground arith

  update_status-NoMore :
      (id : Text) (status : PublishStatus) (error : Option Text) (now : ℕ) (s : Store)
      → if_pending status ≡ 0
      → NoMore (update_status id status error now s) s
  update_status-NoMore id status error now s h k =
      rw (get-update_status id k status error now s) (settle_cases (seq_eq id k) (JsMap.get k s))
    where
      settle_cases :
          (b : Bool) (r : Option Row)
          → tries_of (if b then map_row (updated_row status error now) r else r) ≤ tries_of r
      settle_cases false r = omega arith
      settle_cases true none = omega arith
      settle_cases true (some r) = tries_of-updated status error now r h

  remove-NoMore : (id : Text) (s : Store) → NoMore (remove_pending_publish id s) s
  remove-NoMore id s k = ground (arith, get-remove_pending_publish id k s)

  settle_one-NoMore :
      (id : Text) (v : Verdict) (now : ℕ) (s : Store) → NoMore (settle_one id v now s) s
  unfolding settle_one
  settle_one-NoMore id done now s k = omega (
    arith,
    remove-NoMore id (update_status id published none now s) k,
    update_status-NoMore id published none now s refl k,
  )
  settle_one-NoMore id (fail m) now s k = update_status-NoMore id failed (some m) now s refl k

  -- A verdict costs its operation a try.
  settle_one-less :
      (id : Text) (v : Verdict) (now : ℕ) (s : Store)
      → left id (settle_one id v now s) ≤ left id s - 1
  settle_one-less id v now s = rw (settle_one_self id v now s) (cases v (JsMap.get id s))
    where
      cases : (v : Verdict) (r : Option Row) → tries_of (settled v now r) ≤ tries_of r - 1
      cases v none = omega arith
      cases done (some r) = omega arith
      cases (fail m) (some r) = tries_of-failed (some m) now r

  failure-less :
      (id m : Text) (now : ℕ) (s : Store)
      → left id (update_status id failed (some m) now s) ≤ left id s - 1
  unfolding settle_one
  failure-less id m now s = settle_one-less id (fail m) now s

  mark-NoMore :
      (clock : ℕ → ℕ) (items : List PendingPublish) (s : Store)
      → NoMore (mark_in_flight clock items s) s
  unfolding mark_in_flight
  mark-NoMore clock [] s k = omega arith
  mark-NoMore clock (p ∷ ps) s k = omega (
    arith,
    mark-NoMore (shift clock) ps (update_status p.id in_flight none (clock 0) s) k,
    update_status-NoMore p.id in_flight none (clock 0) s refl k,
  )

  settle-NoMore :
      (b : Bool) (clock : ℕ → ℕ) (items : List PendingPublish) (rs : List OpResult) (s : Store)
      → NoMore (settle b clock items rs s) s
  unfolding settle
  settle-NoMore b clock [] rs s k = omega arith
  settle-NoMore b clock (p ∷ ps) rs s k = omega (
    arith,
    settle-NoMore b (shift clock) ps (rest rs) (settle_one p.id (verdict b (first rs)) (clock 0) s)
        k,
    settle_one-NoMore p.id (verdict b (first rs)) (clock 0) s k,
  )

  fail_all-NoMore :
      (m : Text) (clock : ℕ → ℕ) (items : List PendingPublish) (s : Store)
      → NoMore (fail_all m clock items s) s
  unfolding fail_all
  fail_all-NoMore m clock [] s k = omega arith
  fail_all-NoMore m clock (p ∷ ps) s k = omega (
    arith,
    fail_all-NoMore m (shift clock) ps (update_status p.id failed (some m) (clock 0) s) k,
    update_status-NoMore p.id failed (some m) (clock 0) s refl k,
  )

  finish-NoMore :
      (answer : Answer) (clock : ℕ → ℕ) (items : List PendingPublish) (s : Store)
      → NoMore (finish answer clock items s) s
  unfolding finish
  finish-NoMore (response r) clock items s k =
      settle-NoMore (no_peers_available r) clock items r.results s k
  finish-NoMore (thrown m) clock items s k = fail_all-NoMore m clock items s k

  finish-less :
      (answer : Answer) (clock : ℕ → ℕ) (p : PendingPublish) (ps : List PendingPublish) (s : Store)
      → left p.id (finish answer clock (p ∷ ps) s) ≤ left p.id s - 1
  unfolding finish settle fail_all
  finish-less (response r) clock p ps s =
      let b = no_peers_available r in
      let v = verdict b (first r.results) in
      omega (
        arith,
        settle-NoMore b (shift clock) ps (rest r.results) (settle_one p.id v (clock 0) s) p.id,
        settle_one-less p.id v (clock 0) s,
      )
  finish-less (thrown m) clock p ps s = omega (
    arith,
    fail_all-NoMore m (shift clock) ps (update_status p.id failed (some m) (clock 0) s) p.id,
    failure-less p.id m (clock 0) s,
  )

  -- Publishing a batch gives no row more tries.
  pub publish_batch-NoMore :
      (marks : ℕ → ℕ) (answer : Answer) (later : ℕ → ℕ) (items : List PendingPublish) (s : Store)
      → NoMore (publish_batch marks answer later items s) s
  unfolding publish_batch
  publish_batch-NoMore marks answer later items s k = omega (
    arith,
    finish-NoMore answer later items (mark_in_flight marks items s) k,
    mark-NoMore marks items s k,
  )

  -- It costs the first operation a try, whatever the linker answers.
  pub publish_batch-less :
      (marks : ℕ → ℕ) (answer : Answer) (later : ℕ → ℕ) (p : PendingPublish)
      (ps : List PendingPublish) (s : Store)
      → left p.id (publish_batch marks answer later (p ∷ ps) s) ≤ left p.id s - 1
  unfolding publish_batch
  publish_batch-less marks answer later p ps s = omega (
    arith,
    finish-less answer later p ps (mark_in_flight marks (p ∷ ps) s),
    mark-NoMore marks (p ∷ ps) s p.id,
  )
