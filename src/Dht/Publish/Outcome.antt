-- ===== src/Dht/Publish/Outcome.antt =====
-- What one exchange with the linker leaves in the table, on every branch.
use holo_web_conductor.Common.{
  ℕ, suc, ◌≡◌, ◌∙◌, ap, refl, Bool, ◌&&◌, ◌||◌, ◌==◌, ltb, Option, none, some, List, Text, arith,
  get_elem?, or_else, if◌then◌else◌,
}
use holo_web_conductor.Common.JsMap
use holo_web_conductor.Dht.Tracker.{in_flight, failed, Row, Store, PendingPublish, updated_row}
use holo_web_conductor.Dht.Tracker.Updates.{map_row}
use holo_web_conductor.Dht.Publish.{
  OpResult, LinkerPublishResponse, Answer, response, thrown, mark_in_flight, Verdict, done, fail,
  verdict, no_peers_available, no_peers_message, unknown_error, finish, publish_batch,
}
use holo_web_conductor.Dht.Publish.Settling.{
  Absent, DistinctIds, settled, settle-at, fail_all-at, mark-at, settle-other, fail_all-other,
  mark-other,
}

-- What a result means: an operation is published only if it was stored and reached a peer.
abbrev pub meaning : Bool → Option OpResult → Verdict
meaning reached none = fail unknown_error
meaning reached (some r) =
    if r.success && reached
    then done
    else fail (if r.success then no_peers_message else or_else r.error unknown_error)

-- What the linker's answer means for the k-th operation of a batch.
abbrev pub verdict_of : Answer → ℕ → Verdict
verdict_of (response r) k = meaning ((r.queued == 0) || ltb 0 r.published) (get_elem? r.results k)
verdict_of (thrown message) k = fail message

verdict-meaning :
    (r : LinkerPublishResponse) (o : Option OpResult)
    → verdict (no_peers_available r) o ≡ meaning ((r.queued == 0) || ltb 0 r.published) o
unfolding verdict
verdict-meaning r none = refl
verdict-meaning r (some x) = ground arith

-- The row of a settled operation: gone, or failed with one retry more.
abbrev pub outcome : Verdict → ℕ → Row → Option Row
outcome done now r = none
outcome (fail message) now r = some (record r {
  status = failed;
  retry_count = suc r.retry_count;
  last_attempt = now;
  error = some message;
})

finish-at :
    (answer : Answer) (clock : ℕ → ℕ) (items : List PendingPublish) (s : Store) (k : ℕ)
    {p : PendingPublish}
    → DistinctIds items
    → get_elem? items k ≡ some p
    → JsMap.get p.id (finish answer clock items s)
      ≡ settled (verdict_of answer k) (clock k) (JsMap.get p.id s)
unfolding finish
finish-at (response r) clock items s k {p} d e =
    settle-at (no_peers_available r) clock items r.results s k d e
    ∙ ap (λ v. settled v (clock k) (JsMap.get p.id s)) (verdict-meaning r (get_elem? r.results k))
finish-at (thrown m) clock items s k d e = fail_all-at m clock items s k d e

settled-outcome :
    (v : Verdict) (t now : ℕ) (r : Row)
    → settled v now (some (updated_row in_flight none t r)) ≡ outcome v now r
unfolding updated_row
settled-outcome done t now r = refl
settled-outcome (fail m) t now r = refl

-- A batch of operations with different ids, each with its row, is settled row by row: the row of
-- the k-th operation is removed where the linker stored it and published to a peer, and is
-- otherwise failed with one retry more, the time of that update and the reason: no peers, the
-- linker's own error, "Unknown error" where it gives none or no result, or the error that the
-- exchange threw.
pub publish_batch-at :
    (marks : ℕ → ℕ) (answer : Answer) (later : ℕ → ℕ) (items : List PendingPublish) (s : Store)
    (k : ℕ) (p : PendingPublish) (r : Row)
    → DistinctIds items
    → get_elem? items k ≡ some p
    → JsMap.get p.id s ≡ some r
    → JsMap.get p.id (publish_batch marks answer later items s)
      ≡ outcome (verdict_of answer k) (later k) r
unfolding publish_batch
publish_batch-at marks answer later items s k p r d e row =
    finish-at answer later items (mark_in_flight marks items s) k d e
    ∙ ap (settled (verdict_of answer k) (later k))
        (mark-at marks items s k d e ∙ ap (map_row (updated_row in_flight none (marks k))) row)
    ∙ settled-outcome (verdict_of answer k) (marks k) (later k) r

-- A batch leaves every row alone that is not of one of its operations.
pub publish_batch-other :
    (marks : ℕ → ℕ) (answer : Answer) (later : ℕ → ℕ) (items : List PendingPublish) (s : Store)
    (j : Text)
    → Absent j items
    → JsMap.get j (publish_batch marks answer later items s) ≡ JsMap.get j s
unfolding publish_batch finish
publish_batch-other marks (response r) later items s j h =
    settle-other j (no_peers_available r) later items r.results _ h ∙ mark-other j marks items s h
publish_batch-other marks (thrown m) later items s j h =
    fail_all-other j m later items _ h ∙ mark-other j marks items s h
