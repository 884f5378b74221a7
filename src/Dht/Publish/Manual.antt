-- ===== src/Dht/Publish/Manual.antt =====
-- The first half of `retryFailed`, whose comment says that it resets the retry count.
use holo_web_conductor.Common.{
  ℕ, ◌≡◌, refl, ◌∙◌, Bool, true, false, Option, none, some, List, [], ◌∷◌, Text, seq_eq,
  if◌then◌else◌,
}
use holo_web_conductor.Common.JsMap
use holo_web_conductor.Dht.Tracker.{
  pending, failed, Row, Store, PendingPublish, updated_row, update_status, get_pending_for_dna,
}
use holo_web_conductor.Dht.Tracker.Updates.{map_row, get-update_status}
use holo_web_conductor.Dht.Publish.{shift, reset_all, retry_failed_marks}

abbrev pub count_of : Option Row → Option ℕ
count_of none = none
count_of (some r) = some r.retry_count

updated-count :
    (b : Bool) (now : ℕ) (r : Option Row)
    → count_of (if b then map_row (updated_row pending none now) r else r) ≡ count_of r
unfolding updated_row
updated-count false now r = refl
updated-count true now none = refl
updated-count true now (some r) = refl

update-count :
    (id k : Text) (now : ℕ) (s : Store)
    → count_of (JsMap.get k (update_status id pending none now s)) ≡ count_of (JsMap.get k s)
update-count id k now s =
    rw (get-update_status id k pending none now s) (updated-count (seq_eq id k) now (JsMap.get k s))

reset_all-count :
    (clock : ℕ → ℕ) (items : List PendingPublish) (s : Store) (k : Text)
    → count_of (JsMap.get k (reset_all clock items s)) ≡ count_of (JsMap.get k s)
unfolding reset_all
reset_all-count clock [] s k = refl
reset_all-count clock (p ∷ ps) s k =
    reset_all-count (shift clock) ps _ k ∙ update-count p.id k (clock 0) s

-- A manual retry leaves the retry count of every row as it was.
pub retry_failed_marks-count :
    (clock : ℕ → ℕ) (dna : Text) (s : Store) (k : Text)
    → count_of (JsMap.get k (retry_failed_marks clock dna s)) ≡ count_of (JsMap.get k s)
unfolding retry_failed_marks
retry_failed_marks-count clock dna s k =
    reset_all-count clock (get_pending_for_dna dna (some failed) s) s k
