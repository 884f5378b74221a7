-- ===== src/Dht/Tracker/Updates.antt =====
-- One row at a time: `updateStatus`, `removePendingPublish` and the reads by id.
use holo_web_conductor.Common.{
  ◌≡◌, Option, none, some, Text, if◌then◌else◌, arith, seq_eq, seq_eq_iff, Option-cases, inl, inr,
  ℕ,
}
use holo_web_conductor.Common.JsMap
use holo_web_conductor.Dht.Tracker.{
  PublishStatus, Row, Store, updated_row, update_status, remove_pending_publish,
  store_pending_publish, to_row, get_pending_publish, to_pending, PendingPublish,
}

-- What an update leaves of a row, if there is one.
abbrev pub map_row : (Row → Row) → Option Row → Option Row
map_row f none = none
map_row f (some r) = some (f r)

-- An update of the status touches the row with that id, if the table holds it, and no other.
pub get-update_status :
    (id j : Text) (status : PublishStatus) (error : Option Text) (now : ℕ) (s : Store)
    → JsMap.get j (update_status id status error now s) ≡ (
        if seq_eq id j
        then map_row (updated_row status error now) (JsMap.get j s)
        else JsMap.get j s)
unfolding update_status
get-update_status id j status error now s = elim (Option-cases (JsMap.get id s)) [
  | inl e ↦ rw (e, update_status) (ground (arith, e, seq_eq_iff id j))
  | inr (r, e) ↦
      rw (e, update_status)
        (ground (arith, e, seq_eq_iff id j, JsMap.get-set id j (updated_row status error now r) s))
]

-- A removal takes away the row with that id and no other.
pub get-remove_pending_publish :
    (id j : Text) (s : Store)
    → JsMap.get j (remove_pending_publish id s) ≡ (if seq_eq id j then none else JsMap.get j s)
unfolding remove_pending_publish
get-remove_pending_publish id j s = JsMap.get-delete id j s

-- A publish that is stored reads back as it was given, and no other row changes.
pub get_pending_publish-store :
    (p : PendingPublish) (dna : Text) (now : ℕ) (s : Store) (j : Text)
    → get_pending_publish j (store_pending_publish p dna now s)
      ≡ (if seq_eq p.id j then some p else get_pending_publish j s)
unfolding get_pending_publish store_pending_publish to_pending
get_pending_publish-store p dna now s j =
    ground (arith, JsMap.get-set p.id j (to_row p dna now) s, seq_eq_iff p.id j)
