-- ===== src/Dht/Publish/Settling.antt =====
-- What becomes of the rows of a batch.
use holo_web_conductor.Common.{
  ℕ, zero, suc, ◌≡◌, ◌≢◌, ◌∙◌, ap, sym, refl, Bool, Option, none, some, List, [], ◌∷◌, Text, arith,
  All, seq_eq_iff, get_elem?,
}
use holo_web_conductor.Common.JsMap
use holo_web_conductor.Dht.Tracker.{
  in_flight, published, failed, Row, Store, PendingPublish, updated_row, update_status,
}
use holo_web_conductor.Dht.Tracker.Updates.{map_row, get-update_status, get-remove_pending_publish}
use holo_web_conductor.Dht.Publish.{
  OpResult, shift, mark_in_flight, Verdict, done, fail, verdict, settle_one, first, rest, settle,
  fail_all,
}

-- No item of the list has the id.
abbrev pub Absent : Text → List PendingPublish → Type 0
Absent j items = All (λ p. p.id ≢ j) items

-- The items have different ids.
abbrev pub DistinctIds : List PendingPublish → Type 0
DistinctIds [] = Unit
DistinctIds (p ∷ ps) = Absent p.id ps × DistinctIds ps

pub mark-other :
    (j : Text) (clock : ℕ → ℕ) (items : List PendingPublish) (s : Store)
    → Absent j items
    → JsMap.get j (mark_in_flight clock items s) ≡ JsMap.get j s
unfolding mark_in_flight
mark-other j clock [] s h = refl
mark-other j clock (p ∷ ps) s h = ground (
  arith,
  mark-other j (shift clock) ps (update_status p.id in_flight none (clock 0) s) h.1,
  get-update_status p.id j in_flight none (clock 0) s,
  seq_eq_iff p.id j,
)

settle_one-other :
    (j id : Text) (v : Verdict) (now : ℕ) (s : Store)
    → id ≢ j
    → JsMap.get j (settle_one id v now s) ≡ JsMap.get j s
unfolding settle_one
settle_one-other j id done now s h = ground (
  arith,
  get-remove_pending_publish id j (update_status id published none now s),
  get-update_status id j published none now s,
  seq_eq_iff id j,
)
settle_one-other j id (fail m) now s h =
    ground (arith, get-update_status id j failed (some m) now s, seq_eq_iff id j)

-- The row that a verdict leaves.
abbrev pub settled_row : Verdict → ℕ → Row → Option Row
settled_row done now r = none
settled_row (fail message) now r = some (updated_row failed (some message) now r)

abbrev pub settled : Verdict → ℕ → Option Row → Option Row
settled v now none = none
settled v now (some r) = settled_row v now r

pub settle_one_self :
    (id : Text) (v : Verdict) (now : ℕ) (s : Store)
    → JsMap.get id (settle_one id v now s) ≡ settled v now (JsMap.get id s)
unfolding settle_one
settle_one_self id done now s = ground (
  arith,
  get-remove_pending_publish id id (update_status id published none now s),
  seq_eq_iff id id,
)
settle_one_self id (fail m) now s =
    ground (arith, get-update_status id id failed (some m) now s, seq_eq_iff id id)

-- The verdicts on the items from one on: what the linker's answer says of the k-th of them.
abbrev pub verdict_at : Bool → List OpResult → ℕ → Verdict
verdict_at no_peers results k = verdict no_peers (get_elem? results k)

pub settle-other :
    (j : Text) (b : Bool) (clock : ℕ → ℕ) (items : List PendingPublish) (rs : List OpResult)
    (s : Store)
    → Absent j items
    → JsMap.get j (settle b clock items rs s) ≡ JsMap.get j s
unfolding settle
settle-other j b clock [] rs s h = refl
settle-other j b clock (p ∷ ps) rs s h = ground (
  arith,
  settle-other j b (shift clock) ps (rest rs) (settle_one p.id (verdict b (first rs)) (clock 0) s)
      h.1,
  settle_one-other j p.id (verdict b (first rs)) (clock 0) s,
)

pub fail_all-other :
    (j m : Text) (clock : ℕ → ℕ) (items : List PendingPublish) (s : Store)
    → Absent j items
    → JsMap.get j (fail_all m clock items s) ≡ JsMap.get j s
unfolding fail_all
fail_all-other j m clock [] s h = refl
fail_all-other j m clock (p ∷ ps) s h = ground (
  arith,
  fail_all-other j m (shift clock) ps (update_status p.id failed (some m) (clock 0) s) h.1,
  get-update_status p.id j failed (some m) (clock 0) s,
  seq_eq_iff p.id j,
)

Absent-ne :
    (j : Text) (ps : List PendingPublish) (k : ℕ) {p : PendingPublish}
    → Absent j ps
    → get_elem? ps k ≡ some p
    → p.id ≢ j
Absent-ne j [] k h e = cc
Absent-ne j (q ∷ ps) zero {p} h e = let same : q ≡ p = cc in rw (← same) h.0
Absent-ne j (q ∷ ps) (suc k) h e = Absent-ne j ps k h.1 e

get_elem?-rest : (rs : List OpResult) (k : ℕ) → get_elem? (rest rs) k ≡ get_elem? rs (suc k)
get_elem?-rest [] k = refl
get_elem?-rest (r ∷ rs) k = refl

first-get_elem? : (rs : List OpResult) → first rs ≡ get_elem? rs 0
first-get_elem? [] = refl
first-get_elem? (r ∷ rs) = refl

pub settle-at :
    (b : Bool) (clock : ℕ → ℕ) (items : List PendingPublish) (rs : List OpResult) (s : Store)
    (k : ℕ) {p : PendingPublish}
    → DistinctIds items
    → get_elem? items k ≡ some p
    → JsMap.get p.id (settle b clock items rs s)
      ≡ settled (verdict_at b rs k) (clock k) (JsMap.get p.id s)
unfolding settle
settle-at b clock [] rs s k d e = cc
settle-at b clock (q ∷ ps) rs s zero {p} d e =
    let same : q ≡ p = cc in
    rw (← same, ← first-get_elem?)
      (settle-other q.id b (shift clock) ps (rest rs) _ d.0
        ∙ settle_one_self q.id (verdict b (first rs)) (clock 0) s)
settle-at b clock (q ∷ ps) rs s (suc k) {p} d e =
    let ih =
      settle-at b (shift clock) ps (rest rs) (settle_one q.id (verdict b (first rs)) (clock 0) s) k
        d.1 e in
    ih
    ∙ rw (get_elem?-rest rs k) (
        ap (settled (verdict_at b rs (suc k)) (clock (suc k))) (
          settle_one-other p.id q.id (verdict b (first rs)) (clock 0) s
            (λ same. Absent-ne q.id ps k d.0 e (sym same))))

pub fail_all-at :
    (m : Text) (clock : ℕ → ℕ) (items : List PendingPublish) (s : Store) (k : ℕ)
    {p : PendingPublish}
    → DistinctIds items
    → get_elem? items k ≡ some p
    → JsMap.get p.id (fail_all m clock items s) ≡ settled (fail m) (clock k) (JsMap.get p.id s)
unfolding fail_all
fail_all-at m clock [] s k d e = cc
fail_all-at m clock (q ∷ ps) s zero {p} d e =
    let same : q ≡ p = cc in
    rw (← same) (
      fail_all-other q.id m (shift clock) ps _ d.0
      ∙ unfold settle_one in settle_one_self q.id (fail m) (clock 0) s)
fail_all-at m clock (q ∷ ps) s (suc k) {p} d e =
    fail_all-at m (shift clock) ps (update_status q.id failed (some m) (clock 0) s) k d.1 e
    ∙ ap (settled (fail m) (clock (suc k))) (
        unfold settle_one in
        settle_one-other p.id q.id (fail m) (clock 0) s
          (λ same. Absent-ne q.id ps k d.0 e (sym same)))

pub mark-at :
    (clock : ℕ → ℕ) (items : List PendingPublish) (s : Store) (k : ℕ) {p : PendingPublish}
    → DistinctIds items
    → get_elem? items k ≡ some p
    → JsMap.get p.id (mark_in_flight clock items s)
      ≡ map_row (updated_row in_flight none (clock k)) (JsMap.get p.id s)
unfolding mark_in_flight
mark-at clock [] s k d e = cc
mark-at clock (q ∷ ps) s zero {p} d e =
    let same : q ≡ p = cc in
    rw (← same) (
      mark-other q.id (shift clock) ps _ d.0
      ∙ ground
          (arith, get-update_status q.id q.id in_flight none (clock 0) s, seq_eq_iff q.id q.id))
mark-at clock (q ∷ ps) s (suc k) {p} d e =
    mark-at (shift clock) ps (update_status q.id in_flight none (clock 0) s) k d.1 e
    ∙ ap (map_row (updated_row in_flight none (clock (suc k)))) (
        ground (
          arith,
          get-update_status q.id p.id in_flight none (clock 0) s,
          seq_eq_iff q.id p.id,
          λ (same : q.id ≡ p.id). Absent-ne q.id ps k d.0 e (sym same),
        ))
