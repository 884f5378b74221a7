-- ===== src/Dht/Tracker/Queueing.antt =====
-- The rows that `queueRecordForPublish` stores and the ids that it returns.
use holo_web_conductor.Common.{
  ℕ, zero, suc, ◌+◌, ◌≤◌, ◌≡◌, ◌≢◌, refl, none, some, List, [], ◌∷◌, Bytes, Text, arith, All,
  length, get_elem?, seq_eq_iff, true,
}
use holo_web_conductor.Common.JsMap
use holo_web_conductor.Dht.OpTypes.{ChainOp, ChainRecord}
use holo_web_conductor.Dht.Produce.{
  BasisResult, ok, wrong_action, compute_op_basis, produce_ops_from_record, get_op_action, op_type,
}
use holo_web_conductor.Dht.Produce.Kinds.{is_ok, produce-has_basis}
use holo_web_conductor.Dht.Tracker.{
  pending, Store, PendingPublish, to_row, store_pending_publish, ids, queue_ops,
  queue_record_for_publish,
}

abbrev pub HasBasis : Bytes → ChainOp → Type 0
HasBasis hash op = is_ok (compute_op_basis (op_type op) (get_op_action op) hash) ≡ true

ok_cases : (r : BasisResult) → is_ok r ≡ true → (b : Bytes) × (r ≡ ok b)
ok_cases (ok b) h = (b, refl)
ok_cases (wrong_action t) h = cc

-- The publish that is stored for an operation.
abbrev pub queued_publish : Text → ChainOp → Bytes → PendingPublish
queued_publish id op basis = record {
  id = id;
  op = op;
  basis = basis;
  status = pending;
  retry_count = 0;
  last_attempt = 0;
  error = none;
}

-- The first `n` ids from `i` on.
abbrev pub ids_from : (ℕ → Text) → ℕ → ℕ → List Text
ids_from fresh i zero = []
ids_from fresh i (suc n) = fresh i ∷ ids_from fresh (suc i) n

module _ (fresh : ℕ → Text) (clock : ℕ → ℕ) (dna : Text) (hash : Bytes) where
  queue_ops-ids :
      (ops : List ChainOp) (i : ℕ) (s : Store)
      → All (HasBasis hash) ops
      → (queue_ops fresh clock dna hash ops i s).0 ≡ ids (ids_from fresh i (length ops))
  unfolding queue_ops
  queue_ops-ids [] i s h = refl
  queue_ops-ids (op ∷ ops) i s h =
      let (b, e) = ok_cases (compute_op_basis (op_type op) (get_op_action op) hash) h.0 in
      rw (e, queue_ops)
        (ground (
          arith,
          queue_ops-ids ops (suc i)
              (store_pending_publish (queued_publish (fresh i) op b) dna (clock i) s) h.1,
        ))

  queue_ops-other :
      (ops : List ChainOp) (i : ℕ) (s : Store) (j : Text)
      → ((n : ℕ) → i ≤ n → fresh n ≢ j)
      → All (HasBasis hash) ops
      → JsMap.get j (queue_ops fresh clock dna hash ops i s).1 ≡ JsMap.get j s
  unfolding queue_ops store_pending_publish
  queue_ops-other [] i s j f h = refl
  queue_ops-other (op ∷ ops) i s j f h =
      let (b, e) = ok_cases (compute_op_basis (op_type op) (get_op_action op) hash) h.0 in
      let row = to_row (queued_publish (fresh i) op b) dna (clock i) in
      let later =
        queue_ops-other ops (suc i) (JsMap.set (fresh i) row s) j (λ n l. f n (omega arith)) h.1 in
      rw (e, queue_ops)
        (ground (
          arith,
          later,
          JsMap.get-set (fresh i) j row s,
          seq_eq_iff (fresh i) j,
          f i (omega arith),
        ))

  queue_ops-rows :
      (inj : (m n : ℕ) → fresh m ≡ fresh n → m ≡ n) (ops : List ChainOp) (i : ℕ) (s : Store) (k : ℕ)
      {op : ChainOp}
      → All (HasBasis hash) ops
      → get_elem? ops k ≡ some op
      → (b : Bytes) × (compute_op_basis (op_type op) (get_op_action op) hash ≡ ok b)
        × (JsMap.get (fresh (i + k)) (queue_ops fresh clock dna hash ops i s).1
            ≡ some (to_row (queued_publish (fresh (i + k)) op b) dna (clock (i + k))))
  unfolding queue_ops store_pending_publish
  queue_ops-rows inj [] i s k h e = cc
  queue_ops-rows inj (op ∷ ops) i s zero {op = o} h at_k =
      let (b, e) = ok_cases (compute_op_basis (op_type op) (get_op_action op) hash) h.0 in
      let row = to_row (queued_publish (fresh i) op b) dna (clock i) in
      let here : i + 0 ≡ i = omega arith in
      let later =
        queue_ops-other ops (suc i) (JsMap.set (fresh i) row s) (fresh i)
          (λ n l same. absurd (omega (arith, inj n i same))) h.1 in
      let same : op ≡ o = cc in
      rw (← same) (
        b,
        e,
        rw here (
            rw (e, queue_ops)
              (ground (
                arith,
                later,
                JsMap.get-set (fresh i) (fresh i) row s,
                seq_eq_iff (fresh i) (fresh i),
              ))),
      )
  queue_ops-rows inj (op ∷ ops) i s (suc k) {op = o} h at_k =
      let (b, e) = ok_cases (compute_op_basis (op_type op) (get_op_action op) hash) h.0 in
      let row = to_row (queued_publish (fresh i) op b) dna (clock i) in
      let shift : i + suc k ≡ suc i + k = omega arith in
      let (b', e', r) = queue_ops-rows inj ops (suc i) (JsMap.set (fresh i) row s) k h.1 at_k in
      (b', e', rw shift (rw (e, queue_ops) (ground (arith, r))))

-- Queueing a record never stops at an operation without a basis: it returns one id for each
-- operation that the record gives, in order.
pub queue_record-ids :
    (fresh : ℕ → Text) (clock : ℕ → ℕ) (r : ChainRecord) (dna : Text) (s : Store)
    → (queue_record_for_publish fresh clock r dna s).0
      ≡ ids (ids_from fresh 0 (length (produce_ops_from_record r)))
unfolding queue_record_for_publish
queue_record-ids fresh clock r dna s =
    queue_ops-ids fresh clock dna r.hash (produce_ops_from_record r) 0 s (produce-has_basis r)

-- Where the generated ids differ from one another, the row of the k-th operation is pending, never
-- tried, without an error, under the k-th id and of the k-th time, and holds the operation, its
-- DNA, and the basis computed for it.
pub queue_record-rows :
    (fresh : ℕ → Text) (clock : ℕ → ℕ) (r : ChainRecord) (dna : Text) (s : Store) (k : ℕ)
    (op : ChainOp)
    → ((m n : ℕ) → fresh m ≡ fresh n → m ≡ n)
    → get_elem? (produce_ops_from_record r) k ≡ some op
    → (b : Bytes) × (compute_op_basis (op_type op) (get_op_action op) r.hash ≡ ok b)
      × (JsMap.get (fresh k) (queue_record_for_publish fresh clock r dna s).1
          ≡ some (record {
            id = fresh k;
            op = op;
            basis = b;
            status = pending;
            retry_count = 0;
            last_attempt = 0;
            error = none;
            dna_hash_str = dna;
            created_at = clock k;
          }))
unfolding queue_record_for_publish to_row
queue_record-rows fresh clock r dna s k op inj at_k =
    let start : 0 + k ≡ k = omega arith in
    rw start at (
      queue_ops-rows fresh clock dna r.hash inj (produce_ops_from_record r) 0 s k
        (produce-has_basis r) at_k)

-- A row whose id is not among the generated ones is not touched.
pub queue_record-other :
    (fresh : ℕ → Text) (clock : ℕ → ℕ) (r : ChainRecord) (dna : Text) (s : Store) (j : Text)
    → ((n : ℕ) → fresh n ≢ j)
    → JsMap.get j (queue_record_for_publish fresh clock r dna s).1 ≡ JsMap.get j s
unfolding queue_record_for_publish
queue_record-other fresh clock r dna s j f =
    queue_ops-other fresh clock dna r.hash (produce_ops_from_record r) 0 s j (λ n _. f n)
      (produce-has_basis r)
