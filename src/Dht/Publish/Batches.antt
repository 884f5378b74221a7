-- ===== src/Dht/Publish/Batches.antt =====
-- How `batchOpsBySize` splits the operations into batches.
use mathlib.Core.List.{map-append}
use holo_web_conductor.Common.{
  ℕ, ◌+◌, ◌≤◌, ◌≡◌, ◌≢◌, ◌⊎◌, inl, inr, refl, sym, ap, ◌∙◌, true, false, List, [], ◌∷◌, ◌++◌, arith,
  All, All-append, append_assoc, append-nil, length, map, Bool-cases, ltb, ltb→ge, subst,
}
use holo_web_conductor.Dht.OpTypes.{ChainOp}
use holo_web_conductor.Dht.Tracker.{PendingPublish}
use holo_web_conductor.Dht.Publish.{
  Payload, Batch, Batching, batch_size_limit, op_size, is_empty, finalize, add_op, batch_one,
  batch_loop, last_batch, batch_ops_by_size,
}

abbrev pub all_items : List Batch → List PendingPublish
all_items [] = []
all_items (b ∷ bs) = b.items ++ all_items bs

-- The bytes of a batch's payloads.
abbrev pub payload_size : List Payload → ℕ
payload_size [] = 0
payload_size (p ∷ ps) = op_size p + payload_size ps

all_items-append : (xs bs : List Batch) → all_items (xs ++ bs) ≡ all_items xs ++ all_items bs
all_items-append [] bs = refl
all_items-append (a ∷ xs) bs = rw (all_items-append xs bs) (sym (append_assoc a.items _ _))

payload_size-append :
    (ps qs : List Payload) → payload_size (ps ++ qs) ≡ payload_size ps + payload_size qs
payload_size-append [] qs = omega arith
payload_size-append (p ∷ ps) qs = omega (arith, payload_size-append ps qs)

is_empty-cases :
    (xs : List PendingPublish)
    → ((xs ≡ []) × (is_empty xs ≡ true)) ⊎ ((xs ≢ []) × (is_empty xs ≡ false))
is_empty-cases [] = inl (refl, refl)
is_empty-cases (x ∷ xs) = inr (λ e. cc, refl)

finalize-items : (b : Batching) → (finalize b).items ≡ []
unfolding finalize
finalize-items b = refl

module _ (serialize : ChainOp → Payload) where
  -- A batch is not empty, holds the payloads of its items, and is within the limit unless it is
  -- one operation alone.
  pub record IsBatch (items : List PendingPublish) (payloads : List Payload) : Type 0 where
    pub not_empty : items ≢ []
    pub serialized : payloads ≡ map (λ p. serialize p.op) items
    pub fits : (length items ≡ 1) ⊎ (payload_size payloads ≤ batch_size_limit)

  abbrev IsSmall : List PendingPublish → List Payload → Type 0
  IsSmall items payloads = (length items ≡ 1) ⊎ (payload_size payloads ≤ batch_size_limit)

  -- The loop's state after the operations `seen`.
  record Inv (seen : List PendingPublish) (b : Batching) : Type 0 where
    same : all_items b.batches ++ b.items ≡ seen
    good : All (λ c. IsBatch c.items c.serialized) b.batches
    payloads : b.serialized ≡ map (λ p. serialize p.op) b.items
    small : (b.items ≡ []) ⊎ IsSmall b.items b.serialized
    sized : b.size ≡ payload_size b.serialized

  finalize-Inv :
      (seen : List PendingPublish) (b : Batching)
      → b.items ≢ []
      → Inv seen b
      → Inv seen (finalize b)
  unfolding finalize
  finalize-Inv seen b full v = record {
    same =
        rw
          (
            append-nil,
            all_items-append b.batches (record { items = b.items; serialized = b.serialized } ∷ []),
          )
          (rw append-nil v.same);
    good = All-append _ b.batches _ v.good (
      record {
        not_empty = full;
        serialized = v.payloads;
        fits = elim v.small [ inl e ↦ absurd (full e) | inr s ↦ s ];
      },
      tt,
    );
    payloads = refl;
    small = inl refl;
    sized = refl;
  }

  -- The operation is the first of its batch, or there is room for it.
  add_op-Inv :
      (seen : List PendingPublish) (item : PendingPublish) (b : Batching)
      → (b.items ≡ []) ⊎ (b.size + op_size (serialize item.op) ≤ batch_size_limit)
      → Inv seen b
      → Inv (seen ++ item ∷ []) (add_op item (serialize item.op) b)
  unfolding add_op
  add_op-Inv seen item b room v = record {
    same = rw (← append_assoc) (ap (λ l. l ++ item ∷ []) v.same);
    good = v.good;
    payloads = rw (map-append, v.payloads) refl;
    small = inr (elim room [
      | inl e ↦ inl (rw e refl)
      | inr r ↦
          inr (omega (arith, v.sized, payload_size-append b.serialized (serialize item.op ∷ [])))
    ]);
    sized = omega (arith, v.sized, payload_size-append b.serialized (serialize item.op ∷ []));
  }

  batch_one-Inv :
      (seen : List PendingPublish) (item : PendingPublish) (b : Batching)
      → Inv seen b
      → Inv (seen ++ item ∷ []) (batch_one item (serialize item.op) b)
  unfolding batch_one
  batch_one-Inv seen item b v = elim (is_empty-cases b.items) [
    | inl (e, empty) ↦ rw empty (add_op-Inv seen item b (inl e) v)
    | inr (ne, full) ↦
        elim (Bool-cases (ltb batch_size_limit (b.size + op_size (serialize item.op)))) [
          | inl over ↦
              rw (full, over)
                (add_op-Inv seen item (finalize b) (inl (finalize-items b))
                  (finalize-Inv seen b ne v))
          | inr within ↦ rw (full, within) (add_op-Inv seen item b (inr (ltb→ge _ _ within)) v)
        ]
  ]

  batch_loop-Inv :
      (seen ops : List PendingPublish) (b : Batching)
      → Inv seen b
      → Inv (seen ++ ops) (batch_loop serialize ops b)
  unfolding batch_loop
  batch_loop-Inv seen [] b v = rw append-nil v
  batch_loop-Inv seen (item ∷ ops) b v =
      subst (λ l. Inv l (batch_loop serialize ops (batch_one item (serialize item.op) b)))
        (append_assoc seen (item ∷ []) ops)
        (batch_loop-Inv (seen ++ item ∷ []) ops (batch_one item (serialize item.op) b)
          (batch_one-Inv seen item b v))

  last_batch-Inv :
      (seen : List PendingPublish) (b : Batching)
      → Inv seen b
      → (all_items (last_batch b) ≡ seen) × All (λ c. IsBatch c.items c.serialized) (last_batch b)
  last_batch-Inv seen b v = elim (is_empty-cases b.items) [
    | inl (e, empty) ↦ rw empty ((sym (append-nil _) ∙ (rw (← e) v.same)), v.good)
    | inr (ne, full) ↦
        let w = finalize-Inv seen b ne v in
        rw full (sym (append-nil _) ∙ (rw (← finalize-items b) w.same), w.good)
  ]

  -- The batches hold the given operations, each once and in their order; no batch is empty, its
  -- payloads are those of its items, and only a batch of a single operation can be over the limit.
  pub batch_ops_by_size_lem :
      (ops : List PendingPublish)
      → (all_items (batch_ops_by_size serialize ops) ≡ ops)
        × All (λ c. IsBatch c.items c.serialized) (batch_ops_by_size serialize ops)
  unfolding batch_ops_by_size
  batch_ops_by_size_lem ops = last_batch-Inv ops _ (
      batch_loop-Inv [] ops _
        (record { same = refl; good = tt; payloads = refl; small = inl refl; sized = refl }))
