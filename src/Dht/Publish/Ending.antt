-- ===== src/Dht/Publish/Ending.antt =====
-- When the loop of `processQueue` ends, and how much fuel it needs.
use holo_web_conductor.Common.{
  ℕ, zero, suc, ◌*◌, ◌≤◌, ◌<◌, ◌≡◌, ◌≢◌, refl, sym, ◌∙◌, ap, subst, Bool, true, false, Option, none,
  some, List, [], ◌∷◌, ◌++◌, Text, arith, All, map, length, seq_eq, seq_eq_iff, any, Bool-cases,
  inl, inr,
}
use holo_web_conductor.Common.JsMap
use holo_web_conductor.Common.JsMap.{JsMap}
use holo_web_conductor.Dht.OpTypes.{ChainOp}
use holo_web_conductor.Dht.Tracker.{pending, Row, Store, PendingPublish, get_pending_for_dna}
use holo_web_conductor.Dht.Tracker.Table.{IsTable}
use holo_web_conductor.Dht.Publish.{
  Payload, Batch, is_empty, batch_ops_by_size, Exchange, publish_batches, Options, ops_to_publish,
  Round, process_loop, process_queue,
}
use holo_web_conductor.Dht.Publish.Batches.{all_items, IsBatch, batch_ops_by_size_lem}
use holo_web_conductor.Dht.Publish.Measure.{tries_of, left, work, NoMore}
use holo_web_conductor.Dht.Publish.Queue.{
  HasTries, publish_batches-IsTable, publish_batches-NoMore, publish_batches-less,
  ops_to_publish-HasTries,
}

abbrev keys : Store → List Text
keys = map (λ e. e.0)

length-keys : (s : Store) → length (keys s) ≡ length s
length-keys [] = refl
length-keys (e ∷ s) = ap suc (length-keys s)

module _ (o : Options) where
  abbrev among : Text → List Text → Bool
  among k ks = any (λ j. seq_eq j k) ks

  -- All tries that the table has left stand under the keys.
  abbrev Covers : List Text → Store → Type 0
  Covers ks s = (k : Text) → among k ks ≡ false → left o k s ≡ 0

  work_mono : (ks : List Text) (t s : Store) → NoMore o t s → work o ks t ≤ work o ks s
  work_mono [] t s h = omega arith
  work_mono (k ∷ ks) t s h = omega (arith, h k, work_mono ks t s h)

  work-less :
      (ks : List Text) (k : Text) (t s : Store)
      → NoMore o t s
      → left o k t < left o k s
      → among k ks ≡ true
      → work o ks t < work o ks s
  work-less [] k t s h l m = cc
  work-less (j ∷ ks) k t s h l m = elim (Bool-cases (seq_eq j k)) [
    | inl same ↦
        let e : j ≡ k = (seq_eq_iff j k).0 same in
        let l' : left o j t < left o j s = rw e l in omega (arith, work_mono ks t s h)
    | inr other ↦
        let m' : among k ks ≡ true = ground arith in omega (arith, h j, work-less ks k t s h l m')
  ]

  module _ (serialize : ChainOp → Payload) (world : ℕ → Exchange) (s : Store) where
    batches_less :
        (bs : List Batch) (ks : List Text)
        → All (λ c. IsBatch serialize c.items c.serialized) bs
        → All (HasTries o s) (all_items bs)
        → all_items bs ≢ []
        → Covers ks s
        → work o ks (publish_batches world bs s) < work o ks s
    batches_less [] ks good tries ne cov = absurd (ne refl)
    batches_less (b ∷ bs) ks (good, _) tries ne cov = first_item b.items refl
      where
        first_item :
            (items : List PendingPublish)
            → b.items ≡ items
            → work o ks (publish_batches world (b ∷ bs) s) < work o ks s
        first_item [] e = absurd (good.not_empty e)
        first_item (p ∷ ps) e =
            let all : All (HasTries o s) (b.items ++ all_items bs) = tries in
            let here : All (HasTries o s) ((p ∷ ps) ++ all_items bs) =
              subst (λ l. All (HasTries o s) (l ++ all_items bs)) e all in
            let less = publish_batches-less o world b bs s p ps e in
            let among_keys : among p.id ks ≡ true = elim (Bool-cases (among p.id ks)) [
              | inl m ↦ m
              | inr m ↦ absurd (omega (arith, cov p.id m, here.0))
            ] in
            work-less ks p.id (publish_batches world (b ∷ bs) s) s
              (publish_batches-NoMore o world (b ∷ bs) s) (omega (arith, less, here.0)) among_keys

  not_empty : (xs : List PendingPublish) → is_empty xs ≡ false → xs ≢ []
  not_empty [] h = cc
  not_empty (x ∷ xs) h = λ e. cc

  nothing_pending : (xs ys : List PendingPublish) → is_empty (xs ++ ys) ≡ true → xs ≡ []
  nothing_pending [] ys h = refl
  nothing_pending (x ∷ xs) ys h = cc

  round_less :
      (serialize : ChainOp → Payload) (r : Round) (dna : Text) (s : Store) (ks : List Text)
      → IsTable s
      → Covers ks s
      → is_empty (ops_to_publish o r.now dna s) ≡ false
      → work o ks (
          publish_batches r.exchanges
            (batch_ops_by_size serialize (ops_to_publish o r.now dna s))
            s)
        < work o ks s
  round_less serialize r dna s ks h cov ne =
      let ops = ops_to_publish o r.now dna s in
      let (same, good) = batch_ops_by_size_lem serialize ops in
      batches_less serialize r.exchanges s (batch_ops_by_size serialize ops) ks good
        (subst (All (HasTries o s)) (sym same) (ops_to_publish-HasTries o r.now dna s h))
        (λ e. not_empty ops ne (sym same ∙ e)) cov

  process_loop-returns :
      (serialize : ChainOp → Payload) (dna : Text) (ks : List Text) (world : ℕ → Round) (fuel : ℕ)
      (s : Store)
      → IsTable s
      → Covers ks s
      → work o ks s < fuel
      → (s' : Store) × (process_loop o serialize dna world fuel s ≡ some s')
        × IsTable s'
        × (get_pending_for_dna dna (some pending) s' ≡ [])
  unfolding process_loop
  process_loop-returns serialize dna ks world zero s h cov f = absurd (omega arith)
  process_loop-returns serialize dna ks world (suc fuel) s h cov f =
      let ops = ops_to_publish o (world 0).now dna s in
      let next = publish_batches (world 0).exchanges (batch_ops_by_size serialize ops) s in
      elim (Bool-cases (is_empty ops)) [
        | inl stop ↦ (s, rw stop refl, h, unfold ops_to_publish in nothing_pending _ _ stop)
        | inr more ↦
            let no_more =
              publish_batches-NoMore o (world 0).exchanges (batch_ops_by_size serialize ops) s in
            rw more (
              process_loop-returns serialize dna ks (λ n. world (suc n)) fuel next
                (publish_batches-IsTable (world 0).exchanges _ s h)
                (λ k m. omega (arith, no_more k, cov k m))
                (omega (arith, round_less serialize (world 0) dna s ks h cov more)))
      ]

  left-le : (k : Text) (s : Store) → left o k s ≤ suc o.max_retries
  left-le k s = bound (JsMap.get k s)
    where
      bound : (r : Option Row) → tries_of o r ≤ suc o.max_retries
      bound none = omega arith
      bound (some r) = ground arith

  work-le : (ks : List Text) (s : Store) → work o ks s ≤ length ks * suc o.max_retries
  work-le [] s = omega arith
  work-le (k ∷ ks) s = omega (arith, left-le k s, work-le ks s)

  absent : (k : Text) (s : Store) → among k (keys s) ≡ false → JsMap.get k s ≡ none
  unfolding JsMap.get
  absent k [] m = refl
  absent k ((j, r) ∷ s) m = ground (arith, absent k s)

  keys-Covers : (s : Store) → Covers (keys s) s
  keys-Covers s k m = rw (absent k s m) refl

-- On a table with n rows the queue loop stops by itself within n times one more than the retry
-- limit rounds, whatever the linker answers and whatever the clock shows: it returns with the
-- flag clear, the table in shape, and no pending operation of the DNA left.
pub process_queue-returns :
    (o : Options) (serialize : ChainOp → Payload) (dna : Text) (world : ℕ → Round) (fuel : ℕ)
    (s : Store)
    → IsTable s
    → length s * suc o.max_retries < fuel
    → (s' : Store) × (process_queue o serialize dna world fuel (false, s) ≡ some (false, s'))
      × IsTable s'
      × (get_pending_for_dna dna (some pending) s' ≡ [])
unfolding process_queue
process_queue-returns o serialize dna world fuel s h f =
    let (s', e, t, p) =
      process_loop-returns o serialize dna (keys s) world fuel s h (keys-Covers o s)
        (omega (arith, work-le o (keys s) s, ap (λ n. n * suc o.max_retries) (length-keys s))) in
    (s', rw (e, process_queue) refl, t, p)
