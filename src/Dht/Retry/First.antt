-- ===== src/Dht/Retry/First.antt =====
-- Only the queue of the first DNA runs.
use holo_web_conductor.Common.{
  ℕ, suc, ◌*◌, ◌<◌, ◌≡◌, refl, sym, subst, ap, ◌∙◌, true, false, not, some, List, [], ◌∷◌, map,
  keep, seq_eq, Text, length, seq_eq_iff, any, ◌&&◌, if◌then◌else◌, Bool-cases, inl, inr, arith,
  none, Option,
}
use holo_web_conductor.Dht.OpTypes.{ChainOp}
use holo_web_conductor.Common.JsMap
use holo_web_conductor.Dht.Tracker.Counting.{get-reset_failed}
use holo_web_conductor.Dht.Tracker.Updates.{map_row}
use holo_web_conductor.Dht.Tracker.{
  Row, failed, has_dna, status_eq, Store, pending, get_pending_for_dna, reset_failed_for_dnas,
}
use holo_web_conductor.Dht.Tracker.Table.{IsTable}
use holo_web_conductor.Dht.Tracker.Resetting.{length-reset_failed, reset_failed-IsTable}
use holo_web_conductor.Dht.Publish.{Options, Payload, Round, process_queue}
use holo_web_conductor.Dht.Publish.Ending.{process_queue-returns}
use holo_web_conductor.Network.WebSocket.Messages.{Registration}
use holo_web_conductor.Dht.Retry.{
  unique_dnas, begun_queues, run_queues, retry_publishes_after_reconnect,
}

begun_queues-true : (dnas : List Text) → begun_queues true dnas ≡ []
unfolding begun_queues
begun_queues-true [] = refl
begun_queues-true (dna ∷ dnas) = begun_queues-true dnas

begun_first : (dna : Text) (dnas : List Text) → begun_queues false (dna ∷ dnas) ≡ dna ∷ []
unfolding begun_queues
begun_first dna dnas = ap (λ t. dna ∷ t) (begun_queues-true dnas)

-- All DNAs of some registrations.
abbrev pub dnas_of : List Registration → List Text
dnas_of registrations = unique_dnas (map (λ g. g.dna_hash) registrations)

-- The set of the DNAs has those of the list.
any-keep :
    (dna t : Text) (dnas : List Text)
    → seq_eq dna t ≡ false
    → has_dna (keep (λ d. not (seq_eq d dna)) dnas) t ≡ has_dna dnas t
any-keep dna t [] e = refl
any-keep dna t (d ∷ dnas) e =
    ground (arith, any-keep dna t dnas e, seq_eq_iff d dna, seq_eq_iff d t, seq_eq_iff dna t)

has_dna-unique_dnas : (dnas : List Text) (t : Text) → has_dna (unique_dnas dnas) t ≡ has_dna dnas t
unfolding unique_dnas
has_dna-unique_dnas [] t = refl
has_dna-unique_dnas (dna ∷ dnas) t = elim (Bool-cases (seq_eq dna t)) [
  | inl e ↦ rw e refl
  | inr e ↦ rw e (any-keep dna t (unique_dnas dnas) e ∙ has_dna-unique_dnas dnas t)
]

has_dna-map :
    (registrations : List Registration) (t : Text)
    → has_dna (map (λ g. g.dna_hash) registrations) t ≡ any (λ g. seq_eq g.dna_hash t) registrations
has_dna-map [] t = refl
has_dna-map (g ∷ registrations) t = rw (has_dna-map registrations t) refl

has_dna-dnas_of :
    (registrations : List Registration) (t : Text)
    → has_dna (dnas_of registrations) t ≡ any (λ g. seq_eq g.dna_hash t) registrations
has_dna-dnas_of registrations t =
    has_dna-unique_dnas (map (λ g. g.dna_hash) registrations) t ∙ has_dna-map registrations t

map_row_same :
    (registrations : List Registration) (row : Option Row)
    → map_row
        (λ r.
          if has_dna (dnas_of registrations) r.dna_hash_str && status_eq r.status failed
          then record r { status = pending; error = none; retry_count = 0 }
          else r)
        row
      ≡ map_row
          (λ r.
            if any (λ g. seq_eq g.dna_hash r.dna_hash_str) registrations
              && status_eq r.status failed
            then record r { status = pending; error = none; retry_count = 0 }
            else r)
          row
map_row_same registrations none = refl
map_row_same registrations (some r) =
    ap
      (λ t. some (
        if t && status_eq r.status failed
        then record r { status = pending; error = none; retry_count = 0 }
        else r))
      (has_dna-dnas_of registrations r.dna_hash_str)

module _ (o : Options) (serialize : ChainOp → Payload) (world : Text → ℕ → Round) (fuel : ℕ) where
  one_queue :
      (dna : Text) (v w : Store)
      → process_queue o serialize dna (world dna) fuel (false, v) ≡ some (false, w)
      → run_queues o serialize world fuel (dna ∷ []) (false, v) ≡ some (false, w)
  unfolding run_queues
  one_queue dna v w e = rw (e, run_queues) refl

  retry_lem :
      (r : Registration) (registrations : List Registration) (s : Store)
      → retry_publishes_after_reconnect o serialize world fuel (r ∷ registrations) (false, s)
        ≡ run_queues o serialize world fuel
            (r.dna_hash ∷ [])
            (false, (reset_failed_for_dnas (dnas_of (r ∷ registrations)) s).1)
  unfolding retry_publishes_after_reconnect unique_dnas
  retry_lem r registrations s =
      ap
        (λ t.
          run_queues o serialize world fuel t
            (false, (reset_failed_for_dnas (dnas_of (r ∷ registrations)) s).1))
        (begun_first r.dna_hash (keep (λ d. not (seq_eq d r.dna_hash)) (dnas_of registrations)))

  -- After a reconnection with registrations, from a table in shape with no queue at work and on
  -- enough fuel, the failed operations of all registered DNAs are reset: row by row, an operation
  -- that had failed, of the DNA of one of the registrations, is pending with no error and no
  -- tries, and every other row is as it was. Then only the queue of the first registration's DNA
  -- runs: the whole is that run over the table that the reset leaves. It returns with the flag
  -- clear, the table in shape, and no pending operation of that DNA left.
  pub retry_publishes-first :
      (r : Registration) (registrations : List Registration) (s : Store)
      → IsTable s
      → length s * suc o.max_retries < fuel
      → (v : Store) × ((k : Text)
          → JsMap.get k v
            ≡ map_row
                (λ row.
                  if any (λ g. seq_eq g.dna_hash row.dna_hash_str) (r ∷ registrations)
                    && status_eq row.status failed
                  then record row { status = pending; error = none; retry_count = 0 }
                  else row)
                (JsMap.get k s))
        × ((w : Store) × (retry_publishes_after_reconnect o serialize world fuel
                (r ∷ registrations)
                (false, s)
              ≡ some (false, w))
            × (process_queue o serialize r.dna_hash (world r.dna_hash) fuel (false, v)
                ≡ some (false, w))
            × IsTable w
            × (get_pending_for_dna r.dna_hash (some pending) w ≡ []))
  retry_publishes-first r registrations s h f =
      let dnas = dnas_of (r ∷ registrations) in
      let v = (reset_failed_for_dnas dnas s).1 in
      let (w, e, t, p) =
        process_queue-returns o serialize r.dna_hash (world r.dna_hash) fuel v
          (reset_failed-IsTable dnas s h)
          (subst (λ n. n * suc o.max_retries < fuel) (sym (length-reset_failed dnas s)) f) in
      (
        v,
        λ k. get-reset_failed dnas s k ∙ map_row_same (r ∷ registrations) (JsMap.get k s),
        (w, retry_lem r registrations s ∙ one_queue r.dna_hash v w e, e, t, p),
      )
